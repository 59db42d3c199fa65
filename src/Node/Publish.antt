-- ===== src/Node/Publish.antt =====
-- `NodePublishVolume`: a staged volume, or a block device, is mounted at a target path.
pub mod Calm
pub mod Effects
pub mod Laws
use linode_blockstorage_csi.Common.{
  ℕ, Text, codes, is_empty, get, List, [], ◌∷◌, ◌++◌, Bool, true, false, if◌then◌else◌,
}
use linode_blockstorage_csi.Errors.{GoError, err_internal, end, text, cause}
use linode_blockstorage_csi.Effect.{
  Result, ok, err, M, pure, fail, lift, call, tell, ◌>>=◌, ◌>>◌, or_record, record_metrics, finally,
  node_publish_op, completed_status, failed_status,
}
use linode_blockstorage_csi.Paths.{dir}
use linode_blockstorage_csi.Host.{Host}
use linode_blockstorage_csi.Csi.{VolumeCapability}
use linode_blockstorage_csi.Node.{
  PublishRequest, rw_permission, owner_group_read_write_permissions, is_block,
  validate_node_publish_volume_request, ensure_mount_point,
}

-- The mount options of a request.
unfoldable pub options_of : PublishRequest → List Text
options_of req = if req.readonly then codes "bind" ∷ codes "ro" ∷ [] else codes "bind" ∷ []

module _ {W : Type 0} (host : Host W) where
  -- The target file is removed again after an error `e`, which is returned.
  remove_target : Text → GoError → GoError → Result (Unit {0}) → M W (Unit {0})
  remove_target target e both (ok _) = fail e
  remove_target target e both (err x) = fail both

  mount_error : Text → Text → GoError → GoError
  mount_error device target e =
      err_internal "Failed to mount %q at %q: %v" (text device (text target (cause e end)))

  mounted_block : Text → Text → Result (Unit {0}) → M W (Unit {0})
  unfolding remove_target mount_error
  mounted_block device target (ok _) = pure tt
  mounted_block device target (err e) = do
    r ← tell (host.fs.remove target)
    remove_target target (mount_error device target e)
        (err_internal
          "Failed to mount %q at %q: %v. Additionally, failed to remove mount target: %v"
          (text device (text target (cause e end))))
        r

  close_file : ℕ → M W (Unit {0})
  close_file file = tell (host.fs.close file) >> pure tt

  -- The file is closed at the end.
  opened : Text → Text → List Text → Result ℕ → M W (Unit {0})
  unfolding remove_target mounted_block close_file
  opened device target options (err e) = do
    r ← tell (host.fs.remove target)
    remove_target target (err_internal "Failed to create file %s: %v" (text target (cause e end)))
        (err_internal "Failed remove mount target %q: %v" (text target (cause e end))) r
  opened device target options (ok file) =
      finally (close_file file)
        (do r ← tell (host.mounter.mount device target [] options); mounted_block device target r)

  with_device : Text → Text → List Text → M W (Unit {0})
  unfolding opened
  with_device device target options = do
    call (λ e. err_internal "Failed to create directory %q: %v" (text (dir target) (cause e end)))
        (host.fs.mkdir_all (dir target) rw_permission)
    r ← tell (host.fs.open_file target owner_group_read_write_permissions)
    opened device target options r

  unfoldable pub node_publish_volume_block : PublishRequest → List Text → M W (Unit {0})
  unfolding with_device
  node_publish_volume_block req options =
      let device = get (codes "devicePath") req.publish_context in
      if is_empty device
      then fail (err_internal "devicePath cannot be found" end)
      else with_device device req.target_path options

  -- A completed sample is recorded also behind the failed one.
  publish_block : PublishRequest → M W (Unit {0})
  unfolding node_publish_volume_block
  publish_block req =
      finally (record_metrics node_publish_op completed_status)
        (or_record node_publish_op (node_publish_volume_block req (options_of req)))

  mount_staged : PublishRequest → Bool → M W (Unit {0})
  mount_staged req false = record_metrics node_publish_op failed_status
  mount_staged req true = do
    or_record node_publish_op (
        call
          (λ e.
            err_internal "NodePublishVolume could not mount %s at %s: %v"
              (text req.staging_target_path (text req.target_path (cause e end))))
          (host.mounter.mount req.staging_target_path req.target_path (codes "ext4")
            (options_of req)))
    record_metrics node_publish_op completed_status

  publish_mount : PublishRequest → M W (Unit {0})
  unfolding mount_staged
  publish_mount req = do
    not_mnt ← or_record node_publish_op (ensure_mount_point host req.target_path)
    mount_staged req not_mnt

  unfoldable pub node_publish_volume : PublishRequest → M W (Unit {0})
  unfolding publish_block publish_mount
  node_publish_volume req = do
    cap ← or_record node_publish_op (lift (validate_node_publish_volume_request req))
    if is_block cap.access_type then publish_block req else publish_mount req
