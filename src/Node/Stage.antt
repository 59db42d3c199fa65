-- ===== src/Node/Stage.antt =====
-- `NodeStageVolume`: the volume's device is found, unlocked if it is a LUKS volume, formatted if
-- need be, and mounted at the staging path.
pub mod Unlock
pub mod Effects
pub mod Calm
pub mod Metrics
pub mod Safety
use linode_blockstorage_csi.Common.{
  Text, codes, is_empty, lookup, Option, none, some, List, [], Bool, true, false, if◌then◌else◌,
}
use linode_blockstorage_csi.Errors.{GoError, err_internal, end, text, texts, cause}
use linode_blockstorage_csi.Effect.{
  Result, ok, err, M, pure, fail, lift, call, tell, ◌>>=◌, ◌>>◌, or_record, record_metrics, recover,
  node_stage_op, completed_status, failed_status,
}
use linode_blockstorage_csi.Volumes.{LinodeVolumeKey, parse_linode_volume_key, get_normalized_label}
use linode_blockstorage_csi.Csi.{VolumeCapability}
use linode_blockstorage_csi.Devices.{get_disk_by_id_paths, verify_device_path}
use linode_blockstorage_csi.Host.{Host}
use linode_blockstorage_csi.Luks.{
  LuksContext, get_luks_context, validate, blkid_valid, luks_format, luks_open,
}
use linode_blockstorage_csi.Node.{
  StageRequest, validate_node_stage_volume_request, get_fs_type_and_mount_options,
  ensure_mount_point, is_block,
}

-- The partition that the volume context names, if any.
unfoldable pub partition_of : StageRequest → Text
partition_of req = elim (lookup (codes "partition") req.volume_context) [ none ↦ [] | some p ↦ p ]

module _ {W : Type 0} (host : Host W) where
  -- An error of `m` under an internal error with one text.
  wrapped : {A : Type 0} → (GoError → GoError) → M W A → M W A
  wrapped wrap m = recover m >>= λ r. lift (elim r [ ok a ↦ ok a | err e ↦ err (wrap e) ])

  found_path : List Text → Text → M W Text
  found_path paths path =
      if is_empty path
      then fail
          (err_internal "Unable to find device path out of attempted paths: %v" (texts paths end))
      else pure path

  unfoldable pub find_device_path : LinodeVolumeKey → Text → M W Text
  unfolding wrapped found_path
  find_device_path key partition = do
    let paths = get_disk_by_id_paths (get_normalized_label key) partition
    path ←
        wrapped
          (λ e.
            err_internal "Error verifying Linode Volume (%q) is attached: %v"
              (text key.label (cause e end)))
          (verify_device_path host paths)
    found_path paths path

  luks_source : LuksContext → Text → Bool → M W Text
  unfolding wrapped
  luks_source c device true =
      wrapped (λ e. err_internal "Failed to luks open (%q): %v" (text device (cause e end)))
        (luks_open host c device)
  luks_source c device false =
      wrapped (λ e. err_internal "Failed to luks format (%q): %v" (text device (cause e end)))
        (luks_format host c device)

  -- A device that is formatted already is opened, and any other is formatted.
  unfoldable pub format_luks_volume : Text → LuksContext → M W Text
  unfolding wrapped luks_source
  format_luks_volume device c = do
    formatted ←
        wrapped (λ e. err_internal "Failed to validate blkid (%q): %v" (text device (cause e end)))
          (blkid_valid host device)
    wrapped
        (λ e. err_internal "Failed to luks format validation (%q): %v" (text device (cause e end)))
        (lift (validate c))
    luks_source c device formatted

  unfoldable pub mount_volume : Text → StageRequest → VolumeCapability → M W (Unit {0})
  unfolding format_luks_volume
  mount_volume device req cap = do
    let (fs_type, options) = get_fs_type_and_mount_options cap
    let c = get_luks_context req.secrets req.volume_context
    source ← if c.encryption_enabled then format_luks_volume device c else pure device
    call
        (λ e.
          err_internal
            "Failed to format and mount device from (%q)---(%q) to (%q) with fstype (%q) and options (%q): %v"
            (text source (
              text device
                (text req.staging_target_path (text fs_type (texts options (cause e end)))))))
        (host.mounter.format_and_mount source req.staging_target_path fs_type options)

  -- A mount point is taken to be this volume's, and a block volume is not mounted here; both end
  -- with success and are counted as failed.
  mount_if_needed : Text → StageRequest → VolumeCapability → Bool → M W (Unit {0})
  unfolding mount_volume
  mount_if_needed device req cap false = record_metrics node_stage_op failed_status
  mount_if_needed device req cap true =
      if is_block cap.access_type then record_metrics node_stage_op failed_status else (do
        or_record node_stage_op (mount_volume device req cap)
        record_metrics node_stage_op completed_status)

  unfoldable pub node_stage_volume : StageRequest → M W (Unit {0})
  unfolding find_device_path mount_if_needed
  node_stage_volume req = do
    cap ← or_record node_stage_op (lift (validate_node_stage_volume_request req))
    key ← or_record node_stage_op (lift (parse_linode_volume_key req.volume_id))
    device ← or_record node_stage_op (find_device_path key (partition_of req))
    not_mnt ← or_record node_stage_op (ensure_mount_point host req.staging_target_path)
    mount_if_needed device req cap not_mnt
