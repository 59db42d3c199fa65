-- ===== src/Node/Unstage.antt =====
-- `NodeUnstageVolume` and `NodeUnpublishVolume`: a path is unmounted, and on unstaging the volume's
-- LUKS device is closed.
pub mod Calm
pub mod Effects
pub mod Laws
pub mod Names
use linode_blockstorage_csi.Common.{Text, if◌then◌else◌}
use linode_blockstorage_csi.Errors.{GoError, plain, err_internal, end, text, cause}
use linode_blockstorage_csi.Effect.{
  Result, ok, err, M, pure, fail, lift, call, ◌>>=◌, ◌>>◌, or_record, record_metrics, recover,
  node_unstage_op, node_unpublish_op, completed_status, failed_status,
}
use linode_blockstorage_csi.Host.{Host}
use linode_blockstorage_csi.Luks.{luks_close}
use linode_blockstorage_csi.Node.{
  validate_node_unstage_volume_request, validate_node_unpublish_volume_request, get_mount_source,
}

module _ {W : Type 0} (host : Host W) where
  -- An error of `m` under another one.
  wrapped : {A : Type 0} → (GoError → GoError) → M W A → M W A
  wrapped wrap m = recover m >>= λ r. lift (elim r [ ok a ↦ ok a | err e ↦ err (wrap e) ])

  unfoldable pub close_luks_mount_source : Text → M W (Unit {0})
  unfolding wrapped
  close_luks_mount_source volume_id = do
    name ←
        wrapped
          (λ e.
            err_internal "closeLuksMountSource failed to get mount source %s: %v"
              (text volume_id (cause e end)))
          (lift (get_mount_source volume_id))
    wrapped
        (λ e.
          err_internal "closeLuksMountSource failed to close luks mount %s: %v"
            (text name (cause e end)))
        (luks_close host name)

  unfoldable pub node_unstage_volume : Text → Text → M W (Unit {0})
  unfolding wrapped close_luks_mount_source
  node_unstage_volume volume_id path = do
    or_record node_unstage_op (lift (validate_node_unstage_volume_request volume_id path))
    or_record node_unstage_op (
        call
          (λ e.
            err_internal "NodeUnstageVolume failed to unmount at path %s: %v"
              (text path (cause e end)))
          (host.mounter.cleanup_mount_point path))
    or_record node_unstage_op (
        wrapped (λ e. plain "closing luks to unstage volume %s: %w" (text volume_id (cause e end)))
          (close_luks_mount_source volume_id))
    record_metrics node_unstage_op completed_status

  unfoldable pub node_unpublish_volume : Text → Text → M W (Unit {0})
  node_unpublish_volume volume_id path = do
    or_record node_unpublish_op (lift (validate_node_unpublish_volume_request volume_id path))
    or_record node_unpublish_op (
        call
          (λ e.
            err_internal "NodeUnpublishVolume could not unmount %s: %v" (text path (cause e end)))
          (host.mounter.cleanup_mount_point path))
    record_metrics node_unpublish_op completed_status
