-- ===== src/Controller/Unpublish.antt =====
-- `ControllerUnpublishVolume`: a volume is detached from an instance.
pub mod Calm
pub mod Laws
pub mod Effects
use linode_blockstorage_csi.Common.{ℤ, ◌==ℤ◌, Text, codes, Option, none, some, if◌then◌else◌}
use linode_blockstorage_csi.Errors.{GoError, err_internal, end, number, cause}
use linode_blockstorage_csi.Effect.{
  Result, ok, err, M, pure, fail, lift, deref, call, tell, ◌>>=◌, ◌>>◌, or_record, record_metrics,
  unpublish_volume_op, completed_status, failed_status,
}
use linode_blockstorage_csi.Volumes.{volume_id_as_int, node_id_as_int}
use linode_blockstorage_csi.Api.{LinodeClient, Volume}
use linode_blockstorage_csi.Controller.{wait_timeout}

module _ {W : Type 0} (client : LinodeClient W) where
  refuse : GoError → M W (Unit {0})
  refuse e = record_metrics unpublish_volume_op failed_status >> fail e

  -- Success with nothing to do, which is counted as a failure.
  skip : M W (Unit {0})
  skip = record_metrics unpublish_volume_op failed_status

  wait_detached : ℤ → M W (Unit {0})
  wait_detached id = do
    or_record unpublish_volume_op (
        call (λ e. err_internal "wait for volume %d to detach: %v" (number id (cause e end)))
          (client.wait_for_volume_linode_id id none wait_timeout))
    record_metrics unpublish_volume_op completed_status

  detached : ℤ → Result (Unit {0}) → M W (Unit {0})
  unfolding refuse skip wait_detached
  detached id (ok _) = wait_detached id
  detached id (err e) =
      if client.is_not_found e
      then skip
      else refuse (err_internal "detach volume %d: %v" (number id (cause e end)))

  detach : ℤ → M W (Unit {0})
  unfolding detached
  detach id = do r ← tell (client.detach_volume id); detached id r

  -- A volume that is attached to another instance is left alone.
  detach_from : ℤ → ℤ → Option ℤ → M W (Unit {0})
  unfolding skip detach
  detach_from id linode_id none = detach id
  detach_from id linode_id (some node) = if node ==ℤ linode_id then detach id else skip

  unpublish_found : ℤ → ℤ → Result (Option Volume) → M W (Unit {0})
  unfolding refuse skip detach_from
  unpublish_found id linode_id (err e) =
      if client.is_not_found e
      then skip
      else refuse (err_internal "get volume %d: %v" (number id (cause e end)))
  unpublish_found id linode_id (ok found) = do
    vol ← deref found
    detach_from id linode_id vol.linode_id

  unfoldable pub controller_unpublish_volume : Text → Text → M W (Unit {0})
  unfolding unpublish_found
  controller_unpublish_volume volume_id node_id = do
    id ←
        or_record unpublish_volume_op
          (lift (volume_id_as_int (codes "ControllerUnpublishVolume") volume_id))
    linode_id ←
        or_record unpublish_volume_op
          (lift (node_id_as_int (codes "ControllerUnpublishVolume") node_id))
    r ← tell (client.get_volume id)
    unpublish_found id linode_id r
