-- ===== src/Controller/Delete.antt =====
-- `DeleteVolume`.
pub mod Calm
pub mod Laws
pub mod Effects
use linode_blockstorage_csi.Common.{ℤ, Text, codes, Option, none, some, if◌then◌else◌}
use linode_blockstorage_csi.Errors.{GoError, err_internal, err_volume_in_use, end, number, cause}
use linode_blockstorage_csi.Effect.{
  Result, ok, err, M, pure, fail, lift, deref, call, tell, ◌>>=◌, ◌>>◌, or_record, record_metrics,
  delete_volume_op, completed_status, failed_status,
}
use linode_blockstorage_csi.Volumes.{volume_id_as_int}
use linode_blockstorage_csi.Api.{LinodeClient, Volume}

module _ {W : Type 0} (client : LinodeClient W) where
  refuse : GoError → M W (Unit {0})
  refuse e = record_metrics delete_volume_op failed_status >> fail e

  remove : ℤ → M W (Unit {0})
  remove id = do
    or_record delete_volume_op (
        call (λ e. err_internal "delete volume %d: %v" (number id (cause e end)))
          (client.delete_volume id))
    record_metrics delete_volume_op completed_status

  -- A volume that is attached is not deleted.
  delete_unattached : ℤ → Option ℤ → M W (Unit {0})
  unfolding refuse remove
  delete_unattached id (some node) = refuse err_volume_in_use
  delete_unattached id none = remove id

  -- A volume that is not there counts as deleted.
  delete_found : ℤ → Result (Option Volume) → M W (Unit {0})
  unfolding refuse delete_unattached
  delete_found id (err e) =
      if client.is_not_found e
      then record_metrics delete_volume_op failed_status
      else refuse (err_internal "get volume %d: %v" (number id (cause e end)))
  delete_found id (ok found) = do vol ← deref found; delete_unattached id vol.linode_id

  unfoldable pub delete_volume : Text → M W (Unit {0})
  unfolding delete_found
  delete_volume volume_id = do
    id ← or_record delete_volume_op (lift (volume_id_as_int (codes "DeleteVolume") volume_id))
    found ← tell (client.get_volume id)
    delete_found id found
