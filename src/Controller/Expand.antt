-- ===== src/Controller/Expand.antt =====
-- `ControllerExpandVolume`: a volume is made larger.
pub mod Calm
pub mod Laws
pub mod Effects
use linode_blockstorage_csi.Common.{ℤ, ltb_ℤ, Text, codes, Option, none, some, false, if◌then◌else◌}
use linode_blockstorage_csi.Errors.{GoError, err_internal, err_resize_down, end, number, cause}
use linode_blockstorage_csi.Effect.{
  Result, ok, err, M, pure, fail, lift, deref, call, tell, ◌>>=◌, ◌>>◌,
}
use linode_blockstorage_csi.Volumes.{volume_id_as_int}
use linode_blockstorage_csi.Capacity.{CapacityRange, get_request_capacity_size, bytes_to_gb}
use linode_blockstorage_csi.Api.{LinodeClient, Volume, WaitReply, volume_active}
use linode_blockstorage_csi.Csi.{ExpandResponse}
use linode_blockstorage_csi.Controller.{wait_timeout}

requested_size : Option CapacityRange → Result ℤ
requested_size range = elim (get_request_capacity_size range) [
  | ok size ↦ ok size
  | err e ↦ err (err_internal "get requested size from capacity range: %v" (cause e end))
]

module _ {W : Type 0} (client : LinodeClient W) where
  waited : ℤ → WaitReply → M W (Unit {0})
  waited id (vol, none) = pure tt
  waited id (vol, some e) = fail (
      err_internal "timed out waiting for volume %d to become active: %v" (number id (cause e end)))

  -- The volume is resized only if it does not shrink.
  resize : ℤ → ℤ → Volume → M W ExpandResponse
  unfolding waited
  resize id size vol = if ltb_ℤ (bytes_to_gb size) vol.size then fail err_resize_down else (do
    call (λ e. err_internal "resize volume %d: %v" (number id (cause e end)))
        (client.resize_volume id (bytes_to_gb size))
    reply ← tell (client.wait_for_volume_status vol.id volume_active wait_timeout)
    waited id reply
    pure (record { capacity_bytes = size; node_expansion_required = false }))

  unfoldable pub controller_expand_volume : Text → Option CapacityRange → M W ExpandResponse
  unfolding requested_size resize
  controller_expand_volume volume_id range = do
    id ← lift (volume_id_as_int (codes "ControllerExpandVolume") volume_id)
    size ← lift (requested_size range)
    found ← call (λ e. err_internal "get volume: %v" (cause e end)) (client.get_volume id)
    vol ← deref found
    resize id size vol
