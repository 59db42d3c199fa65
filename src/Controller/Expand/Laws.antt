-- ===== src/Controller/Expand/Laws.antt =====
-- `ControllerExpandVolume` never shrinks a volume.
use linode_blockstorage_csi.Common.{
  ℤ, ltb_ℤ, ◌≤ℤ◌, ◌<ℤ◌, Text, codes, Option, some, true, false, ◌≡◌, arith,
}
use linode_blockstorage_csi.Errors.{err_resize_down}
use linode_blockstorage_csi.Effect.{ok, done, failed, State}
use linode_blockstorage_csi.Volumes.{volume_id_as_int}
use linode_blockstorage_csi.Capacity.{CapacityRange, get_request_capacity_size, bytes_to_gb}
use linode_blockstorage_csi.Api.{LinodeClient, Volume, volume_active}
use linode_blockstorage_csi.Csi.{ExpandResponse}
use linode_blockstorage_csi.Controller.{wait_timeout}
use linode_blockstorage_csi.Controller.Expand.{controller_expand_volume}

ltb_ℤ_iff : (a b : ℤ) → a <ℤ b → ltb_ℤ a b ≡ true
ltb_ℤ_iff a b h = ground arith

ltb_ℤ_false : (a b : ℤ) → ltb_ℤ a b ≡ false → b ≤ℤ a
ltb_ℤ_false a b h = ground arith

module _ {W : Type 0} (client : LinodeClient W) (s : State W) (volume_id : Text)
    (range : Option CapacityRange) (id size : ℤ) (v : Volume) (w : W)
    (hid : volume_id_as_int (codes "ControllerExpandVolume") volume_id ≡ ok id)
    (hsize : get_request_capacity_size range ≡ ok size)
    (hget : client.get_volume id s.world ≡ (ok (some v), w)) where
  -- A request for fewer gigabytes than the volume has is refused, and the API is not asked to
  -- resize: the world is the one after the lookup.
  pub controller_expand_volume_down :
      bytes_to_gb size <ℤ v.size
      → controller_expand_volume client volume_id range s
        ≡ (failed err_resize_down, record s { world = w })
  unfolding controller_expand_volume
  controller_expand_volume_down h = ground (arith, ltb_ℤ_iff (bytes_to_gb size) v.size h)

  -- A success reports the requested size, which is no smaller than the volume was in gigabytes, and
  -- the world is the one after the resize to that size and the wait for it.
  pub controller_expand_volume_done :
      (r : ExpandResponse) (s' : State W)
      → controller_expand_volume client volume_id range s ≡ (done r, s')
      → (v.size ≤ℤ bytes_to_gb size)
        × (r.capacity_bytes ≡ size)
        × (s'.world
            ≡ (client.wait_for_volume_status v.id volume_active wait_timeout
                (client.resize_volume id (bytes_to_gb size) w).1).1)
  unfolding controller_expand_volume
  controller_expand_volume_done r s' h = ground (arith, ltb_ℤ_false (bytes_to_gb size) v.size)
