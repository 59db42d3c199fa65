-- ===== src/Controller/Publish/Attachments.antt =====
-- When a volume is attached, and what a second request finds.
use linode_blockstorage_csi.Common.{
  ℕ, ◌+◌, ◌<◌, ◌≤◌, ℤ, pos, ◌-ℤ◌, ltb_ℤ, length, some, true, false, List, ◌≡◌, refl, arith,
}
use linode_blockstorage_csi.Errors.{
  GoError, code_of, resource_exhausted, err_max_volume_attachments, err_max_attachments,
}
use linode_blockstorage_csi.Effect.{Result, ok, err, done, failed, State}
use linode_blockstorage_csi.Limits.{max_volume_attachments}
use linode_blockstorage_csi.Api.{LinodeClient, Volume, Instance}
use linode_blockstorage_csi.Controller.Publish.{memory_bytes, full, check_attachment_capacity}

-- The comparison of the driver, with its subtraction that may go below zero, is one of sums.
room_lem : (a m b : ℕ) → ltb_ℤ (pos a) (pos m -ℤ pos b) ≡ true → a + b < m
unfolding ◌-ℤ◌
room_lem a m b h = ground arith

room_intro : (a m b : ℕ) → a + b < m → ltb_ℤ (pos a) (pos m -ℤ pos b) ≡ true
unfolding ◌-ℤ◌
room_intro a m b h = ground arith

no_room_intro : (a m b : ℕ) → m ≤ a + b → ltb_ℤ (pos a) (pos m -ℤ pos b) ≡ false
unfolding ◌-ℤ◌
no_room_intro a m b h = ground arith

module _ {W : Type 0} (client : LinodeClient W) where
  full_exhausted :
      (s : State W) (i : Instance) (mb : ℤ)
      → i.memory ≡ some mb
      → (e : GoError) × ((full client i s).0 ≡ failed e) × (code_of e ≡ resource_exhausted)
  unfolding full
  full_exhausted s i mb hm = at (client.list_instance_disks i.id s.world) refl
    where
      at :
          (r : Result (List ℤ) × W)
          → client.list_instance_disks i.id s.world ≡ r
          → (e : GoError) × ((full client i s).0 ≡ failed e) × (code_of e ≡ resource_exhausted)
      at (ok ds, w) h = (
        err_max_volume_attachments
            (pos (max_volume_attachments (memory_bytes client mb)) -ℤ pos (length ds)),
        ground arith,
        refl,
      )
      at (err x, w) h = (err_max_attachments, ground arith, refl)

  -- Where the API lists the disks and the volumes of an instance, one more volume is let in exactly
  -- if disks and volumes together are fewer than the instance's limit; otherwise the request fails
  -- with RESOURCE_EXHAUSTED.
  pub check_attachment_capacity_iff :
      (s : State W) (i : Instance) (mb : ℤ) (disks : List ℤ) (volumes : List Volume) (w w' : W)
      → i.memory ≡ some mb
      → client.list_instance_disks i.id s.world ≡ (ok disks, w)
      → client.list_instance_volumes i.id w ≡ (ok volumes, w')
      → (length volumes + length disks < max_volume_attachments (memory_bytes client mb)
          → check_attachment_capacity client i s ≡ (done tt, record s { world = w' }))
        × (max_volume_attachments (memory_bytes client mb) ≤ length volumes + length disks
            → (e : GoError) × ((check_attachment_capacity client i s).0 ≡ failed e)
              × (code_of e ≡ resource_exhausted))
  unfolding check_attachment_capacity
  check_attachment_capacity_iff s i mb disks volumes w w' hm hd hv =
      let limit = max_volume_attachments (memory_bytes client mb) in
      let s' : State W = record s { world = w' } in
      (
        λ h. ground (arith, room_intro (length volumes) limit (length disks) h),
        λ h.
            let (e, p, q) = full_exhausted s' i mb hm in
            (e, ground (arith, no_room_intro (length volumes) limit (length disks) h), q),
      )
