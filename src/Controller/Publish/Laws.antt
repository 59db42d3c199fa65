-- ===== src/Controller/Publish/Laws.antt =====
-- The life of an attachment: a free volume is attached, a second request for the same instance
-- finds it, one for another instance is refused.
use linode_blockstorage_csi.Common.{
  ℕ, ◌+◌, ◌<◌, ◌≤◌, ℤ, ==ℤ_iff, length, Option, none, some, false, List, [], ◌∷◌, ◌≡◌, ◌≢◌, refl,
  arith, ◌∙◌,
}
use linode_blockstorage_csi.Errors.{err_volume_attached}
use linode_blockstorage_csi.Effect.{
  ok, done, failed, State, publish_volume_op, completed_status, failed_status,
}
use linode_blockstorage_csi.Limits.{max_volume_attachments}
use linode_blockstorage_csi.Api.{LinodeClient, Volume, Instance}
use linode_blockstorage_csi.Api.Laws.{ApiLaws}
use linode_blockstorage_csi.Csi.{PublishRequest}
use linode_blockstorage_csi.Controller.{wait_timeout}
use linode_blockstorage_csi.Controller.Publish.Attachments.{check_attachment_capacity_iff}
use linode_blockstorage_csi.Controller.Publish.{
  validate_controller_publish_volume_request, memory_bytes, check_attachment_capacity, context_of,
  controller_publish_volume,
}

module _ {W : Type 0} (client : LinodeClient W) (s : State W) (req : PublishRequest) (node id : ℤ)
    (i : Instance) (v : Volume) (w w' : W)
    (valid : (s : State W)
      → validate_controller_publish_volume_request client req s ≡ (done (node, id), s))
    (hi : client.get_instance node s.world ≡ (ok (some i), w))
    (hv : client.get_volume id w ≡ (ok (some v), w')) where
  -- A volume that is attached to another instance is not attached again: the request fails with
  -- ALREADY_EXISTS, and the world is the one after the two lookups.
  pub controller_publish_volume_elsewhere :
      (other : ℤ)
      → v.linode_id ≡ some other
      → other ≢ i.id
      → controller_publish_volume client req s ≡ (
        failed (err_volume_attached id i.id),
        record { world = w'; samples = (publish_volume_op, failed_status) ∷ s.samples },
      )
  unfolding controller_publish_volume
  controller_publish_volume_elsewhere other hn ne = ground (arith, valid s, ==ℤ_iff other i.id)

  publish_attached :
      v.linode_id ≡ some i.id
      → v.filesystem_path ≢ []
      → controller_publish_volume client req s ≡ (
        done (context_of client v.filesystem_path),
        record { world = w'; samples = (publish_volume_op, failed_status) ∷ s.samples },
      )
  unfolding controller_publish_volume
  publish_attached hn path = ground (arith, valid s, ==ℤ_iff i.id i.id)

  publish_free :
      (v' : Volume) (n : ℤ) (w₂ w₃ w₄ : W) (x : Option Volume)
      → v.linode_id ≡ none
      → check_attachment_capacity client i (record s { world = w' })
        ≡ (done tt, record s { world = w₂ })
      → client.attach_volume id node false w₂ ≡ (ok x, w₃)
      → client.wait_for_volume_linode_id id (some node) wait_timeout w₃ ≡ (ok (some v'), w₄)
      → v'.linode_id ≡ some n
      → controller_publish_volume client req s ≡ (
        done (context_of client v'.filesystem_path),
        record { world = w₄; samples = (publish_volume_op, completed_status) ∷ s.samples },
      )
  unfolding controller_publish_volume
  publish_free v' n w₂ w₃ w₄ x hn room attached waited hn' = ground (arith, valid s)

-- A world that obeys the API's laws.
module _ {W : Type 0} {client : LinodeClient W} (laws : ApiLaws client) (s : State W)
    (req : PublishRequest) (id : ℤ) (i : Instance) (v : Volume) (mb : ℤ) (disks : List ℤ)
    (volumes : List Volume)
    (valid : (s : State W)
      → validate_controller_publish_volume_request client req s ≡ (done (i.id, id), s))
    (hi : laws.instance_view s.world i.id ≡ some i) (hv : laws.view s.world id ≡ some v)
    (hm : i.memory ≡ some mb) (hd : client.list_instance_disks i.id s.world ≡ (ok disks, s.world))
    (hl : client.list_instance_volumes i.id s.world ≡ (ok volumes, s.world))
    (near : v.region ≡ i.region)
    (limited : max_volume_attachments (memory_bytes client mb) ≤ laws.attachment_limit i) where
  within :
      (n : ℕ) → n < max_volume_attachments (memory_bytes client mb) → n < laws.attachment_limit i
  within n h = omega arith

  -- A known volume that is attached nowhere and has a device path, and a valid request for a known
  -- instance of the volume's region, whose memory is known, whose disks and volumes are listed and
  -- fewer than the driver's limit, which is no more than the API's: publishing succeeds and attaches
  -- the volume to that instance; publishing it once more gives the same context and leaves the world
  -- as it is.
  pub controller_publish_volume_twice :
      v.linode_id ≡ none
      → v.filesystem_path ≢ []
      → length volumes + length disks < max_volume_attachments (memory_bytes client mb)
      → let (o, s') = controller_publish_volume client req s in
        let (o', s'') = controller_publish_volume client req s' in
        (o ≡ done (context_of client v.filesystem_path))
        × (laws.view s'.world id ≡ some (record v { linode_id = some i.id }))
        × (o' ≡ o)
        × (s''.world ≡ s'.world)
  controller_publish_volume_twice hn path room =
      let (w, attached, now, same) =
        laws.attach_known id i.id s.world v i disks volumes hv hn hi near hd hl
          (within (length volumes + length disks) room) in
      let v' : Volume = record v { linode_id = some i.id } in
      let s' : State W = record {
        world = w;
        samples = (publish_volume_op, completed_status) ∷ s.samples;
      } in
      let fits =
        (check_attachment_capacity_iff client s i mb disks volumes s.world s.world hm hd hl).0
          room in
      rw
        (
          publish_free client s req i.id id i v s.world s.world valid
              (laws.get_instance_known i.id s.world i hi) (laws.get_known id s.world v hv) v' i.id
              s.world w w (some v') hn fits attached (laws.wait_known id wait_timeout w v' now)
              refl,
          publish_attached client s' req i.id id i v' w w valid
              (laws.get_instance_known i.id w i (same i.id ∙ hi)) (laws.get_known id w v' now) refl
              path,
        )
        (refl, now, refl, refl)
