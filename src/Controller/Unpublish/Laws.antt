-- ===== src/Controller/Unpublish/Laws.antt =====
-- What `ControllerUnpublishVolume` does on its branches.
use linode_blockstorage_csi.Common.{
  ℤ, ◌==ℤ◌, ==ℤ_iff, Text, codes, Option, none, some, Bool-cases, ◌≡◌, ◌≢◌, ◌∷◌, inl, inr, arith,
}
use linode_blockstorage_csi.Errors.{GoError}
use linode_blockstorage_csi.Effect.{
  Result, ok, err, done, State, unpublish_volume_op, completed_status, failed_status,
}
use linode_blockstorage_csi.Effect.Samples.{RecordsOne, sample_rules}
use linode_blockstorage_csi.Volumes.{volume_id_as_int, node_id_as_int}
use linode_blockstorage_csi.Api.{LinodeClient, Volume}
use linode_blockstorage_csi.Api.Laws.{ApiLaws}
use linode_blockstorage_csi.Controller.{wait_timeout}
use linode_blockstorage_csi.Controller.Unpublish.{
  refuse, skip, wait_detached, detached, detach, detach_from, unpublish_found,
  controller_unpublish_volume,
}

module _ {W : Type 0} (client : LinodeClient W) where
  refuse-RecordsOne : (e : GoError) → RecordsOne unpublish_volume_op (refuse client e)
  unfolding refuse
  refuse-RecordsOne e = search sample_rules

  skip-RecordsOne : RecordsOne unpublish_volume_op (skip client)
  unfolding skip
  skip-RecordsOne = search sample_rules

  wait_detached-RecordsOne : (id : ℤ) → RecordsOne unpublish_volume_op (wait_detached client id)
  unfolding wait_detached
  wait_detached-RecordsOne id = search sample_rules

  detached-RecordsOne :
      (id : ℤ) (r : Result (Unit {0})) → RecordsOne unpublish_volume_op (detached client id r)
  unfolding detached
  detached-RecordsOne id (ok u) = wait_detached-RecordsOne id
  detached-RecordsOne id (err e) = elim (Bool-cases (client.is_not_found e)) [
    | inl h ↦ rw h skip-RecordsOne
    | inr h ↦ rw h (refuse-RecordsOne _)
  ]

  detach-RecordsOne : (id : ℤ) → RecordsOne unpublish_volume_op (detach client id)
  unfolding detach
  detach-RecordsOne id = search (sample_rules, detached-RecordsOne)

  detach_from-RecordsOne :
      (id n : ℤ) (o : Option ℤ) → RecordsOne unpublish_volume_op (detach_from client id n o)
  unfolding detach_from
  detach_from-RecordsOne id n none = detach-RecordsOne id
  detach_from-RecordsOne id n (some m) = elim (Bool-cases (m ==ℤ n)) [
    | inl h ↦ rw h (detach-RecordsOne id)
    | inr h ↦ rw h skip-RecordsOne
  ]

  unpublish_found-RecordsOne :
      (id n : ℤ) (r : Result (Option Volume))
      → RecordsOne unpublish_volume_op (unpublish_found client id n r)
  unfolding unpublish_found
  unpublish_found-RecordsOne id n (ok o) = search (sample_rules, detach_from-RecordsOne)
  unpublish_found-RecordsOne id n (err e) = elim (Bool-cases (client.is_not_found e)) [
    | inl h ↦ rw h skip-RecordsOne
    | inr h ↦ rw h (refuse-RecordsOne _)
  ]

  -- Unless it panics, `ControllerUnpublishVolume` records one sample, for its own operation, as
  -- completed or as failed.
  pub controller_unpublish_volume-RecordsOne :
      (v n : Text) → RecordsOne unpublish_volume_op (controller_unpublish_volume client v n)
  unfolding controller_unpublish_volume
  controller_unpublish_volume-RecordsOne v n = search (sample_rules, unpublish_found-RecordsOne)

  -- A volume that is attached to another instance is left alone: the request succeeds, the world is
  -- the one after the lookup, and a failed sample is recorded.
  pub controller_unpublish_volume_elsewhere :
      (s : State W) (volume_id node_id : Text) (id node other : ℤ) (v : Volume) (w : W)
      → volume_id_as_int (codes "ControllerUnpublishVolume") volume_id ≡ ok id
      → node_id_as_int (codes "ControllerUnpublishVolume") node_id ≡ ok node
      → client.get_volume id s.world ≡ (ok (some v), w)
      → v.linode_id ≡ some other
      → other ≢ node
      → controller_unpublish_volume client volume_id node_id s ≡ (
        done tt,
        record { world = w; samples = (unpublish_volume_op, failed_status) ∷ s.samples },
      )
  unfolding controller_unpublish_volume
  controller_unpublish_volume_elsewhere s volume_id node_id id node other v w hid hnode hget hv ne =
      ground (arith, ==ℤ_iff other node)

  unpublish_here :
      (s : State W) (volume_id node_id : Text) (id node : ℤ) (v v' : Volume) (w w' w'' : W)
      → volume_id_as_int (codes "ControllerUnpublishVolume") volume_id ≡ ok id
      → node_id_as_int (codes "ControllerUnpublishVolume") node_id ≡ ok node
      → client.get_volume id s.world ≡ (ok (some v), w)
      → v.linode_id ≡ some node
      → client.detach_volume id w ≡ (ok tt, w')
      → client.wait_for_volume_linode_id id none wait_timeout w' ≡ (ok (some v'), w'')
      → controller_unpublish_volume client volume_id node_id s ≡ (
        done tt,
        record { world = w''; samples = (unpublish_volume_op, completed_status) ∷ s.samples },
      )
  unfolding controller_unpublish_volume
  unpublish_here s volume_id node_id id node v v' w w' w'' hid hnode hget hv hdet hwait =
      ground (arith, ==ℤ_iff node node)

module _ {W : Type 0} {client : LinodeClient W} (laws : ApiLaws client) (volume_id node_id : Text)
    (id node : ℤ) (hid : volume_id_as_int (codes "ControllerUnpublishVolume") volume_id ≡ ok id)
    (hnode : node_id_as_int (codes "ControllerUnpublishVolume") node_id ≡ ok node) where
  -- Unpublishing a known volume from the instance that it is attached to succeeds and leaves it
  -- attached to none and otherwise as it was.
  pub controller_unpublish_volume_here :
      (s : State W) (v : Volume)
      → laws.view s.world id ≡ some v
      → v.linode_id ≡ some node
      → (s' : State W) × (controller_unpublish_volume client volume_id node_id s ≡ (done tt, s'))
        × (laws.view s'.world id ≡ some (record v { linode_id = none }))
  controller_unpublish_volume_here s v hv here =
      let (w, detached, now) = laws.detach_known id node s.world v hv here in
      (
        record { world = w; samples = (unpublish_volume_op, completed_status) ∷ s.samples },
        unpublish_here client s volume_id node_id id node v (record v { linode_id = none }) s.world
            w w hid hnode (laws.get_known id s.world v hv) here detached
            (laws.wait_known id wait_timeout w (record v { linode_id = none }) now),
        now,
      )
