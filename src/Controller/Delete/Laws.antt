-- ===== src/Controller/Delete/Laws.antt =====
-- What `DeleteVolume` does on its branches.
use linode_blockstorage_csi.Common.{
  ℤ, Text, codes, Option, none, some, Bool-cases, true, ◌≡◌, refl, ◌∷◌, inl, inr, arith,
}
use linode_blockstorage_csi.Errors.{GoError, err_volume_in_use}
use linode_blockstorage_csi.Effect.{
  Result, ok, err, done, failed, State, delete_volume_op, completed_status, failed_status,
}
use linode_blockstorage_csi.Effect.Samples.{RecordsOne, sample_rules}
use linode_blockstorage_csi.Volumes.{volume_id_as_int}
use linode_blockstorage_csi.Api.{LinodeClient, Volume}
use linode_blockstorage_csi.Api.Laws.{ApiLaws}
use linode_blockstorage_csi.Controller.Delete.{
  refuse, remove, delete_unattached, delete_found, delete_volume,
}

module _ {W : Type 0} (client : LinodeClient W) where
  remove-RecordsOne : (id : ℤ) → RecordsOne delete_volume_op (remove client id)
  unfolding remove
  remove-RecordsOne id = search sample_rules

  refuse-RecordsOne : (e : GoError) → RecordsOne delete_volume_op (refuse client e)
  unfolding refuse
  refuse-RecordsOne e = search sample_rules

  delete_unattached-RecordsOne :
      (id : ℤ) (n : Option ℤ) → RecordsOne delete_volume_op (delete_unattached client id n)
  unfolding delete_unattached
  delete_unattached-RecordsOne id none = search (sample_rules, remove-RecordsOne)
  delete_unattached-RecordsOne id (some n) = search (sample_rules, refuse-RecordsOne)

  delete_found-RecordsOne :
      (id : ℤ) (r : Result (Option Volume)) → RecordsOne delete_volume_op (delete_found client id r)
  unfolding delete_found
  delete_found-RecordsOne id (ok o) = search (sample_rules, delete_unattached-RecordsOne)
  delete_found-RecordsOne id (err e) = elim (Bool-cases (client.is_not_found e)) [
    | inl h ↦ rw h (search sample_rules)
    | inr h ↦ rw h (search (sample_rules, refuse-RecordsOne))
  ]

  -- Unless it panics, `DeleteVolume` records one sample, for its own operation, as
  -- completed or as failed.
  pub delete_volume-RecordsOne : (id : Text) → RecordsOne delete_volume_op (delete_volume client id)
  unfolding delete_volume
  delete_volume-RecordsOne id = search (sample_rules, delete_found-RecordsOne)

  -- A volume that the API reports as attached is not deleted: the request fails with the error for
  -- a volume in use, the world is the one after the lookup, and a failed sample is recorded.
  pub delete_volume_attached :
      (s : State W) (volume_id : Text) (id node : ℤ) (v : Volume) (w : W)
      → volume_id_as_int (codes "DeleteVolume") volume_id ≡ ok id
      → client.get_volume id s.world ≡ (ok (some v), w)
      → v.linode_id ≡ some node
      → delete_volume client volume_id s ≡ (
        failed err_volume_in_use,
        record { world = w; samples = (delete_volume_op, failed_status) ∷ s.samples },
      )
  unfolding delete_volume
  delete_volume_attached s volume_id id node v w hid hget hnode = rw (hid, hget, hnode) refl

  -- The two ways to succeed.
  delete_volume_known :
      (s : State W) (volume_id : Text) (id : ℤ) (v : Volume) (w w' : W)
      → volume_id_as_int (codes "DeleteVolume") volume_id ≡ ok id
      → client.get_volume id s.world ≡ (ok (some v), w)
      → v.linode_id ≡ none
      → client.delete_volume id w ≡ (ok tt, w')
      → delete_volume client volume_id s ≡ (
        done tt,
        record { world = w'; samples = (delete_volume_op, completed_status) ∷ s.samples },
      )
  unfolding delete_volume
  delete_volume_known s volume_id id v w w' hid hget hn hdel = ground arith

  delete_volume_missing :
      (s : State W) (volume_id : Text) (id : ℤ) (e : GoError) (w : W)
      → volume_id_as_int (codes "DeleteVolume") volume_id ≡ ok id
      → client.get_volume id s.world ≡ (err e, w)
      → client.is_not_found e ≡ true
      → delete_volume client volume_id s
        ≡ (done tt, record { world = w; samples = (delete_volume_op, failed_status) ∷ s.samples })
  unfolding delete_volume
  delete_volume_missing s volume_id id e w hid hget h404 = ground arith

-- The same call of `DeleteVolume` twice, in a world that obeys the API's laws.
module _ {W : Type 0} {client : LinodeClient W} (laws : ApiLaws client) where
  -- Deleting a known volume that is not attached succeeds and removes it, and deleting it once more
  -- succeeds and leaves the world as it is.
  pub delete_volume_twice :
      (s : State W) (volume_id : Text) (id : ℤ) (v : Volume)
      → volume_id_as_int (codes "DeleteVolume") volume_id ≡ ok id
      → laws.view s.world id ≡ some v
      → v.linode_id ≡ none
      → let (o, s') = delete_volume client volume_id s in
        let (o', s'') = delete_volume client volume_id s' in
        (o ≡ done tt) × (laws.view s'.world id ≡ none) × (o' ≡ done tt) × (s''.world ≡ s'.world)
  delete_volume_twice s volume_id id v hid hv hn =
      let (w, deleted, gone) = laws.delete_known id s.world v hv hn in
      let (e, missing, is404) = laws.get_missing id w gone in
      rw
        (
          delete_volume_known client s volume_id id v s.world w hid (laws.get_known id s.world v hv)
              hn deleted,
          delete_volume_missing client
              (record { world = w; samples = (delete_volume_op, completed_status) ∷ s.samples })
              volume_id id e w hid missing is404,
        )
        (refl, gone, refl, refl)
