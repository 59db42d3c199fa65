-- ===== src/Controller/Publish/Returns.antt =====
-- What is known where the lookups of `ControllerPublishVolume` have returned.
use linode_blockstorage_csi.Common.{
  ℤ, ◌==ℤ◌, ==ℤ_iff, Text, codes, Option, none, some, Bool-cases, Bool, true, false, ◌≡◌, refl, ◌∙◌,
  ap, ◌⊎◌, inl, inr, arith,
}
use linode_blockstorage_csi.Effect.{Result, ok, err, done, State}
use linode_blockstorage_csi.Volumes.{volume_id_as_int, node_id_as_int}
use linode_blockstorage_csi.Api.{LinodeClient, Volume, Instance}
use linode_blockstorage_csi.Api.Frame.{ApiFrame, looked_up, View}
use linode_blockstorage_csi.Csi.{PublishRequest}
use linode_blockstorage_csi.Controller.Publish.{
  check_capability, validate_controller_publish_volume_request, got_instance, get_instance,
  path_if_attached, validate_found, get_and_validate_volume,
}

abbrev volume_number : Text → Result ℤ
volume_number = volume_id_as_int (codes "ControllerPublishVolume")

abbrev node_number : Text → Result ℤ
node_number = node_id_as_int (codes "ControllerPublishVolume")

-- No path is the answer for a volume that is attached nowhere, or to the instance but without one.
module _ {W : Type 0} {client : LinodeClient W} (frame : ApiFrame client) (u : View) (id : ℤ)
    (i : Instance) where
  abbrev pub IsFree : Type 0
  IsFree = (v : Volume) × (u id ≡ some v) × ((v.linode_id ≡ none) ⊎ (v.linode_id ≡ some i.id))

  path_if_attached-done :
      (v : Volume) (path : Text) (s s' : State W)
      → path_if_attached client id v i s ≡ (done path, s')
      → (v.linode_id ≡ none) ⊎ (v.linode_id ≡ some i.id)
  unfolding path_if_attached
  path_if_attached-done v path s s' e = at v.linode_id refl
    where
      at : (n : Option ℤ) → v.linode_id ≡ n → (v.linode_id ≡ none) ⊎ (v.linode_id ≡ some i.id)
      at none h = inl h
      at (some n) h = elim (Bool-cases (n ==ℤ i.id)) [
        | inl h' ↦ inr (h ∙ ap some ((==ℤ_iff n i.id).0 h'))
        | inr h' ↦ absurd (ground arith)
      ]

  validate_found-done :
      (r : Result (Option Volume)) (path : Text) (s s' : State W)
      → ((v : Volume) → r ≡ ok (some v) → u id ≡ some v)
      → validate_found client id i r s ≡ (done path, s')
      → IsFree
  unfolding validate_found
  validate_found-done (ok none) path s s' sound e = absurd (ground arith)
  validate_found-done (ok (some v)) path s s' sound e =
      (v, sound v refl, path_if_attached-done v path s s' e)
  validate_found-done (err x) path s s' sound e = absurd (ground arith)

  pub get_and_validate_volume-done :
      (path : Text) (s s' : State W)
      → frame.view s.world ≡ u
      → get_and_validate_volume client id i s ≡ (done path, s')
      → IsFree
  unfolding get_and_validate_volume
  get_and_validate_volume-done path s s' k e =
      let r = (client.get_volume id s.world).0 in
      let w = (client.get_volume id s.world).1 in
      validate_found-done r path (record s { world = w }) s'
        (λ v h. looked_up frame id s (record s { world = w }) v k refl h) e

abbrev pub IdAndNode : PublishRequest → (ℤ × ℤ) → Type 0
IdAndNode req (node, id) =
    (volume_number req.volume_id ≡ ok id) × (node_number req.node_id ≡ ok node)

pub validate-done :
    {W : Type 0} (client : LinodeClient W) (req : PublishRequest) (s s' : State W) (a : ℤ × ℤ)
    → validate_controller_publish_volume_request client req s ≡ (done a, s')
    → IdAndNode req a
unfolding validate_controller_publish_volume_request
validate-done client req s s' a e =
    at (node_number req.node_id) refl (volume_number req.volume_id) refl
  where
    checked :
        (n v : ℤ)
        → node_number req.node_id ≡ ok n
        → volume_number req.volume_id ≡ ok v
        → (c : Result (Unit {0})) → check_capability req.volume_capability ≡ c
        → IdAndNode req a
    checked n v hn hv (ok u) hc = ground arith
    checked n v hn hv (err x) hc = absurd (ground arith)

    at :
        (n : Result ℤ)
        → node_number req.node_id ≡ n
        → (v : Result ℤ) → volume_number req.volume_id ≡ v
        → IdAndNode req a
    at (ok n) hn (ok v) hv = checked n v hn hv (check_capability req.volume_capability) refl
    at (ok n) hn (err x) hv = absurd (ground arith)
    at (err x) hn v hv = absurd (ground arith)

module _ {W : Type 0} {client : LinodeClient W} (frame : ApiFrame client) where
  got_instance-done :
      (id : ℤ) (r : Result (Option Instance)) (o : Option Instance) (s s' : State W)
      → got_instance client id r s ≡ (done o, s')
      → r ≡ ok o
  unfolding got_instance
  got_instance-done id (ok p) o s s' e = ground arith
  got_instance-done id (err x) o s s' e = absurd (at (client.is_not_found x) refl)
    where
      at : (b : Bool) → client.is_not_found x ≡ b → ⊥
      at true h = ground arith
      at false h = ground arith

  pub get_instance-done :
      (id : ℤ) (i : Instance) (s s' : State W)
      → get_instance client id s ≡ (done (some i), s')
      → i.id ≡ id
  unfolding get_instance
  get_instance-done id i s s' e =
      let r = client.get_instance id s.world in
      frame.get_instance_sound id s.world r.1 i
        (ap (λ o. (o, r.1)) (got_instance-done id r.0 (some i) (record s { world = r.1 }) s' e))
