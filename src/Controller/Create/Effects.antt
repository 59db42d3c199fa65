-- ===== src/Controller/Create/Effects.antt =====
-- What `CreateVolume` may do to the volumes.
use linode_blockstorage_csi.Common.{
  ℤ, Text, Dict, Option, none, some, List, [], ◌∷◌, ◌≡◌, refl, ◌∙◌, ◌⊎◌, inl, inr, arith,
}
use linode_blockstorage_csi.Effect.{
  Result, ok, err, done, State, pure, tell, ◌>>=◌, create_volume_op,
}
use linode_blockstorage_csi.Effect.Kept.{
  IsKept, Ends, Ends-map, kept_rules, kept-Ends, kept_then-Ends, then_kept-Ends, or_record-Ends,
  call-Ends, or_record-IsKept, lift-IsKept, call-IsKept, pure-IsKept, fail-IsKept,
}
use linode_blockstorage_csi.Effect.Runs.{or_record-done}
use linode_blockstorage_csi.Api.{LinodeClient, Volume}
use linode_blockstorage_csi.Api.Frame.{ApiFrame, View}
use linode_blockstorage_csi.Common.{get, pos}
use linode_blockstorage_csi.Effect.{
  Outcome, failed, panicked, deref, completed_status, record_metrics, ◌>>◌,
}
use linode_blockstorage_csi.Volumes.{
  LinodeVolumeKey, create_linode_volume_key, get_normalized_label_with_prefix,
}
use linode_blockstorage_csi.Capacity.{get_request_capacity_size}
use linode_blockstorage_csi.Api.{volume_active}
use linode_blockstorage_csi.Csi.{CreateVolumeRequest, CsiVolume}
use linode_blockstorage_csi.Controller.{Server, volume_tags, required_region}
use linode_blockstorage_csi.Controller.Spec.{Allowed, create_request, Creates}
use linode_blockstorage_csi.Controller.Create.{
  encryption_status_for, prepare_volume_params, clone_linode_volume, create_linode_volume,
  use_existing, attempt_create_linode_volume, check_size, waited, poll_timeout,
  create_and_wait_for_volume, create_volume,
}
use linode_blockstorage_csi.Controller.Provision.{
  VolumeParams, validate_create_volume_request, create_volume_context,
  prepare_create_volume_response,
}
use linode_blockstorage_csi.Controller.Create.Kept.{
  prepare_volume_params-IsKept, get_content_source_volume-IsKept, check_size-IsKept, waited-IsKept,
}

module _ {W : Type 0} {client : LinodeClient W} (frame : ApiFrame client) (u : View)
    (label : Text) where
  abbrev MayCreate : View → Type 0
  MayCreate u' = (u' ≡ u) ⊎ Creates label u u'

  use_existing-Ends :
      (t e : Text) (g : ℤ) (k : Option LinodeVolumeKey) (r : Text) (vs : List Volume) (s : State W)
      → frame.view s.world ≡ u
      → Ends frame.view MayCreate (use_existing client label t e g k r vs) s
  unfolding use_existing clone_linode_volume create_linode_volume
  use_existing-Ends t e g none r [] s h =
      call-Ends _ _ s (elim (frame.create_volume_makes _ s.world) [
        | inl same ↦ inl (same ∙ h)
        | inr (id, v, free, loose, named, made) ↦
            inr (id, v, ground (arith, h), loose, named, ground (arith, h))
      ])
  use_existing-Ends t e g (some k) r [] s h =
      call-Ends _ _ s (elim (frame.clone_volume_makes k.volume_id label s.world) [
        | inl same ↦ inl (same ∙ h)
        | inr (id, v, free, loose, named, made) ↦
            inr (id, v, ground (arith, h), loose, named, ground (arith, h))
      ])
  use_existing-Ends t e g none r (v ∷ []) s h = kept-Ends (pure-IsKept _) (inl h)
  use_existing-Ends t e g (some k) r (v ∷ []) s h = kept-Ends (pure-IsKept _) (inl h)
  use_existing-Ends t e g none r (v ∷ x ∷ vs) s h = kept-Ends (fail-IsKept _) (inl h)
  use_existing-Ends t e g (some k) r (v ∷ x ∷ vs) s h = kept-Ends (fail-IsKept _) (inl h)

  attempt-Ends :
      (t e : Text) (g : ℤ) (k : Option LinodeVolumeKey) (r : Text) (s : State W)
      → frame.view s.world ≡ u
      → Ends frame.view MayCreate (attempt_create_linode_volume client label t e g k r) s
  unfolding attempt_create_linode_volume
  attempt-Ends t e g k r s h =
      kept_then-Ends (call-IsKept _ _ (frame.list_volumes_keeps _)) (inl h)
        λ vs s' e' h'. use_existing-Ends t e g k r vs s' (h' ∙ h)

  -- What follows the creation keeps the view.
  wait-IsKept :
      (g : ℤ) (k : Option LinodeVolumeKey) (made : Option Volume)
      → IsKept frame.view {A = Option Volume} (
          deref made >>= λ vol.
          check_size client vol g k
          >> (tell (client.wait_for_volume_status vol.id volume_active (poll_timeout client k))
              >>= λ reply. waited client reply))
  wait-IsKept g k made =
      search
        (
          kept_rules,
          check_size-IsKept frame,
          waited-IsKept frame,
          frame.wait_for_volume_status_keeps,
        )
        depth 12

  create_and_wait-Ends :
      (p : Dict) (e : Text) (g : ℤ) (k : Option LinodeVolumeKey) (r : Text) (s : State W)
      → frame.view s.world ≡ u
      → Ends frame.view MayCreate (create_and_wait_for_volume client label p e g k r) s
  unfolding create_and_wait_for_volume
  create_and_wait-Ends p e g k r s h =
      then_kept-Ends (attempt-Ends (get volume_tags p) e g k r s h) (wait-IsKept g k)

abbrev label_for : Server → CreateVolumeRequest → Text
label_for server req =
    get_normalized_label_with_prefix server.volume_label_prefix
      (create_linode_volume_key (pos 0) req.name)

module _ {W : Type 0} {client : LinodeClient W} (frame : ApiFrame client) where
  prepare_volume_params-done :
      (server : Server) (req : CreateVolumeRequest) (p : VolumeParams) (s s' : State W)
      → prepare_volume_params client server req s ≡ (done p, s')
      → p.volume_name ≡ label_for server req
  unfolding prepare_volume_params
  prepare_volume_params-done server req p s s' e =
      sized (get_request_capacity_size req.capacity_range) refl
    where
      region : Text
      region = required_region server req.accessibility_requirements

      encrypted :
          (size : ℤ) (r : Outcome Text × State W)
          → get_request_capacity_size req.capacity_range ≡ ok size
          → encryption_status_for client req region s ≡ r
          → p.volume_name ≡ label_for server req
      encrypted size (done st, s₁) hs he = ground arith
      encrypted size (failed x, s₁) hs he = absurd (ground arith)
      encrypted size (panicked, s₁) hs he = absurd (ground arith)

      sized :
          (r : Result ℤ)
          → get_request_capacity_size req.capacity_range ≡ r
          → p.volume_name ≡ label_for server req
      sized (ok size) hs = encrypted size (encryption_status_for client req region s) hs refl
      sized (err x) hs = absurd (ground arith)

  answer-IsKept :
      (req : CreateVolumeRequest) (size : ℤ) (source : Option LinodeVolumeKey)
      (made : Option Volume)
      → IsKept frame.view {A = CsiVolume} (
          deref made >>= λ vol.
          record_metrics create_volume_op completed_status
          >> pure (
              prepare_create_volume_response vol size
                (create_volume_context req vol)
                source
                req.content_source))
  answer-IsKept req size source made = search kept_rules depth 9

  -- However it ends, `CreateVolume` makes one volume, with the label that its request leads to and
  -- attached nowhere, or changes nothing.
  pub create_volume-Ends :
      (server : Server) (req : CreateVolumeRequest) (s : State W)
      → Ends frame.view
          (Allowed server (create_request req) (frame.view s.world))
          (create_volume client server req)
          s
  unfolding create_volume
  create_volume-Ends server req s =
      let u = frame.view s.world in
      kept_then-Ends
        (or_record-IsKept create_volume_op (lift-IsKept (validate_create_volume_request req)))
        (inl refl)
        λ a s₁ e₁ k₁.
          kept_then-Ends
            (or_record-IsKept create_volume_op (prepare_volume_params-IsKept frame server req))
            (inl k₁)
            λ p s₂ e₂ k₂.
              kept_then-Ends
                (or_record-IsKept create_volume_op (
                  get_content_source_volume-IsKept frame server req.content_source
                    req.accessibility_requirements))
                (inl (k₂ ∙ k₁))
                λ k s₃ e₃ k₃.
                  let name = prepare_volume_params-done server req p s₁ s₂ (
                    or_record-done create_volume_op (prepare_volume_params client server req) s₁ s₂
                      p e₂) in
                  then_kept-Ends
                    (Ends-map (λ u' may. rw (← name) may)
                      (or_record-Ends create_volume_op (
                        create_and_wait-Ends frame u p.volume_name req.parameters
                          p.encryption_status p.target_size_gb k p.region s₃ (k₃ ∙ k₂ ∙ k₁))))
                    (answer-IsKept req p.size k)
