-- ===== src/Controller/Create/Calm.antt =====
-- When `CreateVolume` panics: only where a wait for a volume's status returns no volume.
use linode_blockstorage_csi.Common.{
  ℤ, pos, ◌==ℤ◌, Text, get, text_eq, Option, none, some, List, [], ◌∷◌, Bool, true, false,
  Bool-cases, ◌≡◌, refl, ◌∙◌, ap, inl, inr, arith,
}
use linode_blockstorage_csi.Errors.{err_internal, text, cause, end}
use linode_blockstorage_csi.Effect.{ok, done, State, M, call}
use linode_blockstorage_csi.Effect.Panics.{
  PanicsIf, calm_rules, >>=-PanicsIf, call_then-PanicsIf, deref-PanicsIf, pure-PanicsIf,
  fail-PanicsIf,
}
use linode_blockstorage_csi.Effect.Runs.{call-done, >>=-done}
use linode_blockstorage_csi.Volumes.{LinodeVolumeKey}
use linode_blockstorage_csi.Luks.{true_text}
use linode_blockstorage_csi.Api.{LinodeClient, Volume, WaitReply, volume_active}
use linode_blockstorage_csi.Api.Replies.{ApiReplies}
use linode_blockstorage_csi.Csi.{CreateVolumeRequest, ContentSource, TopologyRequirement}
use linode_blockstorage_csi.Controller.{Server, volume_encryption}
use linode_blockstorage_csi.Controller.Provision.{has_encryption}
use linode_blockstorage_csi.Controller.Create.{
  is_encryption_supported, status_if, encryption_status_for, prepare_volume_params,
  get_content_source_volume, clone_linode_volume, create_linode_volume, use_existing,
  attempt_create_linode_volume, check_size, waited,
}

-- A wait for a volume to be active that returns no volume.
abbrev pub IsNilWait : {W : Type 0} → LinodeClient W → Type 0
IsNilWait {W} client =
    (id : ℤ) × (timeout : ℤ) × (w : W) × ((client.wait_for_volume_status id volume_active timeout
        w).0.0
      ≡ none)

module _ {W : Type 0} {client : LinodeClient W} (replies : ApiReplies client) (E : Type 0) where
  is_encryption_supported-PanicsIf :
      (region : Text) → PanicsIf E (is_encryption_supported client region)
  unfolding is_encryption_supported
  is_encryption_supported-PanicsIf region =
      call_then-PanicsIf
        (λ e. err_internal "failed to fetch region %s: %v" (text region (cause e end)))
        (client.get_region_capabilities region)
        (λ details w e.
          >>=-PanicsIf
            (deref-PanicsIf details (λ k. absurd (replies.get_region_given region w (e ∙ ap ok k))))
            (λ capabilities. pure-PanicsIf (has_encryption capabilities)))

  status_if-PanicsIf : (region : Text) (b : Bool) → PanicsIf E (status_if client region b)
  unfolding status_if
  status_if-PanicsIf region true = search calm_rules
  status_if-PanicsIf region false = search calm_rules

  encryption_status_for-PanicsIf :
      (req : CreateVolumeRequest) (region : Text)
      → PanicsIf E (encryption_status_for client req region)
  unfolding encryption_status_for
  encryption_status_for-PanicsIf req region =
      elim (Bool-cases (text_eq (get volume_encryption req.parameters) true_text)) [
        | inl k ↦ rw k (search (calm_rules, is_encryption_supported-PanicsIf, status_if-PanicsIf))
        | inr k ↦ rw k (search calm_rules)
      ]

  pub prepare_volume_params-PanicsIf :
      (server : Server) (req : CreateVolumeRequest)
      → PanicsIf E (prepare_volume_params client server req)
  unfolding prepare_volume_params
  prepare_volume_params-PanicsIf server req = search (calm_rules, encryption_status_for-PanicsIf)

  pub get_content_source_volume-PanicsIf :
      (server : Server) (o : Option ContentSource) (t : Option TopologyRequirement)
      → PanicsIf E (get_content_source_volume client server o t)
  unfolding get_content_source_volume
  get_content_source_volume-PanicsIf server none t = search calm_rules
  get_content_source_volume-PanicsIf server (some source) t = search calm_rules

  module _ (label tags encryption : Text) (size : ℤ) (region : Text) where
    use_existing-PanicsIf :
        (source : Option LinodeVolumeKey) (vs : List Volume)
        → PanicsIf E (use_existing client label tags encryption size source region vs)
    unfolding use_existing clone_linode_volume create_linode_volume
    use_existing-PanicsIf (some key) [] = search calm_rules
    use_existing-PanicsIf none [] = search calm_rules
    use_existing-PanicsIf (some key) (v ∷ []) = search calm_rules
    use_existing-PanicsIf none (v ∷ []) = search calm_rules
    use_existing-PanicsIf (some key) (v ∷ w ∷ vs) = search calm_rules
    use_existing-PanicsIf none (v ∷ w ∷ vs) = search calm_rules

    pub attempt-PanicsIf :
        (source : Option LinodeVolumeKey)
        → PanicsIf E (attempt_create_linode_volume client label tags encryption size source region)
    unfolding attempt_create_linode_volume
    attempt-PanicsIf source = search (calm_rules, use_existing-PanicsIf)

    -- A volume that is made or found is there.
    use_existing-given :
        (source : Option LinodeVolumeKey) (vs : List Volume) (s s' : State W) (o : Option Volume)
        → use_existing client label tags encryption size source region vs s ≡ (done o, s')
        → o ≡ none
        → E
    unfolding use_existing clone_linode_volume create_linode_volume
    use_existing-given (some key) [] s s' o e k = absurd (
        replies.clone_volume_given key.volume_id label s.world (
          ap (λ r. r.0) (call-done _ (client.clone_volume key.volume_id label) s s' o e) ∙ ap ok k))
    use_existing-given none [] s s' o e k = absurd (
        replies.create_volume_given _ s.world
          (ap (λ r. r.0) (call-done _ (client.create_volume _) s s' o e) ∙ ap ok k))
    use_existing-given (some key) (v ∷ []) s s' o e k = absurd (ground arith)
    use_existing-given none (v ∷ []) s s' o e k = absurd (ground arith)
    use_existing-given (some key) (v ∷ w ∷ vs) s s' o e k = absurd (ground arith)
    use_existing-given none (v ∷ w ∷ vs) s s' o e k = absurd (ground arith)

    pub attempt-given :
        (source : Option LinodeVolumeKey) (s s' : State W) (o : Option Volume)
        → attempt_create_linode_volume client label tags encryption size source region s
          ≡ (done o, s')
        → o ≡ none
        → E
    unfolding attempt_create_linode_volume
    attempt-given source s s' o e k =
        let listing : M W (List Volume) =
          call (λ e. err_internal "list volumes: %v" (cause e end))
            (client.list_volumes
              (record { page = pos 0; page_size = pos 0; label_filter = some label })) in
        let (vs, t, _, h) =
          >>=-done listing (use_existing client label tags encryption size source region) s s' o
            e in
        use_existing-given source vs t s' o h k

  pub check_size-PanicsIf :
      (v : Volume) (size : ℤ) (source : Option LinodeVolumeKey)
      → PanicsIf E (check_size client v size source)
  unfolding check_size
  check_size-PanicsIf v size (some key) = search calm_rules
  check_size-PanicsIf v size none = elim (Bool-cases (v.size ==ℤ size)) [
    | inl k ↦ rw k (search calm_rules)
    | inr k ↦ rw k (search calm_rules)
  ]

  pub waited-PanicsIf : (r : WaitReply) → (r.0 ≡ none → E) → PanicsIf E (waited client r)
  unfolding waited
  waited-PanicsIf (vol, none) h = search calm_rules
  waited-PanicsIf (vol, some e) h = >>=-PanicsIf (deref-PanicsIf vol h) (λ v. fail-PanicsIf _)

  pub waited-given :
      (r : WaitReply) (s s' : State W) (o : Option Volume)
      → (r.0 ≡ none → E)
      → waited client r s ≡ (done o, s')
      → o ≡ none
      → E
  unfolding waited
  waited-given (some v, none) s s' o h e k = absurd (ground arith)
  waited-given (none, none) s s' o h e k = h refl
  waited-given (some v, some x) s s' o h e k = absurd (ground arith)
  waited-given (none, some x) s s' o h e k = h refl
