-- ===== src/Controller/Publish/Calm.antt =====
-- `ControllerPublishVolume` does not panic.
use linode_blockstorage_csi.Common.{
  ℤ, ◌==ℤ◌, Text, is_empty, Option, none, some, Bool, true, false, Bool-cases, ◌≡◌, refl, ◌∙◌, ap,
  inl, inr, arith, if◌then◌else◌,
}
use linode_blockstorage_csi.Effect.{
  Result, ok, err, done, State, tell, call, deref, pure, or_record, record_metrics, ◌>>=◌, ◌>>◌,
  publish_volume_op, completed_status,
}
use linode_blockstorage_csi.Effect.Panics.{
  PanicsIf, calm_rules, >>=-PanicsIf, then-PanicsIf, tell_then-PanicsIf, deref-PanicsIf,
  or_record-PanicsIf, call-PanicsIf, record_metrics-PanicsIf,
}
use linode_blockstorage_csi.Effect.Runs.{or_record-done, call-done, tell-done, >>=-done}
use linode_blockstorage_csi.Api.{LinodeClient, Volume, Instance}
use linode_blockstorage_csi.Api.Replies.{ApiReplies}
use linode_blockstorage_csi.Csi.{PublishRequest}
use linode_blockstorage_csi.Controller.{wait_timeout}
use linode_blockstorage_csi.Controller.Publish.{
  validate_controller_publish_volume_request, got_instance, get_instance, path_if_attached,
  validate_found, get_and_validate_volume, max_allowed_volume_attachments, can_attach, full,
  check_attachment_capacity, attach_volume, context_of, attach_and_wait, already_attached,
  controller_publish_volume,
}

module _ {W : Type 0} (client : LinodeClient W) (E : Type 0) where
  validate-PanicsIf :
      (req : PublishRequest) → PanicsIf E (validate_controller_publish_volume_request client req)
  unfolding validate_controller_publish_volume_request
  validate-PanicsIf req = search calm_rules

  got_instance-PanicsIf :
      (id : ℤ) (r : Result (Option Instance)) → PanicsIf E (got_instance client id r)
  unfolding got_instance
  got_instance-PanicsIf id (ok i) = search calm_rules
  got_instance-PanicsIf id (err e) = elim (Bool-cases (client.is_not_found e)) [
    | inl k ↦ rw k (search calm_rules)
    | inr k ↦ rw k (search calm_rules)
  ]

  get_instance-PanicsIf : (id : ℤ) → PanicsIf E (get_instance client id)
  unfolding get_instance
  get_instance-PanicsIf id = search (calm_rules, got_instance-PanicsIf)

  attached_to-PanicsIf :
      (id node : ℤ) (v : Volume) (i : Instance) (o : Option ℤ)
      → v.linode_id ≡ o
      → PanicsIf E (path_if_attached client id v i)
  unfolding path_if_attached
  attached_to-PanicsIf id node v i none e = rw e (search calm_rules)
  attached_to-PanicsIf id node v i (some n) e = elim (Bool-cases (n ==ℤ i.id)) [
    | inl k ↦ rw (e, k) (search calm_rules)
    | inr k ↦ rw (e, k) (search calm_rules)
  ]

  max_allowed-PanicsIf : (i : Instance) → PanicsIf E (max_allowed_volume_attachments client i)
  unfolding max_allowed_volume_attachments
  max_allowed-PanicsIf i = by_memory i.memory refl
    where
      by_memory :
          (o : Option ℤ) → i.memory ≡ o → PanicsIf E (max_allowed_volume_attachments client i)
      by_memory none e = rw e (search calm_rules)
      by_memory (some mb) e = rw e (search calm_rules)

  full-PanicsIf : (i : Instance) → PanicsIf E (full client i)
  unfolding full
  full-PanicsIf i = by_memory i.memory refl
    where
      by_memory : (o : Option ℤ) → i.memory ≡ o → PanicsIf E (full client i)
      by_memory none e = rw e (search calm_rules)
      by_memory (some mb) e = rw e (search calm_rules)

  can_attach-PanicsIf : (i : Instance) → PanicsIf E (can_attach client i)
  unfolding can_attach
  can_attach-PanicsIf i = search (calm_rules, max_allowed-PanicsIf)

  full_or_not-PanicsIf :
      (i : Instance) (b : Bool) → PanicsIf E (if b then pure tt else full client i)
  full_or_not-PanicsIf i true = search calm_rules
  full_or_not-PanicsIf i false = full-PanicsIf i

  check_attachment_capacity-PanicsIf :
      (i : Instance) → PanicsIf E (check_attachment_capacity client i)
  unfolding check_attachment_capacity
  check_attachment_capacity-PanicsIf i =
      search (calm_rules, can_attach-PanicsIf, full_or_not-PanicsIf)

  attach_volume-PanicsIf : (id node : ℤ) → PanicsIf E (attach_volume client id node)
  unfolding attach_volume
  attach_volume-PanicsIf id node = search calm_rules

  already_attached-PanicsIf : (path : Text) → PanicsIf E (already_attached client path)
  unfolding already_attached
  already_attached-PanicsIf path = search calm_rules

  got_instance-done :
      (id : ℤ) (r : Result (Option Instance)) (s s' : State W) (o : Option Instance)
      → got_instance client id r s ≡ (done o, s')
      → r ≡ ok o
  unfolding got_instance
  got_instance-done id (ok i) s s' o e = ground arith
  got_instance-done id (err x) s s' o e = elim (Bool-cases (client.is_not_found x)) [
    | inl k ↦ absurd (ground arith)
    | inr k ↦ absurd (ground arith)
  ]

module _ {W : Type 0} {client : LinodeClient W} (replies : ApiReplies client) (E : Type 0) where
  get_instance-given :
      (id : ℤ) (s s' : State W) (o : Option Instance)
      → get_instance client id s ≡ (done o, s')
      → o ≡ none
      → E
  unfolding get_instance
  get_instance-given id s s' o e k =
      let (r, t, h, h') =
        >>=-done (tell (client.get_instance id)) (got_instance client id) s s' o e in
      absurd (
        replies.get_instance_given id s.world (
          ap (λ p. p.0) (tell-done (client.get_instance id) s t r h)
          ∙ got_instance-done client E id r t s' o h'
          ∙ ap ok k))

  validate_found-PanicsIf :
      (id : ℤ) (i : Instance) (r : Result (Option Volume))
      → (r ≡ ok none → E)
      → PanicsIf E (validate_found client id i r)
  unfolding validate_found
  validate_found-PanicsIf id i (err e) h = elim (Bool-cases (client.is_not_found e)) [
    | inl k ↦ rw k (search calm_rules)
    | inr k ↦ rw k (search calm_rules)
  ]
  validate_found-PanicsIf id i (ok found) h =
      >>=-PanicsIf (deref-PanicsIf found (λ k. h (ap ok k)))
        (λ v. attached_to-PanicsIf client E id i.id v i v.linode_id refl)

  get_and_validate_volume-PanicsIf :
      (id : ℤ) (i : Instance) → PanicsIf E (get_and_validate_volume client id i)
  unfolding get_and_validate_volume
  get_and_validate_volume-PanicsIf id i = tell_then-PanicsIf (client.get_volume id) (λ r w e.
      validate_found-PanicsIf id i r (λ k. absurd (replies.get_volume_given id w (e ∙ k))))

  -- The volume that the wait returns is there, and attached.
  path_of-PanicsIf :
      (found : Option Volume) (node : ℤ)
      → (v : Volume) × (found ≡ some v) × (v.linode_id ≡ some node)
      → PanicsIf {W = W} E
          (do vol ← deref found; deref vol.linode_id; pure (context_of client vol.filesystem_path))
  path_of-PanicsIf (some v) node (v', same, there) =
      let e : v.linode_id ≡ some node =
        ap (λ o. elim o [ none ↦ none | some x ↦ x.linode_id ]) same ∙ there in
      record { at = λ s h. absurd (ground arith) }
  path_of-PanicsIf none node (v', same, there) = absurd cc

  waited-PanicsIf :
      (node id : ℤ)
      → PanicsIf E (do
        found ←
            or_record publish_volume_op
              (call (λ e. e) (client.wait_for_volume_linode_id id (some node) wait_timeout))
        record_metrics publish_volume_op completed_status
        vol ← deref found
        deref vol.linode_id
        pure (context_of client vol.filesystem_path))
  waited-PanicsIf node id =
      let wait = client.wait_for_volume_linode_id id (some node) wait_timeout in
      then-PanicsIf (or_record-PanicsIf publish_volume_op (call-PanicsIf (λ e. e) wait))
        (λ found s s' e.
          let came =
            call-done (λ e. e) wait s s' found
              (or_record-done publish_volume_op (call (λ e. e) wait) s s' found e) in
          >>=-PanicsIf (record_metrics-PanicsIf publish_volume_op completed_status) (λ _.
            path_of-PanicsIf found node
              (replies.wait_attached id node wait_timeout s.world found (ap (λ p. p.0) came))))

  attach_and_wait-PanicsIf :
      (node id : ℤ) (i : Instance) → PanicsIf E (attach_and_wait client node id i)
  unfolding attach_and_wait
  attach_and_wait-PanicsIf node id i = search (
    or_record-PanicsIf, >>=-PanicsIf, check_attachment_capacity-PanicsIf, attach_volume-PanicsIf,
    waited-PanicsIf,
  )

  attach_or_not-PanicsIf :
      (node id : ℤ) (i : Instance) (path : Text) (b : Bool)
      → PanicsIf E (if b then attach_and_wait client node id i else already_attached client path)
  attach_or_not-PanicsIf node id i path true = attach_and_wait-PanicsIf node id i
  attach_or_not-PanicsIf node id i path false = already_attached-PanicsIf client E path

  pub controller_publish_volume-PanicsIf :
      (req : PublishRequest) → PanicsIf E (controller_publish_volume client req)
  unfolding controller_publish_volume
  controller_publish_volume-PanicsIf req =
      >>=-PanicsIf (or_record-PanicsIf publish_volume_op (validate-PanicsIf client E req)) (λ ids.
        then-PanicsIf (or_record-PanicsIf publish_volume_op (get_instance-PanicsIf client E ids.0))
          (λ found s s' e.
            >>=-PanicsIf
              (deref-PanicsIf found (
                get_instance-given ids.0 s s' found
                  (or_record-done publish_volume_op (get_instance client ids.0) s s' found e)))
              (λ i.
                >>=-PanicsIf
                  (or_record-PanicsIf publish_volume_op (get_and_validate_volume-PanicsIf ids.1 i))
                  (λ path. attach_or_not-PanicsIf ids.0 ids.1 i path (is_empty path)))))
