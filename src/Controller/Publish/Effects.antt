-- ===== src/Controller/Publish/Effects.antt =====
-- What `ControllerPublishVolume` may do to the volumes.
use linode_blockstorage_csi.Common.{
  ℤ, is_empty, Text, Dict, none, some, false, [], ◌∷◌, ◌≡◌, refl, ◌∙◌, ap, ◌⊎◌, inl, inr, arith,
  if◌then◌else◌,
}
use linode_blockstorage_csi.Effect.{
  done, State, pure, deref, call, ◌>>=◌, ◌>>◌, record_metrics, completed_status, or_record,
  publish_volume_op,
}
use linode_blockstorage_csi.Effect.Kept.{
  IsKept, Ends, Ends-map, kept_rules, kept-Ends, kept_then-Ends, then_kept-Ends, or_record-Ends,
  call-Ends, or_record-IsKept, deref-IsKept, pure-IsKept,
}
use linode_blockstorage_csi.Effect.Runs.{or_record-done, deref-done}
use linode_blockstorage_csi.Api.{LinodeClient, Volume, Instance}
use linode_blockstorage_csi.Api.Frame.{ApiFrame, View}
use linode_blockstorage_csi.Csi.{PublishRequest}
use linode_blockstorage_csi.Controller.{Server, wait_timeout}
use linode_blockstorage_csi.Controller.Spec.{Allowed, publish_request, Attaches}
use linode_blockstorage_csi.Controller.Publish.{
  validate_controller_publish_volume_request, get_instance, get_and_validate_volume, attach_volume,
  context_of, attach_and_wait, already_attached, controller_publish_volume,
}
use linode_blockstorage_csi.Controller.Publish.Kept.{
  validate-IsKept, get_instance-IsKept, get_and_validate_volume-IsKept,
  check_attachment_capacity-IsKept, already_attached-IsKept,
}
use linode_blockstorage_csi.Controller.Publish.Returns.{
  IsFree, get_and_validate_volume-done, validate-done, get_instance-done,
}

module _ {W : Type 0} {client : LinodeClient W} (frame : ApiFrame client) (u : View)
    (id node : ℤ) where
  abbrev MayAttach : View → Type 0
  MayAttach u' = (u' ≡ u) ⊎ Attaches id node u u'

  attach_volume-Ends :
      (v : Volume) (s : State W)
      → frame.view s.world ≡ u
      → u id ≡ some v
      → (v.linode_id ≡ none) ⊎ (v.linode_id ≡ some node)
      → Ends frame.view MayAttach (attach_volume client id node) s
  unfolding attach_volume
  attach_volume-Ends v s k hv hn =
      then_kept-Ends
        (call-Ends _ (client.attach_volume id node false) s
          (elim (frame.attach_volume_attaches id node false s.world) [
            | inl same ↦ inl (same ∙ k)
            | inr (v', hv', there) ↦ inr (v, hv, hn, ground (arith, k))
          ]))
        (λ a. pure-IsKept tt)

  -- What follows the attachment keeps the view.
  wait-IsKept : IsKept frame.view {A = Dict} (
      or_record publish_volume_op
        (call (λ e. e) (client.wait_for_volume_linode_id id (some node) wait_timeout))
      >>= λ found.
          record_metrics publish_volume_op completed_status
          >> (deref found >>= λ vol.
              deref vol.linode_id >> pure (context_of client vol.filesystem_path)))
  wait-IsKept = search (kept_rules, frame.wait_for_volume_linode_id_keeps) depth 12

  attach_and_wait-Ends :
      (v : Volume) (i : Instance) (s : State W)
      → frame.view s.world ≡ u
      → u id ≡ some v
      → (v.linode_id ≡ none) ⊎ (v.linode_id ≡ some node)
      → Ends frame.view MayAttach (attach_and_wait client node id i) s
  unfolding attach_and_wait
  attach_and_wait-Ends v i s k hv hn =
      kept_then-Ends (or_record-IsKept publish_volume_op (check_attachment_capacity-IsKept frame i))
        (inl k)
        λ a s₁ e₁ k₁.
          then_kept-Ends (or_record-Ends publish_volume_op (attach_volume-Ends v s₁ (k₁ ∙ k) hv hn))
            (λ a. wait-IsKept)

module _ {W : Type 0} {client : LinodeClient W} (frame : ApiFrame client) where
  by_path-Ends :
      (u : View) (id node : ℤ) (i : Instance) (path : Text) (s : State W)
      → frame.view s.world ≡ u
      → IsFree frame u id i
      → i.id ≡ node
      → Ends frame.view
          (MayAttach frame u id node)
          (if is_empty path then attach_and_wait client node id i else already_attached client path)
          s
  by_path-Ends u id node i [] s k (v, hv, hn) hi =
      attach_and_wait-Ends frame u id node v i s k hv (rw (← hi) hn)
  by_path-Ends u id node i (c ∷ path) s k free hi =
      kept-Ends (already_attached-IsKept frame (c ∷ path)) (inl k)

  -- However it ends, `ControllerPublishVolume` attaches the volume that its request names to the node
  -- of the request, if the volume was attached there or nowhere, or changes nothing.
  pub controller_publish_volume-Ends :
      (server : Server) (req : PublishRequest) (s : State W)
      → Ends frame.view
          (Allowed server (publish_request req) (frame.view s.world))
          (controller_publish_volume client req)
          s
  unfolding controller_publish_volume
  controller_publish_volume-Ends server req s =
      let u = frame.view s.world in
      kept_then-Ends (or_record-IsKept publish_volume_op (validate-IsKept frame req)) (inl refl)
        λ ids s₁ e₁ k₁.
          kept_then-Ends (or_record-IsKept publish_volume_op (get_instance-IsKept frame ids.0))
            (inl k₁)
            λ o s₂ e₂ k₂. kept_then-Ends (deref-IsKept o) (inl (k₂ ∙ k₁)) λ i s₃ e₃ k₃.
              kept_then-Ends
                (or_record-IsKept publish_volume_op (get_and_validate_volume-IsKept frame ids.1 i))
                (inl (k₃ ∙ k₂ ∙ k₁))
                λ path s₄ e₄ k₄.
                  let k : frame.view s₄.world ≡ u = k₄ ∙ k₃ ∙ k₂ ∙ k₁ in
                  let (hv, hn) = validate-done client req s s₁ ids (
                    or_record-done publish_volume_op
                      (validate_controller_publish_volume_request client req) s s₁ ids e₁) in
                  Ends-map
                    (λ u' may. elim may [
                      | inl same ↦ inl same
                      | inr there ↦ inr (ids.1, ids.0, hv, hn, there)
                    ])
                    (by_path-Ends u ids.1 ids.0 i path s₄ k
                      (get_and_validate_volume-done frame u ids.1 i path s₃ s₄ (k₃ ∙ k₂ ∙ k₁) (
                        or_record-done publish_volume_op (get_and_validate_volume client ids.1 i) s₃
                          s₄ path e₄))
                      (get_instance-done frame ids.0 i s₁ s₂ (
                        or_record-done publish_volume_op (get_instance client ids.0) s₁ s₂ (some i)
                          (e₂ ∙ ap (λ o. (done o, s₂)) (deref-done o s₂ s₃ i e₃)))))
