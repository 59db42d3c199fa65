-- ===== src/Controller/Unpublish/Effects.antt =====
-- What `ControllerUnpublishVolume` may do to the volumes.
use linode_blockstorage_csi.Common.{
  ℤ, ◌==ℤ◌, ==ℤ_iff, Text, codes, Option, none, some, Bool-cases, ◌≡◌, refl, ◌∙◌, ap, ◌⊎◌, inl, inr,
  arith,
}
use linode_blockstorage_csi.Errors.{GoError}
use linode_blockstorage_csi.Effect.{Result, ok, err, State, unpublish_volume_op}
use linode_blockstorage_csi.Effect.Kept.{
  IsKept, Ends, Ends-map, kept_rules, kept-Ends, kept_then-Ends, then_kept-Ends, tell-Ends,
  or_record-IsKept, lift-IsKept, tell-IsKept, deref-IsKept,
}
use linode_blockstorage_csi.Effect.Runs.{or_record-lift-done, deref-done}
use linode_blockstorage_csi.Volumes.{volume_id_as_int, node_id_as_int}
use linode_blockstorage_csi.Api.{LinodeClient, Volume}
use linode_blockstorage_csi.Api.Frame.{ApiFrame, looked_up, View}
use linode_blockstorage_csi.Controller.{Server}
use linode_blockstorage_csi.Controller.Spec.{Allowed, unpublish_request, Detaches}
use linode_blockstorage_csi.Controller.Unpublish.{
  refuse, skip, wait_detached, detached, detach, detach_from, unpublish_found,
  controller_unpublish_volume,
}

module _ {W : Type 0} {client : LinodeClient W} (frame : ApiFrame client) where
  refuse-IsKept : (e : GoError) → IsKept frame.view (refuse client e)
  unfolding refuse
  refuse-IsKept e = search kept_rules

  skip-IsKept : IsKept frame.view (skip client)
  unfolding skip
  skip-IsKept = search kept_rules

  wait_detached-IsKept : (id : ℤ) → IsKept frame.view (wait_detached client id)
  unfolding wait_detached
  wait_detached-IsKept id = search (kept_rules, frame.wait_for_volume_linode_id_keeps)

  detached-IsKept : (id : ℤ) (r : Result (Unit {0})) → IsKept frame.view (detached client id r)
  unfolding detached
  detached-IsKept id (ok a) = wait_detached-IsKept id
  detached-IsKept id (err e) = elim (Bool-cases (client.is_not_found e)) [
    | inl h ↦ rw h skip-IsKept
    | inr h ↦ rw h (refuse-IsKept _)
  ]

module _ {W : Type 0} {client : LinodeClient W} (frame : ApiFrame client) (u : View)
    (id node : ℤ) where
  abbrev MayDetach : View → Type 0
  MayDetach u' = (u' ≡ u) ⊎ Detaches id node u u'

  detach-Ends :
      (v : Volume) (s : State W)
      → frame.view s.world ≡ u
      → u id ≡ some v
      → (v.linode_id ≡ none) ⊎ (v.linode_id ≡ some node)
      → Ends frame.view MayDetach (detach client id) s
  unfolding detach
  detach-Ends v s k hv hn =
      then_kept-Ends
        (tell-Ends (client.detach_volume id) s (elim (frame.detach_volume_detaches id s.world) [
          | inl same ↦ inl (same ∙ k)
          | inr (v', hv', gone) ↦ inr (v, hv, hn, ground (arith, k))
        ]))
        (detached-IsKept frame id)

  detach_from-Ends :
      (v : Volume) (n : Option ℤ) (s : State W)
      → v.linode_id ≡ n
      → frame.view s.world ≡ u
      → u id ≡ some v
      → Ends frame.view MayDetach (detach_from client id node n) s
  unfolding detach_from
  detach_from-Ends v none s hn k hv = detach-Ends v s k hv (inl hn)
  detach_from-Ends v (some m) s hn k hv = elim (Bool-cases (m ==ℤ node)) [
    | inl h ↦ rw h (detach-Ends v s k hv (inr (hn ∙ ap some ((==ℤ_iff m node).0 h))))
    | inr h ↦ rw h (kept-Ends (skip-IsKept frame) (inl k))
  ]

  unpublish_found-Ends :
      (r : Result (Option Volume)) (s : State W)
      → frame.view s.world ≡ u
      → ((v : Volume) → r ≡ ok (some v) → u id ≡ some v)
      → Ends frame.view MayDetach (unpublish_found client id node r) s
  unfolding unpublish_found
  unpublish_found-Ends (err e) s k sound = elim (Bool-cases (client.is_not_found e)) [
    | inl h ↦ rw h (kept-Ends (skip-IsKept frame) (inl k))
    | inr h ↦ rw h (kept-Ends (refuse-IsKept frame _) (inl k))
  ]
  unpublish_found-Ends (ok o) s k sound = kept_then-Ends (deref-IsKept o) (inl k) λ v s' e k'.
      detach_from-Ends v v.linode_id s' refl (k' ∙ k) (sound v (ap ok (deref-done o s s' v e)))

abbrev volume_number : Text → Result ℤ
volume_number = volume_id_as_int (codes "ControllerUnpublishVolume")

abbrev node_number : Text → Result ℤ
node_number = node_id_as_int (codes "ControllerUnpublishVolume")

module _ {W : Type 0} {client : LinodeClient W} (frame : ApiFrame client) where
  -- However it ends, `ControllerUnpublishVolume` detaches the volume that its request names, if that
  -- was attached to the node of the request or nowhere, or changes nothing.
  pub controller_unpublish_volume-Ends :
      (server : Server) (volume_id node_id : Text) (s : State W)
      → Ends frame.view
          (Allowed server (unpublish_request volume_id node_id) (frame.view s.world))
          (controller_unpublish_volume client volume_id node_id)
          s
  unfolding controller_unpublish_volume
  controller_unpublish_volume-Ends server volume_id node_id s =
      kept_then-Ends (or_record-IsKept _ (lift-IsKept _)) (inl refl) λ id s₁ e₁ k₁.
        kept_then-Ends (or_record-IsKept _ (lift-IsKept _)) (inl k₁) λ node s₂ e₂ k₂.
          kept_then-Ends (tell-IsKept (client.get_volume id) (frame.get_volume_keeps id))
            (inl (k₂ ∙ k₁))
            λ r s₃ e₃ k₃.
              Ends-map
                (λ u' may. elim may [
                  | inl same ↦ inl same
                  | inr gone ↦ inr (
                    id,
                    node,
                    or_record-lift-done unpublish_volume_op (volume_number volume_id) s s₁ id e₁,
                    or_record-lift-done unpublish_volume_op (node_number node_id) s₁ s₂ node e₂,
                    gone,
                  )
                ])
                (unpublish_found-Ends frame (frame.view s.world) id node r s₃ (k₃ ∙ k₂ ∙ k₁)
                  λ v. looked_up frame id s₂ s₃ v (k₂ ∙ k₁) e₃)
