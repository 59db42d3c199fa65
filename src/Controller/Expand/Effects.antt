-- ===== src/Controller/Expand/Effects.antt =====
-- What `ControllerExpandVolume` may do to the volumes.
use linode_blockstorage_csi.Common.{
  ℤ, ltb_ℤ, ◌≤ℤ◌, Text, codes, Option, none, some, Bool-cases, false, ◌≡◌, refl, ◌∙◌, ◌⊎◌, inl, inr,
  arith,
}
use linode_blockstorage_csi.Errors.{err_internal, cause, end}
use linode_blockstorage_csi.Effect.{Result, State, pure, tell, ◌>>=◌, ◌>>◌}
use linode_blockstorage_csi.Effect.Kept.{
  IsKept, Ends, Ends-map, kept_rules, kept-Ends, kept_then-Ends, then_kept-Ends, call-Ends,
  lift-IsKept, deref-IsKept, call-IsKept, fail-IsKept,
}
use linode_blockstorage_csi.Effect.Runs.{lift-done, deref-done}
use linode_blockstorage_csi.Volumes.{volume_id_as_int}
use linode_blockstorage_csi.Api.{LinodeClient, Volume}
use linode_blockstorage_csi.Api.Frame.{ApiFrame, looked_up_or_failed, View}
use linode_blockstorage_csi.Csi.{ExpandResponse}
use linode_blockstorage_csi.Api.{WaitReply, volume_active}
use linode_blockstorage_csi.Capacity.{CapacityRange, bytes_to_gb}
use linode_blockstorage_csi.Controller.{Server, wait_timeout}
use linode_blockstorage_csi.Controller.Spec.{Allowed, expand_request, Resizes}
use linode_blockstorage_csi.Controller.Expand.{
  requested_size, waited, resize, controller_expand_volume,
}

not_smaller : (a b : ℤ) → ltb_ℤ a b ≡ false → b ≤ℤ a
not_smaller a b h = ground arith

abbrev volume_number : Text → Result ℤ
volume_number = volume_id_as_int (codes "ControllerExpandVolume")

module _ {W : Type 0} {client : LinodeClient W} (frame : ApiFrame client) where
  waited-IsKept : (id : ℤ) (r : WaitReply) → IsKept frame.view (waited client id r)
  unfolding waited
  waited-IsKept id (v, none) = search kept_rules
  waited-IsKept id (v, some e) = search kept_rules

  wait-IsKept :
      (id size : ℤ) (v : Volume)
      → IsKept frame.view {A = ExpandResponse} (
          tell (client.wait_for_volume_status v.id volume_active wait_timeout) >>= λ reply.
          waited client id reply
          >> pure (record { capacity_bytes = size; node_expansion_required = false }))
  wait-IsKept id size v =
      search (kept_rules, waited-IsKept, frame.wait_for_volume_status_keeps) depth 9

  resize-Ends :
      (u : View) (id size : ℤ) (v : Volume) (s : State W)
      → frame.view s.world ≡ u
      → u id ≡ some v
      → Ends frame.view (λ u'. (u' ≡ u) ⊎ Resizes id u u') (resize client id size v) s
  unfolding resize
  resize-Ends u id size v s k hv = elim (Bool-cases (ltb_ℤ (bytes_to_gb size) v.size)) [
    | inl h ↦ rw h (kept-Ends (fail-IsKept _) (inl k))
    | inr h ↦ rw h (
        then_kept-Ends
          (call-Ends _ (client.resize_volume id (bytes_to_gb size)) s
            (elim (frame.resize_volume_resizes id (bytes_to_gb size) s.world) [
              | inl same ↦ inl (same ∙ k)
              | inr (v', hv', done') ↦ inr (
                v,
                bytes_to_gb size,
                hv,
                not_smaller (bytes_to_gb size) v.size h,
                ground (arith, k),
              )
            ]))
          (λ a. wait-IsKept id size v))
  ]

  -- However it ends, `ControllerExpandVolume` gives the volume that its request names a size that is
  -- no smaller than it was, or changes nothing.
  pub controller_expand_volume-Ends :
      (server : Server) (volume_id : Text) (range : Option CapacityRange) (s : State W)
      → Ends frame.view
          (Allowed server (expand_request volume_id range) (frame.view s.world))
          (controller_expand_volume client volume_id range)
          s
  unfolding controller_expand_volume
  controller_expand_volume-Ends server volume_id range s =
      kept_then-Ends (lift-IsKept (volume_id_as_int (codes "ControllerExpandVolume") volume_id))
        (inl refl)
        λ id s₁ e₁ k₁. kept_then-Ends (lift-IsKept (requested_size range)) (inl k₁) λ size s₂ e₂ k₂.
          kept_then-Ends
            (call-IsKept (λ e. err_internal "get volume: %v" (cause e end)) (client.get_volume id)
              (frame.get_volume_keeps id))
            (inl (k₂ ∙ k₁))
            λ o s₃ e₃ k₃. kept_then-Ends (deref-IsKept o) (inl (k₃ ∙ k₂ ∙ k₁)) λ v s₄ e₄ k₄.
              Ends-map
                (λ u' may. elim may [
                  | inl same ↦ inl same
                  | inr more ↦ inr (id, lift-done (volume_number volume_id) s s₁ id e₁, more)
                ])
                (resize-Ends (frame.view s.world) id size v s₄ (k₄ ∙ k₃ ∙ k₂ ∙ k₁)
                  (looked_up_or_failed frame _ id s₂ s₃ v (k₂ ∙ k₁) e₃ (deref-done o s₃ s₄ v e₄)))
