-- ===== src/Controller/Delete/Effects.antt =====
-- What `DeleteVolume` may do to the volumes.
use linode_blockstorage_csi.Common.{
  ℤ, Text, codes, Option, none, some, Bool-cases, ◌≡◌, refl, ◌∙◌, ap, ◌⊎◌, inl, inr,
}
use linode_blockstorage_csi.Errors.{GoError}
use linode_blockstorage_csi.Effect.{Result, ok, err, State, delete_volume_op}
use linode_blockstorage_csi.Effect.Kept.{
  IsKept, Ends, Ends-map, kept_rules, kept-Ends, kept_then-Ends, then_kept-Ends, or_record-Ends,
  call-Ends, or_record-IsKept, lift-IsKept, tell-IsKept, record_metrics-IsKept, deref-IsKept,
}
use linode_blockstorage_csi.Effect.Runs.{or_record-lift-done, deref-done}
use linode_blockstorage_csi.Volumes.{volume_id_as_int}
use linode_blockstorage_csi.Api.{LinodeClient, Volume}
use linode_blockstorage_csi.Api.Frame.{ApiFrame, looked_up, View}
use linode_blockstorage_csi.Controller.{Server}
use linode_blockstorage_csi.Controller.Spec.{Allowed, delete_request, Deletes}
use linode_blockstorage_csi.Controller.Delete.{
  refuse, remove, delete_unattached, delete_found, delete_volume,
}

module _ {W : Type 0} {client : LinodeClient W} (frame : ApiFrame client) (u : View) (id : ℤ) where
  abbrev MayDelete : View → Type 0
  MayDelete u' = (u' ≡ u) ⊎ Deletes id u u'

  refuse-IsKept : (e : GoError) → IsKept frame.view (refuse client e)
  unfolding refuse
  refuse-IsKept e = search kept_rules

  remove-Ends :
      (v : Volume) (s : State W)
      → frame.view s.world ≡ u
      → u id ≡ some v
      → v.linode_id ≡ none
      → Ends frame.view MayDelete (remove client id) s
  unfolding remove
  remove-Ends v s k hv hn =
      then_kept-Ends
        (or_record-Ends delete_volume_op (
          call-Ends _ (client.delete_volume id) s (elim (frame.delete_volume_removes id s.world) [
            | inl same ↦ inl (same ∙ k)
            | inr gone ↦ inr (v, hv, hn, gone ∙ rw k refl)
          ])))
        (λ a. record_metrics-IsKept _ _)

  delete_unattached-Ends :
      (v : Volume) (n : Option ℤ) (s : State W)
      → v.linode_id ≡ n
      → frame.view s.world ≡ u
      → u id ≡ some v
      → Ends frame.view MayDelete (delete_unattached client id n) s
  unfolding delete_unattached
  delete_unattached-Ends v none s hn k hv = remove-Ends v s k hv hn
  delete_unattached-Ends v (some n) s hn k hv = kept-Ends (refuse-IsKept _) (inl k)

  delete_found-Ends :
      (r : Result (Option Volume)) (s : State W)
      → frame.view s.world ≡ u
      → ((v : Volume) → r ≡ ok (some v) → u id ≡ some v)
      → Ends frame.view MayDelete (delete_found client id r) s
  unfolding delete_found
  delete_found-Ends (err e) s k sound = elim (Bool-cases (client.is_not_found e)) [
    | inl h ↦ rw h (kept-Ends (record_metrics-IsKept _ _) (inl k))
    | inr h ↦ rw h (kept-Ends (refuse-IsKept _) (inl k))
  ]
  delete_found-Ends (ok o) s k sound = kept_then-Ends (deref-IsKept o) (inl k) λ v s' e k'.
      delete_unattached-Ends v v.linode_id s' refl (k' ∙ k)
        (sound v (ap ok (deref-done o s s' v e)))

abbrev delete_id : Text → Result ℤ
delete_id = volume_id_as_int (codes "DeleteVolume")

module _ {W : Type 0} {client : LinodeClient W} (frame : ApiFrame client) where
  -- However it ends, `DeleteVolume` removes the volume that its request names, if that was attached
  -- nowhere, or changes nothing.
  pub delete_volume-Ends :
      (server : Server) (volume_id : Text) (s : State W)
      → Ends frame.view
          (Allowed server (delete_request volume_id) (frame.view s.world))
          (delete_volume client volume_id)
          s
  unfolding delete_volume
  delete_volume-Ends server volume_id s =
      kept_then-Ends (or_record-IsKept _ (lift-IsKept _)) (inl refl) λ id s₁ e k.
        kept_then-Ends (tell-IsKept (client.get_volume id) (frame.get_volume_keeps id)) (inl k)
          λ r s₂ e₂ k₂.
            Ends-map
              (λ u' may. elim may [
                | inl same ↦ inl same
                | inr gone ↦
                    inr (
                      id,
                      or_record-lift-done delete_volume_op (delete_id volume_id) s s₁ id e,
                      gone,
                    )
              ])
              (delete_found-Ends frame (frame.view s.world) id r s₂ (k₂ ∙ k)
                λ v. looked_up frame id s₁ s₂ v k e₂)
