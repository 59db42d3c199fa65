-- ===== src/Controller/Delete/Calm.antt =====
-- `DeleteVolume` does not panic.
use linode_blockstorage_csi.Common.{ℤ, Text, Option, none, some, Bool-cases, ◌≡◌, ◌∙◌, ap, inl, inr}
use linode_blockstorage_csi.Effect.{Result, ok, err}
use linode_blockstorage_csi.Effect.Panics.{
  PanicsIf, calm_rules, >>=-PanicsIf, tell_then-PanicsIf, deref-PanicsIf, or_record-PanicsIf,
  lift-PanicsIf,
}
use linode_blockstorage_csi.Api.{LinodeClient, Volume}
use linode_blockstorage_csi.Api.Replies.{ApiReplies}
use linode_blockstorage_csi.Controller.Delete.{delete_unattached, delete_found, delete_volume}

module _ {W : Type 0} {client : LinodeClient W} (replies : ApiReplies client) (E : Type 0) where
  delete_unattached-PanicsIf : (id : ℤ) (o : Option ℤ) → PanicsIf E (delete_unattached client id o)
  unfolding delete_unattached
  delete_unattached-PanicsIf id (some node) = search calm_rules
  delete_unattached-PanicsIf id none = search calm_rules

  delete_found-PanicsIf :
      (id : ℤ) (r : Result (Option Volume))
      → (r ≡ ok none → E)
      → PanicsIf E (delete_found client id r)
  unfolding delete_found
  delete_found-PanicsIf id (err e) h = elim (Bool-cases (client.is_not_found e)) [
    | inl k ↦ rw k (search calm_rules)
    | inr k ↦ rw k (search calm_rules)
  ]
  delete_found-PanicsIf id (ok found) h =
      >>=-PanicsIf (deref-PanicsIf found (λ k. h (ap ok k)))
        (λ vol. delete_unattached-PanicsIf id vol.linode_id)

  pub delete_volume-PanicsIf : (volume_id : Text) → PanicsIf E (delete_volume client volume_id)
  unfolding delete_volume
  delete_volume-PanicsIf volume_id = >>=-PanicsIf (or_record-PanicsIf _ (lift-PanicsIf _)) (λ id.
      tell_then-PanicsIf (client.get_volume id)
        (λ r w e. delete_found-PanicsIf id r (λ k. absurd (replies.get_volume_given id w (e ∙ k)))))
