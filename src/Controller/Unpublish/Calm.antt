-- ===== src/Controller/Unpublish/Calm.antt =====
-- `ControllerUnpublishVolume` does not panic.
use linode_blockstorage_csi.Common.{
  ℤ, ◌==ℤ◌, Text, Option, none, some, Bool-cases, ◌≡◌, ◌∙◌, ap, inl, inr,
}
use linode_blockstorage_csi.Effect.{Result, ok, err, tell, ◌>>=◌}
use linode_blockstorage_csi.Effect.Panics.{
  PanicsIf, calm_rules, >>=-PanicsIf, tell_then-PanicsIf, deref-PanicsIf,
}
use linode_blockstorage_csi.Api.{LinodeClient, Volume}
use linode_blockstorage_csi.Api.Replies.{ApiReplies}
use linode_blockstorage_csi.Controller.Unpublish.{
  detached, detach, detach_from, unpublish_found, controller_unpublish_volume,
}

module _ {W : Type 0} {client : LinodeClient W} (replies : ApiReplies client) (E : Type 0) where
  detached-PanicsIf : (id : ℤ) (r : Result (Unit {0})) → PanicsIf E (detached client id r)
  unfolding detached
  detached-PanicsIf id (ok u) = search calm_rules
  detached-PanicsIf id (err e) = elim (Bool-cases (client.is_not_found e)) [
    | inl k ↦ rw k (search calm_rules)
    | inr k ↦ rw k (search calm_rules)
  ]

  detach_from-PanicsIf : (id node : ℤ) (o : Option ℤ) → PanicsIf E (detach_from client id node o)
  unfolding detach_from detach
  detach_from-PanicsIf id node none = search (calm_rules, detached-PanicsIf)
  detach_from-PanicsIf id node (some n) = elim (Bool-cases (n ==ℤ node)) [
    | inl k ↦ rw k (search (calm_rules, detached-PanicsIf))
    | inr k ↦ rw k (search calm_rules)
  ]

  unpublish_found-PanicsIf :
      (id node : ℤ) (r : Result (Option Volume))
      → (r ≡ ok none → E)
      → PanicsIf E (unpublish_found client id node r)
  unfolding unpublish_found
  unpublish_found-PanicsIf id node (err e) h = elim (Bool-cases (client.is_not_found e)) [
    | inl k ↦ rw k (search calm_rules)
    | inr k ↦ rw k (search calm_rules)
  ]
  unpublish_found-PanicsIf id node (ok found) h =
      >>=-PanicsIf (deref-PanicsIf found (λ k. h (ap ok k)))
        (λ vol. detach_from-PanicsIf id node vol.linode_id)

  looked_up-PanicsIf :
      (id node : ℤ)
      → PanicsIf E (tell (client.get_volume id) >>= λ r. unpublish_found client id node r)
  looked_up-PanicsIf id node = tell_then-PanicsIf (client.get_volume id) (λ r w e.
      unpublish_found-PanicsIf id node r (λ k. absurd (replies.get_volume_given id w (e ∙ k))))

  pub controller_unpublish_volume-PanicsIf :
      (volume_id node_id : Text) → PanicsIf E (controller_unpublish_volume client volume_id node_id)
  unfolding controller_unpublish_volume
  controller_unpublish_volume-PanicsIf volume_id node_id = search (calm_rules, looked_up-PanicsIf)
