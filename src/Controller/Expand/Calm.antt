-- ===== src/Controller/Expand/Calm.antt =====
-- `ControllerExpandVolume` does not panic.
use linode_blockstorage_csi.Common.{
  ℤ, ltb_ℤ, Text, Option, none, some, Bool-cases, ◌∙◌, ap, inl, inr,
}
use linode_blockstorage_csi.Effect.{ok, call, deref, ◌>>=◌}
use linode_blockstorage_csi.Errors.{err_internal, cause, end}
use linode_blockstorage_csi.Effect.Panics.{
  PanicsIf, calm_rules, >>=-PanicsIf, call_then-PanicsIf, deref-PanicsIf,
}
use linode_blockstorage_csi.Capacity.{CapacityRange, bytes_to_gb}
use linode_blockstorage_csi.Api.{LinodeClient, Volume, WaitReply}
use linode_blockstorage_csi.Api.Replies.{ApiReplies}
use linode_blockstorage_csi.Controller.Expand.{waited, resize, controller_expand_volume}

module _ {W : Type 0} {client : LinodeClient W} (replies : ApiReplies client) (E : Type 0) where
  waited-PanicsIf : (id : ℤ) (r : WaitReply) → PanicsIf E (waited client id r)
  unfolding waited
  waited-PanicsIf id (v, none) = search calm_rules
  waited-PanicsIf id (v, some e) = search calm_rules

  resize-PanicsIf : (id size : ℤ) (v : Volume) → PanicsIf E (resize client id size v)
  unfolding resize
  resize-PanicsIf id size v = elim (Bool-cases (ltb_ℤ (bytes_to_gb size) v.size)) [
    | inl k ↦ rw k (search calm_rules)
    | inr k ↦ rw k (search (calm_rules, waited-PanicsIf))
  ]

  looked_up-PanicsIf :
      (id size : ℤ)
      → PanicsIf E (
          call (λ e. err_internal "get volume: %v" (cause e end)) (client.get_volume id)
          >>= λ found. deref found >>= λ v. resize client id size v)
  looked_up-PanicsIf id size =
      call_then-PanicsIf (λ e. err_internal "get volume: %v" (cause e end)) (client.get_volume id)
        (λ found w e.
          >>=-PanicsIf
            (deref-PanicsIf found (λ k. absurd (replies.get_volume_given id w (e ∙ ap ok k))))
            (resize-PanicsIf id size))

  pub controller_expand_volume-PanicsIf :
      (volume_id : Text) (range : Option CapacityRange)
      → PanicsIf E (controller_expand_volume client volume_id range)
  unfolding controller_expand_volume
  controller_expand_volume-PanicsIf volume_id range = search (calm_rules, looked_up-PanicsIf)
