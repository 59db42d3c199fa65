-- ===== src/Node/Calm.antt =====
-- The shared steps of the node service do not panic.
use linode_blockstorage_csi.Common.{Text, Option, none, some, Bool, Bool-cases, inl, inr}
use linode_blockstorage_csi.Errors.{GoError}
use linode_blockstorage_csi.Effect.Panics.{PanicsIf, calm_rules}
use linode_blockstorage_csi.Host.{Host}
use linode_blockstorage_csi.Node.{checked_mount_point, ensure_mount_point}

module _ {W : Type 0} (host : Host W) (E : Type 0) where
  checked_mount_point-PanicsIf :
      (path : Text) (r : Bool × Option GoError) → PanicsIf E (checked_mount_point host path r)
  unfolding checked_mount_point
  checked_mount_point-PanicsIf path (b, none) = search calm_rules
  checked_mount_point-PanicsIf path (b, some e) = elim (Bool-cases (host.fs.is_not_exist e)) [
    | inl h ↦ rw h (search calm_rules)
    | inr h ↦ rw h (search calm_rules)
  ]

  pub ensure_mount_point-PanicsIf : (path : Text) → PanicsIf E (ensure_mount_point host path)
  unfolding ensure_mount_point
  ensure_mount_point-PanicsIf path = search (calm_rules, checked_mount_point-PanicsIf)
