-- ===== src/Node/Kept.antt =====
-- Making a mount point mounts nothing.
use linode_blockstorage_csi.Common.{Text, Option, none, some, Bool, Bool-cases, inl, inr}
use linode_blockstorage_csi.Errors.{GoError}
use linode_blockstorage_csi.Effect.Kept.{IsKept, kept_rules}
use linode_blockstorage_csi.Host.{Host}
use linode_blockstorage_csi.Host.Frame.{NodeFrame}
use linode_blockstorage_csi.Node.{checked_mount_point, ensure_mount_point}

module _ {W : Type 0} {host : Host W} (frame : NodeFrame host) where
  checked_mount_point-IsKept :
      (path : Text) (r : Bool × Option GoError)
      → IsKept frame.view (checked_mount_point host path r)
  unfolding checked_mount_point
  checked_mount_point-IsKept path (b, none) = search kept_rules
  checked_mount_point-IsKept path (b, some e) = elim (Bool-cases (host.fs.is_not_exist e)) [
    | inl h ↦ rw h (search (kept_rules, frame.mkdir_all_keeps))
    | inr h ↦ rw h (search kept_rules)
  ]

  pub ensure_mount_point-IsKept : (path : Text) → IsKept frame.view (ensure_mount_point host path)
  unfolding ensure_mount_point
  ensure_mount_point-IsKept path =
      search (kept_rules, checked_mount_point-IsKept, frame.is_likely_not_mount_point_keeps)
