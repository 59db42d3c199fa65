-- ===== src/Node/Metrics.antt =====
-- The metrics of the shared steps of the node service.
use linode_blockstorage_csi.Common.{Text, Option, none, some, Bool, Bool-cases, inl, inr}
use linode_blockstorage_csi.Errors.{GoError}
use linode_blockstorage_csi.Effect.Samples.{IsQuiet, quiet_rules}
use linode_blockstorage_csi.Host.{Host}
use linode_blockstorage_csi.Node.{checked_mount_point, ensure_mount_point}

module _ {W : Type 0} (host : Host W) where
  checked_mount_point-IsQuiet :
      (path : Text) (r : Bool × Option GoError) → IsQuiet (checked_mount_point host path r)
  unfolding checked_mount_point
  checked_mount_point-IsQuiet path (b, none) = search quiet_rules
  checked_mount_point-IsQuiet path (b, some e) = elim (Bool-cases (host.fs.is_not_exist e)) [
    | inl h ↦ rw h (search quiet_rules)
    | inr h ↦ rw h (search quiet_rules)
  ]

  pub ensure_mount_point-IsQuiet : (path : Text) → IsQuiet (ensure_mount_point host path)
  unfolding ensure_mount_point
  ensure_mount_point-IsQuiet path = search (quiet_rules, checked_mount_point-IsQuiet)
