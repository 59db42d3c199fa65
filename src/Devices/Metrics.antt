-- ===== src/Devices/Metrics.antt =====
-- The device manager records no metrics.
use linode_blockstorage_csi.Common.{Text, Option, none, some, Bool, true, false, List, [], ◌∷◌}
use linode_blockstorage_csi.Effect.{M}
use linode_blockstorage_csi.Effect.Samples.{IsQuiet, quiet_rules, recover-IsQuiet, >>=-IsQuiet}
use linode_blockstorage_csi.Host.{Host}
use linode_blockstorage_csi.Devices.{
  udevadm_change_to_drive, trigger, udevadm_change_to_new_drives, path_exists, found_or, checked,
  first_existing, verify_device_path,
}

module _ {W : Type 0} (host : Host W) where
  drive-IsQuiet : (p : Text) → IsQuiet (udevadm_change_to_drive host p)
  unfolding udevadm_change_to_drive
  drive-IsQuiet p = search quiet_rules

  trigger-IsQuiet : (o : Option Text) → IsQuiet (trigger host o)
  unfolding trigger
  trigger-IsQuiet none = search quiet_rules
  trigger-IsQuiet (some p) = drive-IsQuiet p

  new_drives-IsQuiet : (l : List Text) → IsQuiet (udevadm_change_to_new_drives host l)
  unfolding udevadm_change_to_new_drives
  new_drives-IsQuiet l = search (quiet_rules, trigger-IsQuiet)

  path_exists-IsQuiet : (p : Text) → IsQuiet (path_exists host p)
  unfolding path_exists
  path_exists-IsQuiet p = search quiet_rules

  checked-IsQuiet : (p : Text) → IsQuiet (checked host p)
  unfolding checked
  checked-IsQuiet p = search (quiet_rules, recover-IsQuiet, path_exists-IsQuiet)

  found_or-IsQuiet :
      (p : Text) (m : M W Text) → IsQuiet m → (b : Bool) → IsQuiet (found_or host p m b)
  unfolding found_or
  found_or-IsQuiet p m h true = search quiet_rules
  found_or-IsQuiet p m h false = h

  first_existing-IsQuiet : (ps : List Text) → IsQuiet (first_existing host ps)
  unfolding first_existing
  first_existing-IsQuiet [] = search quiet_rules
  first_existing-IsQuiet (p ∷ ps) =
      >>=-IsQuiet (checked-IsQuiet p)
        (found_or-IsQuiet p (first_existing host ps) (first_existing-IsQuiet ps))

  pub verify_device_path-IsQuiet : (ps : List Text) → IsQuiet (verify_device_path host ps)
  unfolding verify_device_path
  verify_device_path-IsQuiet ps =
      search (quiet_rules, recover-IsQuiet, new_drives-IsQuiet, first_existing-IsQuiet)
