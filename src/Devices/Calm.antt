-- ===== src/Devices/Calm.antt =====
-- The device manager does not panic.
use linode_blockstorage_csi.Common.{Text, Option, none, some, Bool, true, false, List, [], ◌∷◌}
use linode_blockstorage_csi.Effect.{M}
use linode_blockstorage_csi.Effect.Panics.{PanicsIf, calm_rules, recover-PanicsIf, >>=-PanicsIf}
use linode_blockstorage_csi.Host.{Host}
use linode_blockstorage_csi.Devices.{
  udevadm_change_to_drive, trigger, udevadm_change_to_new_drives, path_exists, found_or, checked,
  first_existing, verify_device_path,
}

module _ {W : Type 0} (host : Host W) (E : Type 0) where
  drive-PanicsIf : (p : Text) → PanicsIf E (udevadm_change_to_drive host p)
  unfolding udevadm_change_to_drive
  drive-PanicsIf p = search calm_rules

  trigger-PanicsIf : (o : Option Text) → PanicsIf E (trigger host o)
  unfolding trigger
  trigger-PanicsIf none = search calm_rules
  trigger-PanicsIf (some p) = drive-PanicsIf p

  pub new_drives-PanicsIf : (l : List Text) → PanicsIf E (udevadm_change_to_new_drives host l)
  unfolding udevadm_change_to_new_drives
  new_drives-PanicsIf l = search (calm_rules, trigger-PanicsIf)

  path_exists-PanicsIf : (p : Text) → PanicsIf E (path_exists host p)
  unfolding path_exists
  path_exists-PanicsIf p = search calm_rules

  checked-PanicsIf : (p : Text) → PanicsIf E (checked host p)
  unfolding checked
  checked-PanicsIf p = search (calm_rules, recover-PanicsIf, path_exists-PanicsIf)

  found_or-PanicsIf :
      (p : Text) (m : M W Text) → PanicsIf E m → (b : Bool) → PanicsIf E (found_or host p m b)
  unfolding found_or
  found_or-PanicsIf p m h true = search calm_rules
  found_or-PanicsIf p m h false = h

  first_existing-PanicsIf : (ps : List Text) → PanicsIf E (first_existing host ps)
  unfolding first_existing
  first_existing-PanicsIf [] = search calm_rules
  first_existing-PanicsIf (p ∷ ps) =
      >>=-PanicsIf (checked-PanicsIf p)
        (found_or-PanicsIf p (first_existing host ps) (first_existing-PanicsIf ps))

  pub verify_device_path-PanicsIf : (ps : List Text) → PanicsIf E (verify_device_path host ps)
  unfolding verify_device_path
  verify_device_path-PanicsIf ps =
      search (calm_rules, recover-PanicsIf, new_drives-PanicsIf, first_existing-PanicsIf)
