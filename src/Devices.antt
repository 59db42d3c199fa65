-- ===== src/Devices.antt =====
-- pkg/device-manager/device.go: the paths under which a volume's device may appear, and which of
-- them exists.
pub mod Laws
pub mod Calm
pub mod Kept
pub mod Metrics
use linode_blockstorage_csi.Common.{
  Text, codes, text_eq, contains, is_empty, List, [], ◌∷◌, ◌++◌, map, any, Bool, true, false,
  Option, none, some, if◌then◌else◌,
}
use linode_blockstorage_csi.Errors.{GoError, plain, end, text, cause}
use linode_blockstorage_csi.Effect.{
  Result, ok, err, Outcome, M, pure, fail, lift, call, tell, ◌>>=◌, ◌>>◌, recover,
}
use linode_blockstorage_csi.Paths.{join}
use linode_blockstorage_csi.Host.{Host}

abbrev pub disk_by_id_path : Text
disk_by_id_path = codes "/dev/disk/by-id/"

abbrev pub disk_linode_prefix : Text
disk_linode_prefix = codes "linode-"

abbrev pub disk_scsi_linode_prefix : Text
disk_scsi_linode_prefix = codes "scsi-0Linode_Volume_"

abbrev pub disk_partition_suffix : Text
disk_partition_suffix = codes "-part"

abbrev pub disk_sd_path : Text
disk_sd_path = codes "/dev/sd"

abbrev pub disk_sd_pattern : Text
disk_sd_pattern = codes "/dev/sd*"

unfoldable pub get_disk_by_id_paths : Text → Text → List Text
get_disk_by_id_paths device_name partition =
    let paths : List Text =
      join disk_by_id_path (disk_linode_prefix ++ device_name)
      ∷ join disk_by_id_path (disk_scsi_linode_prefix ++ device_name)
      ∷ [] in
    if is_empty partition then paths else map (λ p. p ++ (disk_partition_suffix ++ partition)) paths

-- The first drive that was not there before.
first_new : List Text → List Text → Option Text
first_new before [] = none
first_new before (sd ∷ sds) =
    if any (λ b. text_eq b sd) before then first_new before sds else some sd

module _ {W : Type 0} (host : Host W) where
  unfoldable pub udevadm_change_to_drive : Text → M W (Unit {0})
  udevadm_change_to_drive path = do
    drive ←
        call (λ e. plain "eval symlinks %q: %w" (text path (cause e end)))
          (host.fs.eval_symlinks path)
    lift (
        if contains drive disk_sd_path
        then ok tt
        else err (
            plain "invalid disk %q: path must start with %q"
              (text drive (text disk_sd_pattern end))))
    call (λ e. plain "udevadm trigger failed for %q: %w" (text drive (cause e end)))
        (host.exec.run (codes "udevadm") (
          codes "trigger"
          ∷ codes "--action=change"
          ∷ (codes "--property-match=DEVNAME=" ++ drive)
          ∷ []))

  trigger : Option Text → M W (Unit {0})
  unfolding udevadm_change_to_drive
  trigger none = pure tt
  trigger (some sd) = udevadm_change_to_drive sd

  unfoldable pub udevadm_change_to_new_drives : List Text → M W (Unit {0})
  unfolding first_new trigger
  udevadm_change_to_new_drives before = do
    after ←
        call (λ e. plain "error filepath.Glob(\"%s\"): %w" (text disk_sd_pattern (cause e end)))
          (host.fs.glob disk_sd_pattern)
    trigger (first_new before after)

  -- What a stat of the path says: it exists, it does not, or the error is another one.
  unfoldable pub stat_result : Result (Unit {0}) → Result Bool
  stat_result (ok _) = ok true
  stat_result (err e) = if host.fs.is_not_exist e then ok false else err e

  unfoldable pub path_exists : Text → M W Bool
  unfolding stat_result
  path_exists path = do r ← tell (host.fs.stat path); lift (stat_result r)

  found_or : Text → M W Text → Bool → M W Text
  found_or path rest true = pure path
  found_or path rest false = rest

  checked : Text → M W Bool
  checked path = do
    r ← recover (path_exists path)
    lift (elim r [
      | ok b ↦ ok b
      | err e ↦ err (plain "error checking if path exists: %w" (cause e end))
    ])

  unfoldable pub first_existing : List Text → M W Text
  unfolding checked found_or
  first_existing [] = pure []
  first_existing (p ∷ ps) = checked p >>= found_or p (first_existing ps)

  glob_or_nil : Result (List Text) → List Text
  glob_or_nil (ok l) = l
  glob_or_nil (err e) = []

  -- Errors of the first glob and of udevadm are logged and passed over.
  unfoldable pub verify_device_path : List Text → M W Text
  unfolding glob_or_nil udevadm_change_to_new_drives first_existing
  verify_device_path paths = do
    r ← tell (host.fs.glob disk_sd_pattern)
    recover (udevadm_change_to_new_drives (glob_or_nil r))
    first_existing paths
