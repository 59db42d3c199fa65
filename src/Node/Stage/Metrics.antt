-- ===== src/Node/Stage/Metrics.antt =====
-- `NodeStageVolume` records one sample.
use linode_blockstorage_csi.Common.{
  Text, is_empty, Bool, true, false, Bool-cases, List, inl, inr, if◌then◌else◌,
}
use linode_blockstorage_csi.Effect.{pure, node_stage_op}
use linode_blockstorage_csi.Effect.Samples.{
  IsQuiet, RecordsOne, quiet_rules, sample_rules, recover-IsQuiet,
}
use linode_blockstorage_csi.Volumes.{LinodeVolumeKey}
use linode_blockstorage_csi.Csi.{VolumeCapability}
use linode_blockstorage_csi.Devices.Metrics.{verify_device_path-IsQuiet}
use linode_blockstorage_csi.Host.{Host}
use linode_blockstorage_csi.Luks.{LuksContext}
use linode_blockstorage_csi.Luks.Metrics.{
  luks_format-IsQuiet, luks_open-IsQuiet, blkid_valid-IsQuiet,
}
use linode_blockstorage_csi.Node.{StageRequest, is_block}
use linode_blockstorage_csi.Node.Metrics.{ensure_mount_point-IsQuiet}
use linode_blockstorage_csi.Node.Stage.{
  found_path, find_device_path, luks_source, format_luks_volume, mount_volume, mount_if_needed,
  node_stage_volume,
}

module _ {W : Type 0} (host : Host W) where
  found_path-IsQuiet : (ps : List Text) (p : Text) → IsQuiet (found_path host ps p)
  unfolding found_path
  found_path-IsQuiet ps p = elim (Bool-cases (is_empty p)) [
    | inl h ↦ rw h (search quiet_rules)
    | inr h ↦ rw h (search quiet_rules)
  ]

  find_device_path-IsQuiet :
      (key : LinodeVolumeKey) (p : Text) → IsQuiet (find_device_path host key p)
  unfolding find_device_path
  find_device_path-IsQuiet key p =
      search (quiet_rules, recover-IsQuiet, found_path-IsQuiet, verify_device_path-IsQuiet)

  luks_source-IsQuiet : (c : LuksContext) (d : Text) (b : Bool) → IsQuiet (luks_source host c d b)
  unfolding luks_source
  luks_source-IsQuiet c d true = search (quiet_rules, recover-IsQuiet, luks_open-IsQuiet)
  luks_source-IsQuiet c d false = search (quiet_rules, recover-IsQuiet, luks_format-IsQuiet)

  format_luks_volume-IsQuiet : (d : Text) (c : LuksContext) → IsQuiet (format_luks_volume host d c)
  unfolding format_luks_volume
  format_luks_volume-IsQuiet d c =
      search (quiet_rules, recover-IsQuiet, luks_source-IsQuiet, blkid_valid-IsQuiet) depth 9

  source-IsQuiet :
      (b : Bool) (d : Text) (c : LuksContext)
      → IsQuiet (if b then format_luks_volume host d c else pure d)
  source-IsQuiet true d c = format_luks_volume-IsQuiet d c
  source-IsQuiet false d c = search quiet_rules

  mount_volume-IsQuiet :
      (d : Text) (req : StageRequest) (cap : VolumeCapability)
      → IsQuiet (mount_volume host d req cap)
  unfolding mount_volume
  mount_volume-IsQuiet d req cap = search (quiet_rules, source-IsQuiet)

  mount_if_needed-RecordsOne :
      (d : Text) (req : StageRequest) (cap : VolumeCapability) (b : Bool)
      → RecordsOne node_stage_op (mount_if_needed host d req cap b)
  unfolding mount_if_needed
  mount_if_needed-RecordsOne d req cap false = search sample_rules
  mount_if_needed-RecordsOne d req cap true = elim (Bool-cases (is_block cap.access_type)) [
    | inl h ↦ rw h (search sample_rules)
    | inr h ↦ rw h (search (sample_rules, mount_volume-IsQuiet))
  ]

  -- Unless it panics, `NodeStageVolume` records one sample, for its own operation, as
  -- completed or as failed.
  pub node_stage_volume-RecordsOne :
      (req : StageRequest) → RecordsOne node_stage_op (node_stage_volume host req)
  unfolding node_stage_volume
  node_stage_volume-RecordsOne req =
      search
        (
          sample_rules, find_device_path-IsQuiet, ensure_mount_point-IsQuiet,
          mount_if_needed-RecordsOne,
        )
        depth 12
