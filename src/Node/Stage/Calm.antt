-- ===== src/Node/Stage/Calm.antt =====
-- When `NodeStageVolume` panics: on an encrypted volume that is to be formatted with a cipher that
-- has no dash.
use linode_blockstorage_csi.Node.Spec.{luks_of}
use linode_blockstorage_csi.Common.{
  split_pair, none, ◌≡◌, refl, Text, is_empty, Bool, true, false, Bool-cases, List, inl, inr,
  if◌then◌else◌,
}
use linode_blockstorage_csi.Errors.{GoError}
use linode_blockstorage_csi.Effect.{M, pure}
use linode_blockstorage_csi.Effect.Panics.{PanicsIf, calm_rules}
use linode_blockstorage_csi.Volumes.{LinodeVolumeKey}
use linode_blockstorage_csi.Csi.{VolumeCapability}
use linode_blockstorage_csi.Devices.Calm.{verify_device_path-PanicsIf}
use linode_blockstorage_csi.Host.{Host}
use linode_blockstorage_csi.Luks.{LuksContext}
use linode_blockstorage_csi.Luks.Calm.{
  luks_format-PanicsIf, luks_open-PanicsIf, blkid_valid-PanicsIf,
}
use linode_blockstorage_csi.Node.{StageRequest, is_block}
use linode_blockstorage_csi.Node.Calm.{ensure_mount_point-PanicsIf}
use linode_blockstorage_csi.Node.Stage.{
  wrapped, found_path, find_device_path, luks_source, format_luks_volume, mount_volume,
  mount_if_needed, node_stage_volume,
}

-- An encrypted volume whose cipher has no dash.
abbrev pub IsUndashed : StageRequest → Type 0
IsUndashed req =
    ((luks_of req).encryption_enabled ≡ true)
    × (split_pair b'-' (luks_of req).encryption_cipher ≡ none)

module _ {W : Type 0} (host : Host W) (E : Type 0) where
  wrapped-PanicsIf :
      {A : Type 0} (wrap : GoError → GoError) {m : M W A}
      → PanicsIf E m
      → PanicsIf E (wrapped host wrap m)
  unfolding wrapped
  wrapped-PanicsIf wrap h = search (calm_rules)

  found_path-PanicsIf : (ps : List Text) (p : Text) → PanicsIf E (found_path host ps p)
  unfolding found_path
  found_path-PanicsIf ps p = elim (Bool-cases (is_empty p)) [
    | inl h ↦ rw h (search calm_rules)
    | inr h ↦ rw h (search calm_rules)
  ]

  find_device_path-PanicsIf :
      (key : LinodeVolumeKey) (p : Text) → PanicsIf E (find_device_path host key p)
  unfolding find_device_path
  find_device_path-PanicsIf key p =
      search (calm_rules, found_path-PanicsIf, verify_device_path-PanicsIf)

  module _ (c : LuksContext) (d : Text)
      (undashed : split_pair b'-' c.encryption_cipher ≡ none → E) where
    luks_source-PanicsIf : (b : Bool) → PanicsIf E (luks_source host c d b)
    unfolding luks_source
    luks_source-PanicsIf true = search (calm_rules, luks_open-PanicsIf)
    luks_source-PanicsIf false = wrapped-PanicsIf _ (luks_format-PanicsIf host E c d undashed)

    format_luks_volume-PanicsIf : PanicsIf E (format_luks_volume host d c)
    unfolding format_luks_volume
    format_luks_volume-PanicsIf =
        search (calm_rules, luks_source-PanicsIf, blkid_valid-PanicsIf) depth 9

  module _ (req : StageRequest) (undashed : IsUndashed req → E) where
    source-PanicsIf :
        (b : Bool) (d : Text)
        → (luks_of req).encryption_enabled ≡ b
        → PanicsIf E (if b then format_luks_volume host d (luks_of req) else pure d)
    source-PanicsIf true d on = format_luks_volume-PanicsIf (luks_of req) d (λ h. undashed (on, h))
    source-PanicsIf false d on = search calm_rules

    unlocked-PanicsIf :
        (d : Text)
        → PanicsIf E (
            if (luks_of req).encryption_enabled
            then format_luks_volume host d (luks_of req)
            else pure d)
    unlocked-PanicsIf d = source-PanicsIf (luks_of req).encryption_enabled d refl

    mount_volume-PanicsIf :
        (d : Text) (cap : VolumeCapability) → PanicsIf E (mount_volume host d req cap)
    unfolding mount_volume
    mount_volume-PanicsIf d cap = search (calm_rules, unlocked-PanicsIf)

    mount_if_needed-PanicsIf :
        (d : Text) (cap : VolumeCapability) (b : Bool)
        → PanicsIf E (mount_if_needed host d req cap b)
    unfolding mount_if_needed
    mount_if_needed-PanicsIf d cap false = search calm_rules
    mount_if_needed-PanicsIf d cap true = elim (Bool-cases (is_block cap.access_type)) [
      | inl h ↦ rw h (search calm_rules)
      | inr h ↦ rw h (search (calm_rules, mount_volume-PanicsIf))
    ]

    pub node_stage_volume-PanicsIf : PanicsIf E (node_stage_volume host req)
    unfolding node_stage_volume
    node_stage_volume-PanicsIf =
        search
          (
            calm_rules, find_device_path-PanicsIf, ensure_mount_point-PanicsIf,
            mount_if_needed-PanicsIf,
          )
          depth 12
