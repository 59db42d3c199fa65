-- ===== src/Node.antt =====
-- internal/driver/nodeserver.go and nodeserver_helpers.go: the requests of the node service, their
-- validation, and the steps that several operations share. Each operation has a module. The service
-- holds one lock for the whole of a stage, unstage, publish or unpublish call, so such a call runs
-- as one step.
pub mod Calm
pub mod Metrics
pub mod Stage
pub mod Unstage
pub mod Publish
pub mod Info
pub mod Spec
pub mod Replies
pub mod Refinement
pub mod Life
pub mod Changes
pub mod Kept
use linode_blockstorage_csi.Common.{
  ℕ, Text, codes, text_eq, is_empty, split_pair, Option, none, some, List, [], ◌∷◌, ◌++◌, Bool,
  true, false, Dict, if◌then◌else◌,
}
use linode_blockstorage_csi.Errors.{
  GoError, plain, err_internal, err_no_volume_id, err_no_staging_target_path, err_no_target_path,
  err_no_volume_capability, err_no_volume_path, end, text, cause,
}
use linode_blockstorage_csi.Effect.{Result, ok, err, M, pure, fail, lift, call, tell, ◌>>=◌, ◌>>◌}
use linode_blockstorage_csi.Csi.{
  VolumeCapability, AccessType, no_access, block_access, mount_access,
}
use linode_blockstorage_csi.Host.{Host}

-- The requests, with the fields that the service reads.
pub record StageRequest : Type 0 where
  pub volume_id : Text
  pub staging_target_path : Text
  pub volume_capability : Option VolumeCapability
  pub volume_context : Dict
  pub secrets : Dict

pub record PublishRequest : Type 0 where
  pub volume_id : Text
  pub staging_target_path : Text
  pub target_path : Text
  pub volume_capability : Option VolumeCapability
  pub readonly : Bool
  pub publish_context : Dict

-- os.FileMode(0o755) and os.FileMode(0o660)
abbrev pub rw_permission : ℕ
rw_permission = 0o755

abbrev pub owner_group_read_write_permissions : ℕ
owner_group_read_write_permissions = 0o660

abbrev pub default_fs_type : Text
default_fs_type = codes "ext4"

needs_capability : Option VolumeCapability → Result VolumeCapability
needs_capability none = err err_no_volume_capability
needs_capability (some c) = ok c

-- A valid request has a capability, which is returned.
unfoldable pub validate_node_stage_volume_request : StageRequest → Result VolumeCapability
unfolding needs_capability
validate_node_stage_volume_request req =
    if is_empty req.volume_id
    then err err_no_volume_id
    else if is_empty req.staging_target_path
    then err err_no_staging_target_path
    else needs_capability req.volume_capability

unfoldable pub validate_node_publish_volume_request : PublishRequest → Result VolumeCapability
unfolding needs_capability
validate_node_publish_volume_request req =
    if is_empty req.volume_id
    then err err_no_volume_id
    else if is_empty req.staging_target_path
    then err err_no_staging_target_path
    else if is_empty req.target_path
    then err err_no_target_path
    else needs_capability req.volume_capability

-- The requests to unstage, expand and unpublish: a volume id and one path.
validate_two : GoError → Text → Text → Result (Unit {0})
validate_two missing volume_id path =
    if is_empty volume_id
    then err err_no_volume_id
    else if is_empty path
    then err missing
    else ok tt

unfoldable pub validate_node_unstage_volume_request : Text → Text → Result (Unit {0})
unfolding validate_two
validate_node_unstage_volume_request = validate_two err_no_staging_target_path

unfoldable pub validate_node_expand_volume_request : Text → Text → Result (Unit {0})
unfolding validate_two
validate_node_expand_volume_request = validate_two err_no_volume_path

unfoldable pub validate_node_unpublish_volume_request : Text → Text → Result (Unit {0})
unfolding validate_two
validate_node_unpublish_volume_request = validate_two err_no_target_path

-- The type and the flags that a capability names.
fs_type_of : AccessType → Text
fs_type_of (mount_access [] flags) = default_fs_type
fs_type_of (mount_access (c ∷ t) flags) = c ∷ t
fs_type_of no_access = default_fs_type
fs_type_of block_access = default_fs_type

flags_of : AccessType → List Text
flags_of (mount_access t (some flags)) = flags
flags_of (mount_access t none) = []
flags_of no_access = []
flags_of block_access = []

unfoldable pub get_fs_type_and_mount_options : VolumeCapability → Text × List Text
unfolding fs_type_of flags_of
get_fs_type_and_mount_options cap =
    let fs_type = fs_type_of cap.access_type in
    let flags = flags_of cap.access_type in
    (fs_type, (if text_eq fs_type (codes "xfs") then flags ++ codes "nouuid" ∷ [] else flags))

abbrev pub is_block : AccessType → Bool
is_block block_access = true
is_block no_access = false
is_block (mount_access t flags) = false

-- The part of a volume id behind its first dash.
unfoldable pub get_mount_source : Text → Result Text
get_mount_source input = elim (split_pair b'-' input) [
  | none ↦ err (plain "invalid input format: %s" (text input end))
  | some (id, name) ↦ ok name
]

module _ {W : Type 0} (host : Host W) where
  checked_mount_point : Text → Bool × Option GoError → M W Bool
  checked_mount_point path (not_mnt, none) = pure not_mnt
  checked_mount_point path (not_mnt, some e) =
      if host.fs.is_not_exist e
      then (do
        call (λ e'. err_internal "Failed to create directory (%q): %v" (text path (cause e' end)))
            (host.fs.mkdir_all path rw_permission)
        pure not_mnt)
      else fail (
          err_internal "Unknown error when checking mount point (%q): %v" (text path (cause e end)))

  -- Whether the path is not a mount point; a path that does not exist is made.
  unfoldable pub ensure_mount_point : Text → M W Bool
  unfolding checked_mount_point
  ensure_mount_point path = do
    r ← tell (host.mounter.is_likely_not_mount_point path)
    checked_mount_point path r
