-- ===== src/Controller.antt =====
-- internal/driver/controllerserver.go and controllerserver_helper.go: the state of the controller
-- service and the functions that several of its operations share. Each operation has a module.
pub mod Provision
pub mod Create
pub mod Spec
pub mod Replies
pub mod Refinement
pub mod Delete
pub mod Publish
pub mod Unpublish
pub mod Expand
pub mod Query
pub mod Life
use linode_blockstorage_csi.Common.{
  ℕ, ℤ, pos, Text, codes, Dict, lookup, Option, none, some, List, [], ◌∷◌, Bool, true, false,
  is_empty, if◌then◌else◌,
}
use linode_blockstorage_csi.Csi.{
  AccessMode, single_node_writer, other_mode, VolumeCapability, TopologyRequirement,
}

-- The constants of the service: parameter keys, and the timeouts in seconds.
abbrev pub volume_tags : Text
volume_tags = codes "linodebs.csi.linode.com/volumeTags"

abbrev pub volume_topology_region : Text
volume_topology_region = codes "topology.linode.com/region"

abbrev pub device_path_key : Text
device_path_key = codes "devicePath"

abbrev pub volume_encryption : Text
volume_encryption = codes "linodebs.csi.linode.com/encrypted"

abbrev pub wait_timeout : ℤ
wait_timeout = pos 300

abbrev pub clone_timeout : ℤ
clone_timeout = pos 900

-- The fields of `ControllerServer` and of its driver and metadata that the operations read.
pub record Server : Type 0 where
  pub volume_label_prefix : Text
  pub region : Text

has_valid_mode : Option AccessMode → Bool
has_valid_mode none = false
has_valid_mode (some single_node_writer) = true
has_valid_mode (some (other_mode n)) = false

is_valid_capability : Option VolumeCapability → Bool
unfolding has_valid_mode
is_valid_capability none = false
is_valid_capability (some cap) = has_valid_mode cap.access_mode

unfoldable pub valid_volume_capabilities : List (Option VolumeCapability) → Bool
unfolding is_valid_capability
valid_volume_capabilities [] = true
valid_volume_capabilities (cap ∷ caps) =
    if is_valid_capability cap then valid_volume_capabilities caps else false

region_of_first : List Dict → Text
region_of_first [] = []
region_of_first (segments ∷ more) = elim (lookup volume_topology_region segments) [
  | none ↦ []
  | some region ↦ region
]

unfoldable pub get_region_from_topology : TopologyRequirement → Text
unfolding region_of_first
get_region_from_topology t = elim t.preferred [
  | [] ↦ region_of_first t.requisite
  | segments ∷ more ↦ region_of_first (segments ∷ more)
]

-- The region of a request: that of its topology, or else the controller's own.
unfoldable pub required_region : Server → Option TopologyRequirement → Text
required_region server none = server.region
required_region server (some t) =
    let topology_region = get_region_from_topology t in
    if is_empty topology_region then server.region else topology_region
