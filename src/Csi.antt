-- ===== src/Csi.antt =====
-- The requests and responses of the CSI services, with the fields that the driver reads or writes.
-- A pointer that may be nil is an `Option`.
use linode_blockstorage_csi.Common.{ℕ, ℤ, Text, Dict, Option, List, Bool}
use linode_blockstorage_csi.Capacity.{CapacityRange}

pub data AccessMode : Type 0 where
  single_node_writer : AccessMode
  other_mode : ℕ → AccessMode

-- `mount_access` has the file system type and the mount flags, which may be a nil slice.
pub data AccessType : Type 0 where
  no_access : AccessType
  block_access : AccessType
  mount_access : Text → Option (List Text) → AccessType

pub record VolumeCapability : Type 0 where
  pub access_mode : Option AccessMode
  pub access_type : AccessType

-- A topology is its map of segments.
pub record TopologyRequirement : Type 0 where
  pub preferred : List Dict
  pub requisite : List Dict

-- `volume_source` has the id of the source volume, if the pointer inside is not nil.
pub data ContentSource : Type 0 where
  volume_source : Option Text → ContentSource
  other_source : ContentSource

pub record CreateVolumeRequest : Type 0 where
  pub name : Text
  pub volume_capabilities : List (Option VolumeCapability)
  pub capacity_range : Option CapacityRange
  pub parameters : Dict
  pub accessibility_requirements : Option TopologyRequirement
  pub content_source : Option ContentSource

pub record CsiVolume : Type 0 where
  pub volume_id : Text
  pub capacity_bytes : ℤ
  pub accessible_topology : List Dict
  pub volume_context : Dict
  pub content_source : Option Text

pub record PublishRequest : Type 0 where
  pub volume_id : Text
  pub node_id : Text
  pub volume_capability : Option VolumeCapability

pub record ListVolumesRequest : Type 0 where
  pub max_entries : ℤ
  pub starting_token : Text

pub record ListEntry : Type 0 where
  pub volume : CsiVolume
  pub published_node_ids : List Text
  pub abnormal : Bool

pub record ListVolumesResponse : Type 0 where
  pub entries : List ListEntry
  pub next_token : Text

pub record ExpandResponse : Type 0 where
  pub capacity_bytes : ℤ
  pub node_expansion_required : Bool
