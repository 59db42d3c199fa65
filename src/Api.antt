-- ===== src/Api.antt =====
-- The Linode API as the driver sees it: the fields of linodego's types that the driver reads, and
-- the methods of `LinodeClient` (pkg/linode-client/linode_client.go) that it calls. The client is
-- not part of the repository, so it is a parameter over an outside world `W`: a method takes the
-- world and returns the next one. A pointer that a method returns may be nil.
pub mod Laws
pub mod Frame
pub mod Replies
use linode_blockstorage_csi.Common.{ℤ, Text, Option, List, Bool}
use linode_blockstorage_csi.Errors.{GoError}
use linode_blockstorage_csi.Effect.{Result}

pub record Volume : Type 0 where
  pub id : ℤ
  pub label : Text
  pub region : Text
  pub size : ℤ
  pub linode_id : Option ℤ
  pub filesystem_path : Text

-- `memory` is `Specs.Memory`, in megabytes; it is missing where `Specs` is nil.
pub record Instance : Type 0 where
  pub id : ℤ
  pub label : Text
  pub region : Text
  pub memory : Option ℤ

-- The filter is the JSON object {"label": l}, given by its label.
pub record ListOptions : Type 0 where
  pub page : ℤ
  pub page_size : ℤ
  pub label_filter : Option Text

pub record VolumeCreateOptions : Type 0 where
  pub region : Text
  pub label : Text
  pub size : ℤ
  pub encryption : Text
  pub tags : List Text

-- The one status that the driver waits for.
pub data VolumeStatus : Type 0 where
  volume_active : VolumeStatus

-- `(volume, err)` with both parts, for a caller that reads the volume before it looks at the error.
abbrev pub WaitReply : Type 0
WaitReply = Option Volume × Option GoError

-- A timeout is a number of seconds. `is_not_found` is linodego.IsNotFound, and `api_message` is the
-- message of an error that is a *linodego.Error.
pub record LinodeClient (W : Type 0) : Type 0 where
  pub list_volumes : ListOptions → W → Result (List Volume) × W
  pub list_instance_volumes : ℤ → W → Result (List Volume) × W
  pub list_instance_disks : ℤ → W → Result (List ℤ) × W
  pub get_region_capabilities : Text → W → Result (Option (List Text)) × W
  pub get_instance : ℤ → W → Result (Option Instance) × W
  pub get_volume : ℤ → W → Result (Option Volume) × W
  pub create_volume : VolumeCreateOptions → W → Result (Option Volume) × W
  pub clone_volume : ℤ → Text → W → Result (Option Volume) × W
  pub attach_volume : ℤ → ℤ → Bool → W → Result (Option Volume) × W
  pub detach_volume : ℤ → W → Result (Unit {0}) × W
  pub wait_for_volume_linode_id : ℤ → Option ℤ → ℤ → W → Result (Option Volume) × W
  pub wait_for_volume_status : ℤ → VolumeStatus → ℤ → W → WaitReply × W
  pub delete_volume : ℤ → W → Result (Unit {0}) × W
  pub resize_volume : ℤ → ℤ → W → Result (Unit {0}) × W
  pub is_not_found : GoError → Bool
  pub api_message : GoError → Option Text
