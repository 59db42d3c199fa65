-- ===== src/Driver.antt =====
-- internal/driver/driver.go, with the constructors of the three services and the tracer of
-- pkg/observability/tracker.go: how the driver is set up and run. The services point back to the
-- one driver of the process, so a service holds a reference, and reads the driver of the process.
pub mod Identity
pub mod Setup
pub mod Prefixes
pub mod Complete
use Prim.Native.String.{String}
use linode_blockstorage_csi.Common.{
  ℕ, ◌==◌, ltb, leb, pos, Text, codes, text_eq, is_empty, Option, none, some, List, [], ◌∷◌, Bool,
  true, false, ◌||◌, ◌&&◌, all, any, length, rune_count, if◌then◌else◌,
}
use linode_blockstorage_csi.Errors.{
  GoError, plain, status, invalid_argument, err_nil_driver, end, cause, number, text,
}
use linode_blockstorage_csi.Effect.{Result, ok, err}
use linode_blockstorage_csi.Csi.{AccessMode}
use linode_blockstorage_csi.Metadata.{Metadata}
use linode_blockstorage_csi.Capabilities.{
  ControllerRpc, unknown_rpc, NodeRpc, rpc_eq, controller_service_capabilities,
  node_service_capabilities, volume_capability_access_modes,
}

-- The types of what the driver is given and only passes on.
pub record Parts : Type 1 where
  pub Mounter : Type 0
  pub DeviceUtils : Type 0
  pub Client : Type 0
  pub Encryption : Type 0

-- A pointer to the driver of the process.
pub data DriverRef : Type 0 where
  the_driver : DriverRef

pub record NodeServer (parts : Parts) : Type 0 where
  pub driver : DriverRef
  pub mounter : parts.Mounter
  pub device_utils : parts.DeviceUtils
  pub client : parts.Client
  pub metadata : Metadata
  pub encrypt : parts.Encryption

pub record ControllerServer (parts : Parts) : Type 0 where
  pub driver : DriverRef
  pub client : parts.Client
  pub metadata : Metadata

pub record IdentityServer : Type 0 where
  pub driver : DriverRef

pub record LinodeDriver (parts : Parts) : Type 0 where
  pub name : Text
  pub vendor_version : Text
  pub volume_label_prefix : Text
  pub ns : Option (NodeServer parts)
  pub ids : Option IdentityServer
  pub cs : Option (ControllerServer parts)
  pub vcap : List AccessMode
  pub cscap : List ControllerRpc
  pub nscap : List NodeRpc
  pub ready : Bool
  pub enable_metrics : Text
  pub metrics_port : Text
  pub enable_tracing : Text
  pub tracing_port : Text

-- MaxVolumeLabelPrefixLength
abbrev pub max_volume_label_prefix_length : ℕ
max_volume_label_prefix_length = 12

abbrev pub is_prefix_char : ℕ → Bool
is_prefix_char c =
    (leb b'0' c && leb c b'9')
    || ((leb b'A' c && leb c b'Z') || ((leb b'a' c && leb c b'z') || ((c == b'_') || (c == b'-'))))

-- The regular expression `^[0-9A-Za-z_-]{0,12}$`; its characters are ASCII, so bytes.
unfoldable pub prefix_matches : Text → Bool
prefix_matches s = all is_prefix_char s && leb (length s) max_volume_label_prefix_length

unfoldable pub check_volume_label_prefix : Text → Result (Unit {0})
unfolding prefix_matches rune_count
check_volume_label_prefix s =
    if ltb max_volume_label_prefix_length (rune_count s)
    then err (
        plain "volume label prefix is too long: length=%d max=%d"
          (number (pos (rune_count s)) (number (pos max_volume_label_prefix_length) end)))
    else if prefix_matches s
    then ok tt
    else err (plain "volume label prefix may only contain: [A-Za-z0-9_-]" end)

module _ (parts : Parts) where
  -- GetLinodeDriver
  unfoldable pub get_linode_driver : LinodeDriver parts
  get_linode_driver = record {
    name = [];
    vendor_version = [];
    volume_label_prefix = [];
    ns = none;
    ids = none;
    cs = none;
    vcap = volume_capability_access_modes;
    cscap = controller_service_capabilities;
    nscap = node_service_capabilities;
    ready = false;
    enable_metrics = [];
    metrics_port = [];
    enable_tracing = [];
    tracing_port = [];
  }

module _ {parts : Parts} where
  -- A nil pointer or interface is `none`.
  unfoldable pub new_node_server :
      Option DriverRef
      → Option parts.Mounter
      → Option parts.DeviceUtils
      → Option parts.Client
      → Metadata
      → parts.Encryption
      → Result (NodeServer parts)
  new_node_server none mounter device_utils client metadata encrypt =
      err (plain "linodeDriver is nil" end)
  new_node_server (some d) none device_utils client metadata encrypt =
      err (plain "mounter is nil" end)
  new_node_server (some d) (some m) none client metadata encrypt =
      err (plain "deviceUtils is nil" end)
  new_node_server (some d) (some m) (some u) none metadata encrypt =
      err (plain "linode client is nil" end)
  new_node_server (some d) (some m) (some u) (some c) metadata encrypt = ok (record {
    driver = d;
    mounter = m;
    device_utils = u;
    client = c;
    metadata = metadata;
    encrypt = encrypt;
  })

  unfoldable pub new_controller_server :
      Option DriverRef → Option parts.Client → Metadata → Result (ControllerServer parts)
  new_controller_server none client metadata = err err_nil_driver
  new_controller_server (some d) none metadata = err (plain "nil client" end)
  new_controller_server (some d) (some c) metadata =
      ok (record { driver = d; client = c; metadata = metadata })

  -- ValidateControllerServiceRequest
  unfoldable pub validate_controller_service_request :
      LinodeDriver parts → ControllerRpc → Result (Unit {0})
  unfolding rpc_eq
  validate_controller_service_request driver rpc =
      if rpc_eq rpc unknown_rpc
      then ok tt
      else if any (rpc_eq rpc) driver.cscap
      then ok tt
      else err (status invalid_argument "Invalid controller service request" end)

unfoldable pub new_identity_server : Option DriverRef → Result IdentityServer
new_identity_server none = err (plain "linodeDriver cannot be nil" end)
new_identity_server (some d) = ok (record { driver = d })
