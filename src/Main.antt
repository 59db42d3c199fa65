-- ===== src/Main.antt =====
-- main.go: the configuration, and `handle`, which puts the driver together. The environment, the
-- libraries and the machine are parameters.
use linode_blockstorage_csi.Common.{
  Text, codes, is_empty, Option, none, some, true, ◌++◌, if◌then◌else◌,
}
use linode_blockstorage_csi.Errors.{GoError, plain, end, cause}
use linode_blockstorage_csi.Effect.{Result, ok, err, M, pure, fail, lift, ◌>>=◌, ◌>>◌, recover}
use linode_blockstorage_csi.Api.{LinodeClient}
use linode_blockstorage_csi.Host.{FileSystem}
use linode_blockstorage_csi.Linodego.{Url, Linodego, new_linode_client}
use linode_blockstorage_csi.Metadata.{Metadata, MetadataService, get_node_metadata}
use linode_blockstorage_csi.Driver.{Parts, LinodeDriver, get_linode_driver}
use linode_blockstorage_csi.Driver.Setup.{SetupArgs, Process, setup_linode_driver, run}
pub mod Laws
pub mod Starts

-- `configuration`; the deprecated node name is not used.
pub record Configuration : Type 0 where
  pub csi_endpoint : Text
  pub linode_token : Text
  pub linode_url : Text
  pub volume_label_prefix : Text
  pub node_name : Text
  pub enable_metrics : Text
  pub metrics_port : Text
  pub enable_tracing : Text
  pub tracing_port : Text

-- `Name` of internal/driver/driver.go.
abbrev pub driver_name : Text
driver_name = codes "linodebs.csi.linode.com"

-- `var name default` is what envflag gives for a variable; `api_host` is linodego's default.
unfoldable pub load_config : Text → (Text → Text → Text) → Configuration
load_config api_host var = record {
  csi_endpoint = var (codes "CSI_ENDPOINT") (codes "unix:/tmp/csi.sock");
  linode_token = var (codes "LINODE_TOKEN") (codes "");
  linode_url = var (codes "LINODE_URL") api_host;
  volume_label_prefix = var (codes "LINODE_VOLUME_LABEL_PREFIX") (codes "");
  node_name = var (codes "NODE_NAME") (codes "");
  enable_metrics = var (codes "ENABLE_METRICS") (codes "");
  metrics_port = var (codes "METRICS_PORT") (codes "8081");
  enable_tracing = var (codes "OTEL_TRACING") (codes "");
  tracing_port = var (codes "OTEL_TRACING_PORT") (codes "4318");
}

-- What `handle` is given by the libraries and the machine.
pub record Platform (W : Type 0) (parts : Parts) : Type 0 where
  pub lib : Linodego parts.Client
  pub calls : parts.Client → LinodeClient W
  pub parse_url : Text → Result Url
  pub service : MetadataService W
  pub file_system : FileSystem W
  pub mounter : parts.Mounter
  pub device_utils : parts.DeviceUtils
  pub encrypt : parts.Encryption

module _ {W : Type 0} {parts : Parts} (platform : Platform W parts) where
  open platform use {lib, calls, parse_url, service, file_system, mounter, device_utils, encrypt}

  abbrev pub setup_args : Text → Configuration → parts.Client → Metadata → SetupArgs parts
  setup_args vendor_version cfg client metadata = record {
    linode_client = some client;
    mounter = some mounter;
    device_utils = some device_utils;
    metadata = metadata;
    name = driver_name;
    vendor_version = vendor_version;
    volume_label_prefix = cfg.volume_label_prefix;
    encrypt = encrypt;
    enable_metrics = cfg.enable_metrics;
    metrics_port = cfg.metrics_port;
    enable_tracing = cfg.enable_tracing;
    tracing_port = cfg.tracing_port;
  }

  -- An error of a step is wrapped.
  unfoldable pub wrapped : {A : Type 0} → (GoError → GoError) → Result A → Result A
  wrapped wrap (ok a) = ok a
  wrapped wrap (err e) = err (wrap e)

  -- The process starts with no tracer and no server.
  abbrev pub process : Process parts
  process = record {
    driver = get_linode_driver parts;
    tracer = none;
    skip_observability = true;
    server = none;
  }

  unfoldable pub set_up_and_run : Text → Result (Unit {0}) × Process parts → M W (Process parts)
  set_up_and_run endpoint (err e, p) = fail (plain "setup driver: %w" (cause e end))
  set_up_and_run endpoint (ok _, p) = pure (run endpoint p)

  unfoldable pub make_client : Text → Configuration → M W parts.Client
  unfolding wrapped
  make_client vendor_version cfg = lift (
      wrapped (λ e. plain "failed to set up linode client: %w" (cause e end))
        (new_linode_client lib parse_url cfg.linode_token (codes "LinodeCSI/" ++ vendor_version)
          cfg.linode_url))

  abbrev pub wrap_metadata : Result Metadata → M W Metadata
  wrap_metadata r = lift (wrapped (λ e. plain "failed to get node metadata: %w" (cause e end)) r)

  unfoldable pub find_metadata : parts.Client → M W Metadata
  unfolding wrapped
  find_metadata client =
      recover (get_node_metadata service (some (calls client)) file_system) >>= wrap_metadata

  abbrev pub with_metadata : Text → Configuration → parts.Client → Metadata → M W (Process parts)
  with_metadata vendor_version cfg client metadata =
      set_up_and_run cfg.csi_endpoint
        (setup_linode_driver (setup_args vendor_version cfg client metadata) process)

  abbrev pub with_client : Text → Configuration → parts.Client → M W (Process parts)
  with_client vendor_version cfg client =
      find_metadata client >>= with_metadata vendor_version cfg client

  unfoldable pub from_config : Text → Configuration → M W (Process parts)
  unfolding set_up_and_run make_client find_metadata
  from_config vendor_version cfg =
      if is_empty cfg.linode_token
      then fail (plain "linode token required" end)
      else make_client vendor_version cfg >>= with_client vendor_version cfg

  -- `handle`, up to the wait for the server that it starts.
  unfoldable pub handle : Text → Text → (Text → Text → Text) → M W (Process parts)
  unfolding from_config
  handle vendor_version api_host var =
      if is_empty vendor_version
      then fail (plain "vendorVersion must be set at compile time" end)
      else from_config vendor_version (load_config api_host var)
