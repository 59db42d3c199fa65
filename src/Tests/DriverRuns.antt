-- ===== src/Tests/DriverRuns.antt =====
-- The theorems on the driver's set-up, its server and its interceptors, at small inputs.
use linode_blockstorage_csi.Common.{
  ◌≤◌, ℕ, pos, Text, codes, none, some, List, [], true, ◌≡◌, ◌≢◌, ◌↔◌, refl,
}
use linode_blockstorage_csi.Errors.{foreign}
use linode_blockstorage_csi.Effect.{ok, err}
use linode_blockstorage_csi.Metadata.{Metadata, memory_to_bytes}
use linode_blockstorage_csi.Driver.{Parts, get_linode_driver}
use linode_blockstorage_csi.Driver.Setup.{SetupArgs, Process, setup_linode_driver}
use linode_blockstorage_csi.Driver.Complete.{IsComplete, IsSetUp, setup_linode_driver_iff}
use linode_blockstorage_csi.Linodego.{Url}
use linode_blockstorage_csi.Grpc.{
  parse_bool, GrpcServer, Reachable, started, IsOver, stop, set_metrics_config,
  new_non_blocking_grpc_server,
}
use linode_blockstorage_csi.Grpc
use linode_blockstorage_csi.Grpc.Waiting.{Wait-returns_iff, Reachable_lem}
use linode_blockstorage_csi.Interceptors.{Context, Reply, chain, on_world}
use linode_blockstorage_csi.Interceptors.Laws.{chain_lem, HasLatest, status_of}

abbrev pub simple : Parts
simple = record {
  Mounter = Unit {0};
  DeviceUtils = Unit {0};
  Client = List Text;
  Encryption = Unit {0};
}

abbrev own : Metadata
own = record {
  id = pos 5;
  label = codes "node";
  region = codes "us-east";
  memory = memory_to_bytes (pos 8192);
}

abbrev args : SetupArgs simple
args = record {
  linode_client = some [];
  mounter = some tt;
  device_utils = some tt;
  metadata = own;
  name = codes "linodebs.csi.linode.com";
  vendor_version = codes "v1";
  volume_label_prefix = codes "k8s-";
  encrypt = tt;
  enable_metrics = codes "true";
  metrics_port = codes "8081";
  enable_tracing = [];
  tracing_port = codes "4318";
}

abbrev fresh : Process simple
fresh = record {
  driver = get_linode_driver simple;
  tracer = none;
  skip_observability = true;
  server = none;
}

setup_linode_driver_iff_example :
    let (r, p') = setup_linode_driver args fresh in
    ((r ≡ ok tt) ↔ IsComplete args) × (r ≡ ok tt → IsSetUp args fresh p')
setup_linode_driver_iff_example = setup_linode_driver_iff args fresh

Wait-returns_iff_example :
    ((g : GrpcServer) × Reachable (codes "true") (codes "8081") g × IsOver g)
    ↔ (parse_bool (codes "true") ≡ some true)
Wait-returns_iff_example = Wait-returns_iff (codes "true") (codes "8081")

abbrev begun : GrpcServer
begun = Grpc.start (set_metrics_config (codes "") (codes "8081") new_non_blocking_grpc_server)

Reachable_lem_example :
    (begun.wg ≤ 1)
    × (IsOver begun → (begun.metrics_server ≡ Grpc.ended) × (begun.server ≡ Grpc.ended))
    × (parse_bool (codes "") ≢ some true → stop begun ≡ none)
Reachable_lem_example = Reachable_lem (codes "") (codes "8081") begun started

-- The API's URL, as it is parsed.
abbrev pub api : Url
api = record { scheme = codes "https"; host = codes "api.linode.com"; path = codes "/v4/beta" }

abbrev twice : ℕ → ℕ → Reply ℕ × ℕ
twice req w = ((some req, none), req)

abbrev call : Context ℕ
call = record { world = 0; log = []; span = some [] }

chain_lem_example :
    let (r, c') =
      chain
        (codes "/csi.v1.Identity/Probe")
        (λ n. ok [])
        (λ n. err (foreign (pos 1)))
        (on_world twice)
        3
        call in
    (r ≡ (some 3, none)) × (c'.world ≡ 3) × HasLatest (status_of none) c'
chain_lem_example =
    chain_lem (λ n. err (foreign (pos 1))) twice 3 (codes "/csi.v1.Identity/Probe") (λ n. ok [])
      call [] refl
