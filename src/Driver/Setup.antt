-- ===== src/Driver/Setup.antt =====
-- internal/driver/driver.go: SetupLinodeDriver and Run, with the tracing variables of
-- pkg/observability/tracker.go. What was set before an error stays set.
use linode_blockstorage_csi.Common.{
  Text, codes, text_eq, is_empty, Option, none, some, Bool, true, false, ◌++◌, if◌then◌else◌,
}
use linode_blockstorage_csi.Errors.{plain, end, cause}
use linode_blockstorage_csi.Effect.{Result, ok, err}
use linode_blockstorage_csi.Luks.{true_text}
use linode_blockstorage_csi.Metadata.{Metadata}
use linode_blockstorage_csi.Grpc.{
  GrpcServer, new_non_blocking_grpc_server, set_metrics_config, start,
}
use linode_blockstorage_csi.Driver.{
  Parts, the_driver, LinodeDriver, new_node_server, new_identity_server, new_controller_server,
  check_volume_label_prefix,
}

-- The global tracer: the endpoint of its exporter, and its service.
pub record Tracer : Type 0 where
  pub endpoint : Text
  pub service_name : Text
  pub service_version : Text

-- A server that Run started, and the endpoint that it is given.
pub record Running : Type 0 where
  pub endpoint : Text
  pub grpc : GrpcServer

-- The driver, the variables `Tracer` and `SkipObservability` of the process, and the server of Run,
-- which is `none` before.
pub record Process (parts : Parts) : Type 0 where
  pub driver : LinodeDriver parts
  pub tracer : Option Tracer
  pub skip_observability : Bool
  pub server : Option Running

-- The arguments of SetupLinodeDriver; a nil pointer is `none`.
pub record SetupArgs (parts : Parts) : Type 0 where
  pub linode_client : Option parts.Client
  pub mounter : Option parts.Mounter
  pub device_utils : Option parts.DeviceUtils
  pub metadata : Metadata
  pub name : Text
  pub vendor_version : Text
  pub volume_label_prefix : Text
  pub encrypt : parts.Encryption
  pub enable_metrics : Text
  pub metrics_port : Text
  pub enable_tracing : Text
  pub tracing_port : Text

module _ {parts : Parts} where
  -- InitTracer; a failure to make the exporter is only logged.
  unfoldable pub init_tracer : Text → Text → Text → Process parts → Process parts
  init_tracer service_name service_version port p = record p {
    tracer = some (record {
      endpoint = codes "otel-collector:" ++ port;
      service_name = service_name;
      service_version = service_version;
    });
  }

  unfoldable pub set_tracing : SetupArgs parts → Process parts → Process parts
  unfolding init_tracer
  set_tracing args p =
      if text_eq args.enable_tracing true_text
      then record (init_tracer (codes "linode-csi-driver") p.driver.vendor_version args.tracing_port
          p) { skip_observability = false }
      else p

  unfoldable pub set_observability :
      SetupArgs parts → Process parts → Result (Unit {0}) × Process parts
  unfolding set_tracing
  set_observability args p = (
    ok tt,
    set_tracing args (record p {
      driver = record p.driver {
        enable_metrics = args.enable_metrics;
        metrics_port = args.metrics_port;
        enable_tracing = args.enable_tracing;
        tracing_port = args.tracing_port;
      };
    }),
  )

  -- An error leaves `cs` as it was; `ns` and `ids` are set to nil by one.
  unfoldable pub set_controller_server :
      SetupArgs parts → Process parts → Result (Unit {0}) × Process parts
  unfolding set_observability
  set_controller_server args p =
      elim (new_controller_server (some the_driver) args.linode_client args.metadata) [
        | err e ↦ (err (plain "new controller server: %w" (cause e end)), p)
        | ok cs ↦ set_observability args (record p { driver = record p.driver { cs = some cs } })
      ]

  unfoldable pub set_identity_server :
      SetupArgs parts → Process parts → Result (Unit {0}) × Process parts
  unfolding set_controller_server
  set_identity_server args p = elim (new_identity_server (some the_driver)) [
    | err e ↦ (
      err (plain "new identity server: %w" (cause e end)),
      record p { driver = record p.driver { ids = none } },
    )
    | ok ids ↦ set_controller_server args (record p { driver = record p.driver { ids = some ids } })
  ]

  unfoldable pub set_node_server :
      SetupArgs parts → Process parts → Result (Unit {0}) × Process parts
  unfolding set_identity_server
  set_node_server args p =
      elim (new_node_server (some the_driver) args.mounter args.device_utils args.linode_client
        args.metadata args.encrypt) [
          | err e ↦ (
            err (plain "new node server: %w" (cause e end)),
            record p { driver = record p.driver { ns = none } },
          )
          | ok ns ↦
              set_identity_server args (record p { driver = record p.driver { ns = some ns } })
        ]

  unfoldable pub set_prefix : SetupArgs parts → Process parts → Result (Unit {0}) × Process parts
  unfolding set_node_server
  set_prefix args p = elim (check_volume_label_prefix args.volume_label_prefix) [
    | err e ↦ (err e, p)
    | ok _ ↦
        set_node_server args
          (record p { driver = record p.driver { volume_label_prefix = args.volume_label_prefix } })
  ]

  unfoldable pub setup_linode_driver :
      SetupArgs parts → Process parts → Result (Unit {0}) × Process parts
  unfolding set_prefix
  setup_linode_driver args p =
      if is_empty args.name
      then (err (plain "driver name missing" end), p)
      else set_prefix args (record p {
        driver = record p.driver { name = args.name; vendor_version = args.vendor_version };
      })

  -- The server that Run makes and starts.
  unfoldable pub run_server : LinodeDriver parts → GrpcServer
  run_server driver =
      start
        (set_metrics_config driver.enable_metrics driver.metrics_port new_non_blocking_grpc_server)

  -- Run, up to `Wait`: the driver is ready, and the server is started at the endpoint.
  unfoldable pub run : Text → Process parts → Process parts
  unfolding run_server
  run endpoint p = record p {
    driver = record p.driver { ready = true };
    server = some (record { endpoint = endpoint; grpc = run_server p.driver });
  }
