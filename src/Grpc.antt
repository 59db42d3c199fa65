-- ===== src/Grpc.antt =====
-- internal/driver/server.go: the gRPC server, its metrics server, and the wait group by which Run
-- waits for them. A fatal log line ends the process.
pub mod Waiting
use linode_blockstorage_csi.Common.{
  ℕ, zero, suc, ◌-◌, Text, codes, text_eq, any, Option, none, some, List, [], ◌∷◌, ◌++◌, Bool, true,
  false, ◌≡◌, if◌then◌else◌,
}
use linode_blockstorage_csi.Errors.{GoError, plain, end, cause, text}
use linode_blockstorage_csi.Effect.{Result, ok, err, M, pure, fail, lift, call, tell, ◌>>=◌, ◌>>◌}
use linode_blockstorage_csi.Linodego.{Url}

-- The operating system: a file is removed, and an address listened on.
pub record Network (W Listener : Type 0) : Type 0 where
  pub remove : Text → W → Result (Unit {0}) × W
  pub is_not_exist : GoError → Bool
  pub listen : Text → Text → W → Result Listener × W

-- The services that are registered with the server.
pub data Service : Type 0 where
  identity_service controller_service node_service : Service

-- A nil service is `false`.
registered : Bool → Bool → Bool → List Service
registered ids cs ns =
    (if ids then identity_service ∷ [] else [])
    ++ ((if cs then controller_service ∷ [] else []) ++ (if ns then node_service ∷ [] else []))

module _ {W Listener : Type 0} (net : Network W Listener) (parse_url : Text → Result Url) where
  -- A socket that is left over is removed.
  removed : Text → Result (Unit {0}) → M W Text
  removed addr (ok _) = pure addr
  removed addr (err e) =
      if net.is_not_exist e
      then pure addr
      else fail (plain "Failed to remove %s, error: %s" (text addr (cause e end)))

  address : Url → M W Text
  unfolding removed
  address u =
      if text_eq u.scheme (codes "unix")
      then tell (net.remove u.path) >>= removed u.path
      else if text_eq u.scheme (codes "tcp")
      then pure u.host
      else fail (plain "%v endpoint scheme not supported" (text u.scheme end))

  -- `serve`, up to the call that serves: the listener and the services. A failure is fatal.
  unfoldable pub serve : Text → Bool → Bool → Bool → M W (Listener × List Service)
  unfolding address registered
  serve endpoint ids cs ns = do
    u ← lift (elim (parse_url endpoint) [ ok u ↦ ok u | err e ↦ err (plain "%s" (cause e end)) ])
    addr ← address u
    listener ← call (λ e. plain "Failed to listen: %v" (cause e end)) (net.listen u.scheme addr)
    pure (listener, registered ids cs ns)

-- strconv.ParseBool; `none` is its error.
unfoldable pub parse_bool : Text → Option Bool
parse_bool s =
    if any (text_eq s)
      (codes "1" ∷ codes "t" ∷ codes "T" ∷ codes "TRUE" ∷ codes "true" ∷ codes "True" ∷ [])
    then some true
    else if any (text_eq s)
        (codes "0" ∷ codes "f" ∷ codes "F" ∷ codes "FALSE" ∷ codes "false" ∷ codes "False" ∷ [])
    then some false
    else none

-- A server or a goroutine: not there, at work, or ended.
pub data Phase : Type 0 where
  absent working ended : Phase

-- `nonBlockingGRPCServer`: the counter of the wait group, the two servers (`absent` is a nil
-- pointer, `ended` one that was stopped), and the goroutine of the metrics server.
pub record GrpcServer : Type 0 where
  pub wg : ℕ
  pub server : Phase
  pub metrics_server : Phase
  pub metrics_goroutine : Phase
  pub enable_metrics : Text
  pub metrics_port : Text

unfoldable pub new_non_blocking_grpc_server : GrpcServer
new_non_blocking_grpc_server = record {
  wg = 0;
  server = absent;
  metrics_server = absent;
  metrics_goroutine = absent;
  enable_metrics = [];
  metrics_port = [];
}

unfoldable pub set_metrics_config : Text → Text → GrpcServer → GrpcServer
set_metrics_config enable_metrics metrics_port g = record g {
  enable_metrics = enable_metrics;
  metrics_port = metrics_port;
}

with_metrics : Option Bool → GrpcServer → GrpcServer
with_metrics (some true) g = record g { metrics_goroutine = working }
with_metrics _ g = g

-- `Start`: one is added to the wait group for both goroutines.
unfoldable pub start : GrpcServer → GrpcServer
unfolding with_metrics
start g = with_metrics (parse_bool g.enable_metrics) (record g { wg = suc g.wg })

-- `Stop` and `ForceStop`: a nil server is followed, which is `none`. The tracer's shutdown is left
-- out.
unfoldable pub stop : GrpcServer → Option GrpcServer
stop g = elim g.server [
  | absent ↦ none
  | _ ↦ elim g.metrics_server [
    | absent ↦ none
    | _ ↦ some (record g { server = ended; metrics_server = ended })
  ]
]

-- What `serve` and `startMetricsServer`, the two goroutines, and a caller of `Stop` do, in any order.
-- The program itself calls `Stop` nowhere: it is part of the interface of the server.
pub data Step : GrpcServer → GrpcServer → Type 0 where
  -- `serve` has its listener, and sets the server.
  serves : {g : GrpcServer} → g.server ≡ absent → Step g (record g { server = working })
  -- `startMetricsServer` sets the metrics server.
  serves_metrics :
      {g : GrpcServer}
      → g.metrics_goroutine ≡ working
      → g.metrics_server ≡ absent
      → Step g (record g { metrics_server = working })
  -- The metrics server was stopped: its goroutine ends, and takes one off the wait group.
  metrics_end :
      {g : GrpcServer}
      → g.metrics_goroutine ≡ working
      → g.metrics_server ≡ ended
      → Step g (record g { metrics_goroutine = ended; wg = g.wg - 1 })
  -- `Stop` or `ForceStop` is called, and follows no nil pointer.
  stops : {g g' : GrpcServer} → stop g ≡ some g' → Step g g'

-- The states that a server with the configuration comes to once it was started.
pub data Reachable (enable_metrics metrics_port : Text) : GrpcServer → Type 0 where
  started :
      Reachable enable_metrics metrics_port
        (start (set_metrics_config enable_metrics metrics_port new_non_blocking_grpc_server))
  stepped :
      {g g' : GrpcServer}
      → Reachable enable_metrics metrics_port g
      → Step g g'
      → Reachable enable_metrics metrics_port g'

-- `Wait` returns.
abbrev pub IsOver : GrpcServer → Type 0
IsOver g = g.wg ≡ 0
