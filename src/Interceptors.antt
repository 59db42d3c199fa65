-- ===== src/Interceptors.antt =====
-- pkg/logger/logger.go (LogGRPC) and pkg/observability/tracker.go (the interceptor, the end of a
-- span, and the name of one): what every gRPC call passes through. Log lines and span events are
-- lists, the latest first; json.Marshal is a parameter.
pub mod Laws
use linode_blockstorage_csi.Common.{
  ℕ, ◌==◌, Text, codes, Option, none, some, List, [], ◌∷◌, ◌++◌, ◌≡◌, refl, arith, if◌then◌else◌,
}
use linode_blockstorage_csi.Errors.{GoError}
use linode_blockstorage_csi.Effect.{Result, ok, err}

pub data LogLine : Type 0 where
  grpc_call : Text → LogLine
  grpc_request grpc_response : LogLine
  grpc_error : GoError → LogLine

pub data SpanEvent : Type 0 where
  attribute : Text → Text → SpanEvent
  marshal_error : Text → GoError → SpanEvent
  recorded_error : GoError → SpanEvent
  error_status : GoError → SpanEvent
  ok_status : SpanEvent
  end_of_span : SpanEvent

-- The outside world, the log, and the span of the context, which may be nil.
pub record Context (W : Type 0) : Type 0 where
  pub world : W
  pub log : List LogLine
  pub span : Option (List SpanEvent)

-- A Go reply: a response that may be nil, and an error that may be nil.
abbrev pub Reply : Type 0 → Type 0
Reply A = Option A × Option GoError

abbrev pub Handler : Type 0 → Type 0 → Type 0 → Type 0
Handler W Req A = Req → Context W → Reply A × Context W

module _ {W : Type 0} where
  unfoldable pub log_line : LogLine → Context W → Context W
  log_line l c = record c { log = l ∷ c.log }

  unfoldable pub add_event : SpanEvent → Context W → Context W
  add_event e c = elim c.span [ none ↦ c | some es ↦ record c { span = some (e ∷ es) } ]

  -- An attribute with the JSON of a value, or with the error.
  unfoldable pub add_json : Text → Result Text → Context W → Context W
  unfolding add_event
  add_json key (ok s) = add_event (attribute key s)
  add_json key (err e) = add_event (marshal_error (key ++ codes ".error") e)

  unfoldable pub logged : {A : Type 0} → Reply A × Context W → Reply A × Context W
  unfolding log_line
  logged ((resp, none), c) = ((resp, none), log_line grpc_response c)
  logged ((resp, some e), c) = ((resp, some e), log_line (grpc_error e) c)

  unfoldable pub log_grpc : {Req A : Type 0} → Text → Handler W Req A → Handler W Req A
  unfolding logged log_line
  log_grpc method handler req c =
      logged (handler req (log_line grpc_request (log_line (grpc_call method) c)))

  unfoldable pub traced_error : {A : Type 0} → Reply A → Context W → Context W
  unfolding add_event
  traced_error (resp, none) c = add_event ok_status c
  traced_error (resp, some e) c = add_event (error_status e) (add_event (recorded_error e) c)

  unfoldable pub traced_response :
      {A : Type 0} → (A → Result Text) → Reply A → Context W → Context W
  unfolding add_json
  traced_response marshal (none, e) c = c
  traced_response marshal (some a, e) c = add_json (codes "grpc.response") (marshal a) c

  unfoldable pub traced :
      {A : Type 0} → (A → Result Text) → Reply A × Context W → Reply A × Context W
  unfolding traced_error traced_response
  traced marshal (r, c) = (r, traced_error r (traced_response marshal r c))

  -- UnaryServerInterceptorWithParams
  unfoldable pub unary_server_interceptor :
      {Req A : Type 0} → (Req → Result Text) → (A → Result Text) → Handler W Req A → Handler W Req A
  unfolding traced add_json
  unary_server_interceptor marshal_req marshal handler req c = elim c.span [
    | none ↦ handler req c
    | some es ↦ traced marshal (handler req (add_json (codes "grpc.request") (marshal_req req) c))
  ]

  -- The two interceptors of the server, in their order.
  unfoldable pub chain :
      {Req A : Type 0}
      → Text
      → (Req → Result Text)
      → (A → Result Text)
      → Handler W Req A
      → Handler W Req A
  unfolding log_grpc unary_server_interceptor
  chain method marshal_req marshal handler =
      log_grpc method (unary_server_interceptor marshal_req marshal handler)

  -- TraceFunctionData
  unfoldable pub set_attributes : List (Text × Text) → Context W → Context W
  unfolding add_event
  set_attributes [] c = c
  set_attributes ((k, v) ∷ params) c = set_attributes params (add_event (attribute k v) c)

  unfoldable pub trace_function_data : List (Text × Text) → Option GoError → Context W → Context W
  unfolding set_attributes add_event
  trace_function_data params none c =
      add_event end_of_span (add_event ok_status (set_attributes params c))
  trace_function_data params (some e) c =
      add_event end_of_span
        (add_event (recorded_error e) (add_event (error_status e) (set_attributes params c)))

-- A handler of the driver: it works on the outside world.
abbrev pub on_world : {W Req A : Type 0} → (Req → W → Reply A × W) → Handler W Req A
on_world g req c = let (r, w) = g req c.world in (r, record c { world = w })
