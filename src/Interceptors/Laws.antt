-- ===== src/Interceptors/Laws.antt =====
-- What the interceptors leave of a call.
use linode_blockstorage_csi.Common.{
  Text, codes, Option, none, some, Option-cases, List, ◌∷◌, ◌≡◌, refl, sym, ◌∙◌, inl, inr,
}
use mathlib.Core.Path.{subst}
use linode_blockstorage_csi.Errors.{GoError}
use linode_blockstorage_csi.Effect.{Result, ok, err}
use linode_blockstorage_csi.Interceptors.{
  grpc_request, grpc_call, SpanEvent, ok_status, error_status, Context, Reply, log_line, add_event,
  add_json, logged, log_grpc, traced_error, traced_response, traced, unary_server_interceptor,
  chain, on_world,
}

-- The status that a span ends with.
abbrev pub status_of : Option GoError → SpanEvent
status_of none = ok_status
status_of (some e) = error_status e

module _ {W : Type 0} where
  -- A span is there, and one event is the latest.
  abbrev pub HasLatest : SpanEvent → Context W → Type 0
  HasLatest e c = (es : List SpanEvent) × (c.span ≡ some (e ∷ es))

  HasSpan : Context W → Type 0
  HasSpan c = (es : List SpanEvent) × (c.span ≡ some es)

  add_event-HasLatest : (e : SpanEvent) (c : Context W) → HasSpan c → HasLatest e (add_event e c)
  unfolding add_event HasSpan
  add_event-HasLatest e c (es, h) = (es, rw (add_event, h) refl)

  add_event-HasSpan : (e : SpanEvent) (c : Context W) → HasSpan c → HasSpan (add_event e c)
  unfolding HasSpan
  add_event-HasSpan e c h = let (es, e') = add_event-HasLatest e c h in (e ∷ es, e')

  add_event-world : (e : SpanEvent) (c : Context W) → (add_event e c).world ≡ c.world
  unfolding add_event
  add_event-world e c = elim (Option-cases c.span) [
    | inl h ↦ rw (add_event, h) refl
    | inr (es, h) ↦ rw (add_event, h) refl
  ]

  add_json-world :
      (key : Text) (r : Result Text) (c : Context W) → (add_json key r c).world ≡ c.world
  unfolding add_json
  add_json-world key (ok s) c = add_event-world _ c
  add_json-world key (err e) c = add_event-world _ c

  add_json-HasSpan :
      (key : Text) (r : Result Text) (c : Context W) → HasSpan c → HasSpan (add_json key r c)
  unfolding add_json
  add_json-HasSpan key (ok s) c h = add_event-HasSpan _ c h
  add_json-HasSpan key (err e) c h = add_event-HasSpan _ c h

  traced_response-world :
      {A : Type 0} (marshal : A → Result Text) (r : Reply A) (c : Context W)
      → (traced_response marshal r c).world ≡ c.world
  unfolding traced_response
  traced_response-world marshal (none, e) c = refl
  traced_response-world marshal (some a, e) c = add_json-world _ (marshal a) c

  traced_response-HasSpan :
      {A : Type 0} (marshal : A → Result Text) (r : Reply A) (c : Context W)
      → HasSpan c
      → HasSpan (traced_response marshal r c)
  unfolding traced_response
  traced_response-HasSpan marshal (none, e) c h = h
  traced_response-HasSpan marshal (some a, e) c h = add_json-HasSpan _ (marshal a) c h

  traced_error-world :
      {A : Type 0} (r : Reply A) (c : Context W) → (traced_error r c).world ≡ c.world
  unfolding traced_error
  traced_error-world (resp, none) c = add_event-world _ c
  traced_error-world (resp, some e) c = add_event-world _ _ ∙ add_event-world _ c

  traced_error-HasLatest :
      {A : Type 0} (resp : Option A) (e : Option GoError) (c : Context W)
      → HasSpan c
      → HasLatest (status_of e) (traced_error (resp, e) c)
  unfolding traced_error
  traced_error-HasLatest resp none c h = add_event-HasLatest _ c h
  traced_error-HasLatest resp (some e) c h = add_event-HasLatest _ _ (add_event-HasSpan _ c h)

  logged_lem :
      {A : Type 0} (resp : Option A) (e : Option GoError) (c : Context W)
      → let (r, c') = logged ((resp, e), c) in
        (r ≡ (resp, e)) × (c'.world ≡ c.world) × (c'.span ≡ c.span)
  unfolding logged log_line
  logged_lem resp none c = (refl, refl, refl)
  logged_lem resp (some e) c = (refl, refl, refl)

module _ {W Req A : Type 0} (marshal : A → Result Text) (g : Req → W → Reply A × W)
    (req : Req) where
  -- What a call comes to, in a world.
  Answers : W → Reply A × Context W → Type 0
  Answers w (r, c) =
      (r ≡ (g req w).0) × (c.world ≡ (g req w).1) × HasLatest (status_of (g req w).0.1) c

  passed-Answers :
      (c : Context W) → HasSpan c → Answers c.world (logged (traced marshal (on_world g req c)))
  unfolding Answers traced HasSpan
  passed-Answers c h =
      let (r, w) = g req c.world in
      let c' : Context W = record c { world = w } in
      let c'' = traced_response marshal r c' in
      let (same, world, span) = logged_lem r.0 r.1 (traced_error r c'') in
      let (es, latest) =
        traced_error-HasLatest r.0 r.1 c'' (traced_response-HasSpan marshal r c' h) in
      (
        same,
        world ∙ traced_error-world r c'' ∙ traced_response-world marshal r c',
        (es, span ∙ latest),
      )

  with_span :
      {X : Type 0} (o : Option (List SpanEvent)) (es : List SpanEvent) (x y : X)
      → o ≡ some es
      → ◌≡◌ {A = X} (elim o [ none ↦ x | some _ ↦ y ]) y
  with_span none es x y h = absurd cc
  with_span (some _) es x y h = refl

  -- A call passes through both interceptors unchanged: the reply and the outside world are those of
  -- the handler, whatever the JSON of the request and of the response come to, and the span of the
  -- call ends with an error status exactly if the handler returned an error.
  pub chain_lem :
      (method : Text) (marshal_req : Req → Result Text) (c : Context W) (es : List SpanEvent)
      → c.span ≡ some es
      → let (r, c') = chain method marshal_req marshal (on_world g) req c in
        (r ≡ (g req c.world).0)
        × (c'.world ≡ (g req c.world).1)
        × HasLatest (status_of (g req c.world).0.1) c'
  unfolding chain log_grpc unary_server_interceptor log_line Answers HasSpan
  chain_lem method marshal_req c es h =
      let c' = log_line grpc_request (log_line (grpc_call method) c) in
      let key = codes "grpc.request" in
      let inner = add_json key (marshal_req req) c' in
      subst (λ x. Answers c.world (logged x))
        (sym (with_span c.span es (on_world g req c') (traced marshal (on_world g req inner)) h))
        (subst (λ w. Answers w (logged (traced marshal (on_world g req inner))))
          (add_json-world key (marshal_req req) c')
          (passed-Answers inner (add_json-HasSpan key (marshal_req req) c' (es, h))))
