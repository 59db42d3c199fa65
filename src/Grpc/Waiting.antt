-- ===== src/Grpc/Waiting.antt =====
-- When `Wait` of internal/driver/server.go can return, and when `Stop` can be called.
use linode_blockstorage_csi.Common.{
  ℕ, ◌+◌, ◌≤◌, Text, Option, none, some, true, false, Bool, ◌≡◌, ◌≢◌, ◌↔◌, ◌⊎◌, inl, inr, refl, sym,
  ap, ◌∙◌, arith,
}
use mathlib.Core.Path.{subst}
use linode_blockstorage_csi.Grpc.{
  parse_bool, Phase, absent, working, ended, GrpcServer, new_non_blocking_grpc_server,
  set_metrics_config, start, stop, Step, serves, serves_metrics, metrics_end, stops, Reachable,
  started, stepped, IsOver,
}

abbrev ended_count : Phase → ℕ
ended_count ended = 1
ended_count _ = 0

abbrev configured : Text → Text → GrpcServer
configured em mp = set_metrics_config em mp new_non_blocking_grpc_server

-- What holds of every state of a started server.
record Inv (em : Text) (g : GrpcServer) : Type 0 where
  counted : g.wg + ended_count g.metrics_goroutine ≡ 1
  off : (parse_bool em ≡ some true) ⊎ ((g.metrics_goroutine ≡ absent) × (g.metrics_server ≡ absent))
  together : g.metrics_server ≡ ended → g.server ≡ ended
  after : g.metrics_goroutine ≡ ended → g.metrics_server ≡ ended

parse_bool-cases : (o : Option Bool) → (o ≡ some true) ⊎ ((o ≡ none) ⊎ (o ≡ some false))
parse_bool-cases (some true) = inl refl
parse_bool-cases (some false) = inr (inr refl)
parse_bool-cases none = inr (inl refl)

started-Inv : (em mp : Text) → Inv em (start (configured em mp))
unfolding start set_metrics_config new_non_blocking_grpc_server
started-Inv em mp = elim (parse_bool-cases (parse_bool em)) [
  | inl on ↦ rw on (record { counted = refl; off = inl on; together = λ e. cc; after = λ e. cc })
  | inr (inl bad) ↦
      rw bad
        (record { counted = refl; off = inr (refl, refl); together = λ e. cc; after = λ e. cc })
  | inr (inr off) ↦
      rw off
        (record { counted = refl; off = inr (refl, refl); together = λ e. cc; after = λ e. cc })
]

Phase-cases : (p : Phase) → (p ≡ absent) ⊎ ((p ≡ working) ⊎ (p ≡ ended))
Phase-cases absent = inl refl
Phase-cases working = inr (inl refl)
Phase-cases ended = inr (inr refl)

abbrev stopped : GrpcServer → GrpcServer
stopped g = record g { server = ended; metrics_server = ended }

stop_needs : (g g' : GrpcServer) → stop g ≡ some g' → (g' ≡ stopped g) × (g.metrics_server ≢ absent)
unfolding stop
stop_needs g g' e = ground arith

no_stop : (g : GrpcServer) → g.metrics_server ≡ absent → stop g ≡ none
unfolding stop
no_stop g h = ground arith

Step-Inv : (em : Text) (g g' : GrpcServer) → Step g g' → Inv em g → Inv em g'
Step-Inv em g g' (serves e) i = record {
  counted = i.counted;
  off = i.off;
  together = λ h. let bad : absent ≡ ended = sym e ∙ i.together h in absurd cc;
  after = i.after;
}
Step-Inv em g g' (serves_metrics on e) i = record {
  counted = i.counted;
  off = elim i.off [
    | inl enabled ↦ inl enabled
    | inr (none', _) ↦ absurd (let bad : absent ≡ working = sym none' ∙ on in cc)
  ];
  together = λ h. absurd cc;
  after = λ h. let bad : working ≡ ended = sym on ∙ h in absurd cc;
}
Step-Inv em g g' (metrics_end on e) i = record {
  counted =
      let one : g.wg + 0 ≡ 1 = ap (λ p. g.wg + ended_count p) (sym on) ∙ i.counted in omega arith;
  off = elim i.off [
    | inl enabled ↦ inl enabled
    | inr (none', _) ↦ absurd (let bad : absent ≡ working = sym none' ∙ on in cc)
  ];
  together = i.together;
  after = λ h. e;
}
Step-Inv em g g' (stops e) i =
    let (same, there) = stop_needs g g' e in
    rw same (record {
      counted = i.counted;
      off = elim i.off [ inl enabled ↦ inl enabled | inr (_, nil) ↦ absurd (there nil) ];
      together = λ h. refl;
      after = λ h. refl;
    })

Reachable-Inv : (em mp : Text) (g : GrpcServer) → Reachable em mp g → Inv em g
Reachable-Inv em mp g started = started-Inv em mp
Reachable-Inv em mp g' (stepped {g = g} r s) = Step-Inv em g g' s (Reachable-Inv em mp g r)

module _ (em mp : Text) where
  IsOver-enabled : (g : GrpcServer) → Reachable em mp g → IsOver g → parse_bool em ≡ some true
  IsOver-enabled g r over =
      let i = Reachable-Inv em mp g r in
      elim i.off [
        | inl on ↦ on
        | inr (nil, _) ↦
            let one : g.wg + 0 ≡ 1 = ap (λ p. g.wg + ended_count p) (sym nil) ∙ i.counted in
            absurd (omega arith)
      ]

  -- Both goroutines begin.
  abbrev begun : GrpcServer
  begun = record (configured em mp) { wg = 1; metrics_goroutine = working }

  start_enabled : parse_bool em ≡ some true → start (configured em mp) ≡ begun
  unfolding start set_metrics_config new_non_blocking_grpc_server
  start_enabled on = rw on refl

  enabled-IsOver : parse_bool em ≡ some true → (g : GrpcServer) × Reachable em mp g × IsOver g
  unfolding set_metrics_config new_non_blocking_grpc_server stop
  enabled-IsOver on =
      let begin : Reachable em mp begun =
        subst (λ g. Reachable em mp g) (start_enabled on) started in
      let up = stepped begin (serves refl) in
      let metrics_up = stepped up (serves_metrics refl refl) in
      let down = stepped metrics_up (stops refl) in (_, stepped down (metrics_end refl refl), refl)

  -- `Wait` can return, in some order of what the goroutines do, exactly if the metrics are enabled,
  -- although the gRPC server runs in both cases.
  pub Wait-returns_iff :
      ((g : GrpcServer) × Reachable em mp g × IsOver g) ↔ (parse_bool em ≡ some true)
  Wait-returns_iff = ((λ (g, r, over). IsOver-enabled g r over), enabled-IsOver)

  IsOver-stopped :
      (g : GrpcServer)
      → Reachable em mp g
      → IsOver g
      → (g.metrics_server ≡ ended) × (g.server ≡ ended)
  IsOver-stopped g r over =
      let i = Reachable-Inv em mp g r in
      elim (Phase-cases g.metrics_goroutine) [
        | inl nil ↦ absurd (
            let one : g.wg + 0 ≡ 1 = ap (λ p. g.wg + ended_count p) (sym nil) ∙ i.counted in
            omega arith)
        | inr (inl on) ↦ absurd (
            let one : g.wg + 0 ≡ 1 = ap (λ p. g.wg + ended_count p) (sym on) ∙ i.counted in
            omega arith)
        | inr (inr e) ↦ (i.after e, i.together (i.after e))
      ]

  -- In every state that a started server comes to, whatever the order of the goroutines, `Wait` has
  -- at most one to wait for, and it returns only after both servers were stopped; where the metrics
  -- are not enabled, `Stop` follows a nil pointer.
  pub Reachable_lem :
      (g : GrpcServer)
      → Reachable em mp g
      → (g.wg ≤ 1)
        × (IsOver g → (g.metrics_server ≡ ended) × (g.server ≡ ended))
        × (parse_bool em ≢ some true → stop g ≡ none)
  Reachable_lem g r =
      let i = Reachable-Inv em mp g r in
      (
        omega (arith, i.counted),
        IsOver-stopped g r,
        λ off. elim i.off [ inl on ↦ absurd (off on) | inr (_, nil) ↦ no_stop g nil ],
      )
