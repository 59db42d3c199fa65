-- ===== src/Effect/Kept.antt =====
-- What a step leaves of the outside world, seen through a view of it: rules for steps that keep the
-- view, and for what a longer run ends in.
use linode_blockstorage_csi.Common.{Option, none, some, ◌≡◌, refl, ◌∙◌}
use linode_blockstorage_csi.Errors.{GoError}
use linode_blockstorage_csi.Effect.{
  Result, ok, err, Outcome, done, failed, panicked, State, M, pure, fail, lift, deref, call, tell,
  ◌>>=◌, Operation, FunctionStatus, record_metrics, or_record, recover, finally,
}

module _ {W V : Type 0} (view : W → V) where
  -- The step keeps the view, however it ends.
  pub record IsKept {A : Type 0} (m : M W A) : Type 0 where
    pub at : (s : State W) → view (m s).1.world ≡ view s.world

  -- The run from `s` ends in a view with the property, however it ends.
  pub record Ends (P : V → Type 0) {A : Type 0} (m : M W A) (s : State W) : Type 0 where
    pub at : P (view (m s).1.world)

module _ {W V : Type 0} {view : W → V} where
  pub pure-IsKept : {A : Type 0} (a : A) → IsKept view (pure a)
  pure-IsKept a = record { at = λ s. refl }

  pub fail-IsKept : {A : Type 0} (e : GoError) → IsKept view {A = A} (fail e)
  fail-IsKept e = record { at = λ s. refl }

  pub lift-IsKept : {A : Type 0} (r : Result A) → IsKept view (lift r)
  lift-IsKept (ok a) = record { at = λ s. refl }
  lift-IsKept (err e) = record { at = λ s. refl }

  pub deref-IsKept : {A : Type 0} (o : Option A) → IsKept view (deref o)
  deref-IsKept (some a) = record { at = λ s. refl }
  deref-IsKept none = record { at = λ s. refl }

  pub record_metrics-IsKept :
      (op : Operation) (st : FunctionStatus) → IsKept view (record_metrics op st)
  record_metrics-IsKept op st = record { at = λ s. refl }

  -- A call of outside code that keeps the view.
  pub call-IsKept :
      {A : Type 0} (wrap : GoError → GoError) (f : W → Result A × W)
      → ((w : W) → view (f w).1 ≡ view w)
      → IsKept view (call wrap f)
  call-IsKept {A} wrap f h = record { at = λ s. step s (f s.world).0 (f s.world).1 (h s.world) }
    where
      step :
          (s : State W) (r : Result A) (w : W)
          → view w ≡ view s.world
          → view (call wrap (λ _. (r, w)) s).1.world ≡ view s.world
      step s (ok a) w e = e
      step s (err x) w e = e

  pub tell-IsKept :
      {A : Type 0} (f : W → A × W) → ((w : W) → view (f w).1 ≡ view w) → IsKept view (tell f)
  tell-IsKept f h = record { at = λ s. h s.world }

  pub or_record-IsKept :
      {A : Type 0} (op : Operation) {m : M W A} → IsKept view m → IsKept view (or_record op m)
  or_record-IsKept {A} op {m} h = record { at = λ s. step s (m s).0 (m s).1 (h.at s) }
    where
      step :
          (s : State W) (o : Outcome A) (s' : State W)
          → view s'.world ≡ view s.world
          → view (or_record op (λ _. (o, s')) s).1.world ≡ view s.world
      step s (done a) s' e = e
      step s (failed x) s' e = e
      step s panicked s' e = e

  pub recover-IsKept : {A : Type 0} {m : M W A} → IsKept view m → IsKept view (recover m)
  recover-IsKept {A} {m} h = record { at = λ s. step s (m s).0 (m s).1 (h.at s) }
    where
      step :
          (s : State W) (o : Outcome A) (s' : State W)
          → view s'.world ≡ view s.world
          → view (recover (λ _. (o, s')) s).1.world ≡ view s.world
      step s (done a) s' e = e
      step s (failed x) s' e = e
      step s panicked s' e = e

  pub finally-IsKept :
      {A : Type 0} {last : M W (Unit {0})} {m : M W A}
      → IsKept view last
      → IsKept view m
      → IsKept view (finally last m)
  finally-IsKept {last = last} {m = m} hl hm = record { at = λ s. hl.at (m s).1 ∙ hm.at s }

  pub >>=-IsKept :
      {A B : Type 0} {m : M W A} {f : A → M W B}
      → IsKept view m
      → ((a : A) → IsKept view (f a))
      → IsKept view (m >>= f)
  >>=-IsKept {A} {B} {m} {f} hm hf = record { at = λ s. step s (m s).0 (m s).1 (hm.at s) }
    where
      step :
          (s : State W) (o : Outcome A) (s' : State W)
          → view s'.world ≡ view s.world
          → let r : Outcome B × State W = elim o [
            | done a ↦ f a s'
            | failed e ↦ (failed e, s')
            | panicked ↦ (panicked, s')
          ] in
            view r.1.world ≡ view s.world
      step s (done a) s' e = (hf a).at s' ∙ e
      step s (failed x) s' e = e
      step s panicked s' e = e

pub ruleset kept_rules = (
  pure-IsKept, fail-IsKept, lift-IsKept, deref-IsKept, record_metrics-IsKept, call-IsKept,
  tell-IsKept, or_record-IsKept, recover-IsKept, finally-IsKept, >>=-IsKept,
)

module _ {W V : Type 0} {view : W → V} {P : V → Type 0} where
  -- A step that keeps the view.
  pub kept-Ends :
      {A : Type 0} {m : M W A} {s : State W} → IsKept view m → P (view s.world) → Ends view P m s
  kept-Ends {s = s} h now = record { at = rw (h.at s) now }

  -- After a step that keeps the view, the rest decides. The view that the run starts with has the
  -- property, for the case that the step does not return.
  pub kept_then-Ends :
      {A B : Type 0} {m : M W A} {f : A → M W B} {s : State W}
      → IsKept view m
      → P (view s.world)
      → ((a : A) (s' : State W)
          → m s ≡ (done a, s')
          → view s'.world ≡ view s.world
          → Ends view P (f a) s')
      → Ends view P (m >>= f) s
  kept_then-Ends {A} {B} {m} {f} {s} hm now rest = record {
    at = step (m s).0 (m s).1 refl (hm.at s);
  }
    where
      step :
          (o : Outcome A) (s' : State W)
          → m s ≡ (o, s')
          → view s'.world ≡ view s.world
          → let r : Outcome B × State W = elim o [
            | done a ↦ f a s'
            | failed e ↦ (failed e, s')
            | panicked ↦ (panicked, s')
          ] in
            P (view r.1.world)
      step (done a) s' e k = (rest a s' e k).at
      step (failed x) s' e k = rw k now
      step panicked s' e k = rw k now

  -- The rest keeps the view that a step ends in.
  pub then_kept-Ends :
      {A B : Type 0} {m : M W A} {f : A → M W B} {s : State W}
      → Ends view P m s
      → ((a : A) → IsKept view (f a))
      → Ends view P (m >>= f) s
  then_kept-Ends {A} {B} {m} {f} {s} hm hf = record { at = step (m s).0 (m s).1 hm.at }
    where
      step :
          (o : Outcome A) (s' : State W)
          → P (view s'.world)
          → let r : Outcome B × State W = elim o [
            | done a ↦ f a s'
            | failed e ↦ (failed e, s')
            | panicked ↦ (panicked, s')
          ] in
            P (view r.1.world)
      step (done a) s' k = rw ((hf a).at s') k
      step (failed x) s' k = k
      step panicked s' k = k

  pub or_record-Ends :
      {A : Type 0} (op : Operation) {m : M W A} {s : State W}
      → Ends view P m s
      → Ends view P (or_record op m) s
  or_record-Ends {A} op {m} {s} hm = record { at = step (m s).0 (m s).1 hm.at }
    where
      step :
          (o : Outcome A) (s' : State W)
          → P (view s'.world)
          → P (view (or_record op (λ _. (o, s')) s).1.world)
      step (done a) s' k = k
      step (failed x) s' k = k
      step panicked s' k = k

  pub call-Ends :
      {A : Type 0} (wrap : GoError → GoError) (f : W → Result A × W) (s : State W)
      → P (view (f s.world).1)
      → Ends view P (call wrap f) s
  call-Ends {A} wrap f s h = record { at = step (f s.world).0 (f s.world).1 h }
    where
      step : (r : Result A) (w : W) → P (view w) → P (view (call wrap (λ _. (r, w)) s).1.world)
      step (ok a) w k = k
      step (err x) w k = k

  pub tell-Ends :
      {A : Type 0} (f : W → A × W) (s : State W) → P (view (f s.world).1) → Ends view P (tell f) s
  tell-Ends f s h = record { at = h }

pub Ends-map :
    {W V A : Type 0} {view : W → V} {P Q : V → Type 0} {m : M W A} {s : State W}
    → ((v : V) → P v → Q v)
    → Ends view P m s
    → Ends view Q m s
Ends-map f h = record { at = f _ h.at }
