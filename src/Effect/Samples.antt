-- ===== src/Effect/Samples.antt =====
-- Which metrics a handler records: rules for steps that record nothing and for operations that
-- record one sample.
use linode_blockstorage_csi.Common.{Option, none, some, ◌∷◌, ◌≡◌, refl, ◌≢◌, ◌∙◌, arith}
use linode_blockstorage_csi.Errors.{GoError}
use linode_blockstorage_csi.Effect.{
  Result, ok, err, Outcome, done, failed, panicked, State, M, pure, fail, lift, deref, call, tell,
  ◌>>=◌, Operation, FunctionStatus, failed_status, record_metrics, or_record, recover, finally,
}

-- The step records no sample.
pub record IsQuiet {W A : Type 0} (m : M W A) : Type 0 where
  pub at : (s : State W) → (m s).1.samples ≡ s.samples

-- Unless it panics, the operation records one sample: its own, with some status.
pub record RecordsOne {W A : Type 0} (op : Operation) (m : M W A) : Type 0 where
  pub at :
      (s : State W)
      → (m s).0 ≢ panicked
      → (st : FunctionStatus) × ((m s).1.samples ≡ (op, st) ∷ s.samples)

module _ {W A : Type 0} where
  pub pure-IsQuiet : (a : A) → IsQuiet {W = W} (pure a)
  pure-IsQuiet a = record { at = λ s. refl }

  pub fail-IsQuiet : (e : GoError) → IsQuiet {W = W} {A = A} (fail e)
  fail-IsQuiet e = record { at = λ s. refl }

  pub lift-IsQuiet : (r : Result A) → IsQuiet {W = W} (lift r)
  lift-IsQuiet (ok a) = record { at = λ s. refl }
  lift-IsQuiet (err e) = record { at = λ s. refl }

  pub deref-IsQuiet : (o : Option A) → IsQuiet {W = W} (deref o)
  deref-IsQuiet (some a) = record { at = λ s. refl }
  deref-IsQuiet none = record { at = λ s. refl }

  pub call-IsQuiet : (wrap : GoError → GoError) (f : W → Result A × W) → IsQuiet (call wrap f)
  call-IsQuiet wrap f = record { at = λ s. ground arith }

  pub tell-IsQuiet : (f : W → A × W) → IsQuiet (tell f)
  tell-IsQuiet f = record { at = λ s. refl }

pub >>=-IsQuiet :
    {W A B : Type 0} {m : M W A} {f : A → M W B}
    → IsQuiet m
    → ((a : A) → IsQuiet (f a))
    → IsQuiet (m >>= f)
>>=-IsQuiet {W} {A} {B} {m} {f} hm hf = record { at = λ s. step s (m s).0 (m s).1 (hm.at s) }
  where
    step :
        (s : State W) (o : Outcome A) (s' : State W)
        → s'.samples ≡ s.samples
        → let r : Outcome B × State W = elim o [
          | done a ↦ f a s'
          | failed e ↦ (failed e, s')
          | panicked ↦ (panicked, s')
        ] in
          r.1.samples ≡ s.samples
    step s (done a) s' e = (hf a).at s' ∙ e
    step s (failed x) s' e = e
    step s panicked s' e = e

pub ruleset quiet_rules = (
  pure-IsQuiet, fail-IsQuiet, lift-IsQuiet, deref-IsQuiet, call-IsQuiet, tell-IsQuiet, >>=-IsQuiet,
)

-- A quiet step under `or_record`, and then an operation that records one sample.
pub or_record-RecordsOne :
    {W A B : Type 0} (op : Operation) {m : M W A} {f : A → M W B}
    → IsQuiet m
    → ((a : A) → RecordsOne op (f a))
    → RecordsOne op (or_record op m >>= f)
or_record-RecordsOne {W} {A} {B} op {m} {f} hm hf = record {
  at = λ s. step s (m s).0 (m s).1 (hm.at s);
}
  where
    step :
        (s : State W) (o : Outcome A) (s' : State W)
        → s'.samples ≡ s.samples
        → let r : Outcome B × State W = (or_record op (λ _. (o, s')) >>= f) s in
          r.0 ≢ panicked → (st : FunctionStatus) × (r.1.samples ≡ (op, st) ∷ s.samples)
    step s (done a) s' e = λ h. let (st, q) = (hf a).at s' h in (st, ground arith)
    step s (failed x) s' e = λ h. (failed_status, ground arith)
    step s panicked s' e = λ h. absurd (h refl)

pub record_metrics-RecordsOne :
    {W : Type 0} (op : Operation) (st : FunctionStatus)
    → RecordsOne {W = W} op (record_metrics op st)
record_metrics-RecordsOne op st = record { at = λ s h. (st, refl) }

pub record_metrics_then-RecordsOne :
    {W B : Type 0} (op : Operation) (st : FunctionStatus) {k : Unit {0} → M W B}
    → ((u : Unit {0}) → IsQuiet (k u))
    → RecordsOne op (record_metrics op st >>= k)
record_metrics_then-RecordsOne op st hk = record { at = λ s h. (st, (hk tt).at _) }

pub tell-RecordsOne :
    {W A B : Type 0} {op : Operation} (g : W → A × W) {f : A → M W B}
    → ((a : A) → RecordsOne op (f a))
    → RecordsOne op (tell g >>= f)
tell-RecordsOne g hf = record { at = λ s h. (hf (g s.world).0).at _ h }

pub deref-RecordsOne :
    {W A B : Type 0} {op : Operation} (o : Option A) {f : A → M W B}
    → ((a : A) → RecordsOne op (f a))
    → RecordsOne op (deref o >>= f)
deref-RecordsOne (some a) hf = record { at = λ s h. (hf a).at s h }
deref-RecordsOne none hf = record { at = λ s h. absurd (h refl) }

pub ruleset sample_rules = (
  quiet_rules, or_record-RecordsOne, record_metrics-RecordsOne, record_metrics_then-RecordsOne,
  tell-RecordsOne, deref-RecordsOne,
)

pub recover-IsQuiet : {W A : Type 0} {m : M W A} → IsQuiet m → IsQuiet (recover m)
recover-IsQuiet {W} {A} {m} h = record { at = λ s. step s (m s).0 (m s).1 (h.at s) }
  where
    step :
        (s : State W) (o : Outcome A) (s' : State W)
        → s'.samples ≡ s.samples
        → (recover (λ _. (o, s')) s).1.samples ≡ s.samples
    step s (done a) s' e = e
    step s (failed x) s' e = e
    step s panicked s' e = e

pub finally-IsQuiet :
    {W A : Type 0} {last : M W (Unit {0})} {m : M W A}
    → IsQuiet last
    → IsQuiet m
    → IsQuiet (finally last m)
finally-IsQuiet {m = m} hl hm = record { at = λ s. hl.at (m s).1 ∙ hm.at s }
