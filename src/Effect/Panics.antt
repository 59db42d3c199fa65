-- ===== src/Effect/Panics.antt =====
-- Which runs panic: rules for steps that panic only under a condition.
use linode_blockstorage_csi.Common.{Option, none, some, ◌≡◌, refl, ap}
use linode_blockstorage_csi.Errors.{GoError}
use linode_blockstorage_csi.Effect.{
  Result, ok, err, Outcome, done, failed, panicked, State, M, pure, fail, lift, deref, call, tell,
  ◌>>=◌, Operation, FunctionStatus, record_metrics, or_record, recover, finally,
}
use linode_blockstorage_csi.Effect.Runs.{call-done, tell-done}

-- The step panics only under `E`; from every state.
pub record PanicsIf {W A : Type 0} (E : Type 0) (m : M W A) : Type 0 where
  pub at : (s : State W) → (m s).0 ≡ panicked → E

module _ {W : Type 0} {E : Type 0} where
  pub pure-PanicsIf : {A : Type 0} (a : A) → PanicsIf {W = W} E (pure a)
  pure-PanicsIf a = record { at = λ s e. absurd cc }

  pub fail-PanicsIf : {A : Type 0} (e : GoError) → PanicsIf {W = W} {A = A} E (fail e)
  fail-PanicsIf x = record { at = λ s e. absurd cc }

  pub lift-PanicsIf : {A : Type 0} (r : Result A) → PanicsIf {W = W} E (lift r)
  lift-PanicsIf (ok a) = record { at = λ s e. absurd cc }
  lift-PanicsIf (err x) = record { at = λ s e. absurd cc }

  pub deref-PanicsIf : {A : Type 0} (o : Option A) → (o ≡ none → E) → PanicsIf {W = W} E (deref o)
  deref-PanicsIf (some a) h = record { at = λ s e. absurd cc }
  deref-PanicsIf none h = record { at = λ s e. h refl }

  pub record_metrics-PanicsIf :
      (op : Operation) (st : FunctionStatus) → PanicsIf {W = W} E (record_metrics op st)
  record_metrics-PanicsIf op st = record { at = λ s e. absurd cc }

  pub call-PanicsIf :
      {A : Type 0} (wrap : GoError → GoError) (f : W → Result A × W) → PanicsIf E (call wrap f)
  call-PanicsIf {A} wrap f = record { at = λ s e. step s (f s.world).0 (f s.world).1 e }
    where
      step : (s : State W) (r : Result A) (w : W) → (call wrap (λ _. (r, w)) s).0 ≡ panicked → E
      step s (ok a) w e = absurd cc
      step s (err x) w e = absurd cc

  pub tell-PanicsIf : {A : Type 0} (f : W → A × W) → PanicsIf E (tell f)
  tell-PanicsIf f = record { at = λ s e. absurd cc }

  pub or_record-PanicsIf :
      {A : Type 0} (op : Operation) {m : M W A} → PanicsIf E m → PanicsIf E (or_record op m)
  or_record-PanicsIf {A} op {m} h = record { at = λ s. step s (m s).0 (m s).1 (h.at s) }
    where
      step :
          (s : State W) (o : Outcome A) (s' : State W)
          → (o ≡ panicked → E)
          → (or_record op (λ _. (o, s')) s).0 ≡ panicked
          → E
      step s (done a) s' h e = absurd cc
      step s (failed x) s' h e = absurd cc
      step s panicked s' h e = h refl

  pub recover-PanicsIf : {A : Type 0} {m : M W A} → PanicsIf E m → PanicsIf E (recover m)
  recover-PanicsIf {A} {m} h = record { at = λ s. step s (m s).0 (m s).1 (h.at s) }
    where
      step :
          (s : State W) (o : Outcome A) (s' : State W)
          → (o ≡ panicked → E)
          → (recover (λ _. (o, s')) s).0 ≡ panicked
          → E
      step s (done a) s' h e = absurd cc
      step s (failed x) s' h e = absurd cc
      step s panicked s' h e = h refl

  pub finally-PanicsIf :
      {A : Type 0} (last : M W (Unit {0})) {m : M W A} → PanicsIf E m → PanicsIf E (finally last m)
  finally-PanicsIf last h = record { at = λ s. h.at s }

  -- The rest is only asked about for what the first step returns.
  pub then-PanicsIf :
      {A B : Type 0} {m : M W A} {f : A → M W B}
      → PanicsIf E m
      → ((a : A) (s s' : State W) → m s ≡ (done a, s') → PanicsIf E (f a))
      → PanicsIf E (m >>= f)
  then-PanicsIf {A} {B} {m} {f} hm hf = record { at = λ s. step s (m s).0 (m s).1 refl (hm.at s) }
    where
      step :
          (s : State W) (o : Outcome A) (s' : State W)
          → m s ≡ (o, s')
          → (o ≡ panicked → E)
          → let r : Outcome B × State W = elim o [
            | done a ↦ f a s'
            | failed e ↦ (failed e, s')
            | panicked ↦ (panicked, s')
          ] in
            r.0 ≡ panicked → E
      step s (done a) s' e h k = (hf a s s' e).at s' k
      step s (failed x) s' e h k = absurd cc
      step s panicked s' e h k = h refl

  pub >>=-PanicsIf :
      {A B : Type 0} {m : M W A} {f : A → M W B}
      → PanicsIf E m
      → ((a : A) → PanicsIf E (f a))
      → PanicsIf E (m >>= f)
  >>=-PanicsIf hm hf = then-PanicsIf hm (λ a s s' e. hf a)

  -- What a call or a lookup returned, used by the rest.
  pub call_then-PanicsIf :
      {A B : Type 0} (wrap : GoError → GoError) (f : W → Result A × W) {g : A → M W B}
      → ((a : A) (w : W) → (f w).0 ≡ ok a → PanicsIf E (g a))
      → PanicsIf E (call wrap f >>= g)
  call_then-PanicsIf wrap f h =
      then-PanicsIf (call-PanicsIf wrap f)
        (λ a s s' e. h a s.world (ap (λ r. r.0) (call-done wrap f s s' a e)))

  pub tell_then-PanicsIf :
      {A B : Type 0} (f : W → A × W) {g : A → M W B}
      → ((a : A) (w : W) → (f w).0 ≡ a → PanicsIf E (g a))
      → PanicsIf E (tell f >>= g)
  tell_then-PanicsIf f h =
      then-PanicsIf (tell-PanicsIf f)
        (λ a s s' e. h a s.world (ap (λ r. r.0) (tell-done f s s' a e)))

pub ruleset calm_rules = (
  pure-PanicsIf, fail-PanicsIf, lift-PanicsIf, record_metrics-PanicsIf, call-PanicsIf,
  tell-PanicsIf, or_record-PanicsIf, recover-PanicsIf, finally-PanicsIf, >>=-PanicsIf,
)
