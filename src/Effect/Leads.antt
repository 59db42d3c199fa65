-- ===== src/Effect/Leads.antt =====
-- What a run does to a view of the world, however it ends: rules for steps that lead from one
-- property of the view to another.
use linode_blockstorage_csi.Common.{◌≡◌, refl}
use linode_blockstorage_csi.Errors.{GoError}
use linode_blockstorage_csi.Effect.{
  Result, ok, err, Outcome, done, failed, panicked, State, M, call, tell, ◌>>=◌, Operation,
  or_record, recover, finally,
}
use linode_blockstorage_csi.Effect.Kept.{IsKept}

module _ {W V : Type 0} (view : W → V) where
  pub record Leads (P Q : V → Type 0) {A : Type 0} (m : M W A) : Type 0 where
    pub at : (s : State W) → P (view s.world) → Q (view (m s).1.world)

module _ {W V : Type 0} {view : W → V} {P Q : V → Type 0} where
  -- A step that keeps the view.
  pub kept-Leads :
      {A : Type 0} {m : M W A} → ((v : V) → P v → Q v) → IsKept view m → Leads view P Q m
  kept-Leads {m = m} f h = record { at = λ s p. rw (h.at s) (f (view s.world) p) }

  pub call-Leads :
      {A : Type 0} (wrap : GoError → GoError) (f : W → Result A × W)
      → ((w : W) → P (view w) → Q (view (f w).1))
      → Leads view P Q (call wrap f)
  call-Leads {A} wrap f h = record { at = λ s p. step s (f s.world).0 (f s.world).1 (h s.world p) }
    where
      step :
          (s : State W) (r : Result A) (w : W)
          → Q (view w)
          → Q (view (call wrap (λ _. (r, w)) s).1.world)
      step s (ok a) w p = p
      step s (err x) w p = p

  pub tell-Leads :
      {A : Type 0} (f : W → A × W)
      → ((w : W) → P (view w) → Q (view (f w).1))
      → Leads view P Q (tell f)
  tell-Leads f h = record { at = λ s p. h s.world p }

  pub or_record-Leads :
      {A : Type 0} (op : Operation) {m : M W A} → Leads view P Q m → Leads view P Q (or_record op m)
  or_record-Leads {A} op {m} h = record { at = λ s p. step s (m s).0 (m s).1 (h.at s p) }
    where
      step :
          (s : State W) (o : Outcome A) (s' : State W)
          → Q (view s'.world)
          → Q (view (or_record op (λ _. (o, s')) s).1.world)
      step s (done a) s' p = p
      step s (failed x) s' p = p
      step s panicked s' p = p

  pub recover-Leads : {A : Type 0} {m : M W A} → Leads view P Q m → Leads view P Q (recover m)
  recover-Leads {A} {m} h = record { at = λ s p. step s (m s).0 (m s).1 (h.at s p) }
    where
      step :
          (s : State W) (o : Outcome A) (s' : State W)
          → Q (view s'.world)
          → Q (view (recover (λ _. (o, s')) s).1.world)
      step s (done a) s' p = p
      step s (failed x) s' p = p
      step s panicked s' p = p

  -- What is done last keeps the view.
  pub finally-Leads :
      {A : Type 0} {last : M W (Unit {0})} {m : M W A}
      → IsKept view last
      → Leads view P Q m
      → Leads view P Q (finally last m)
  finally-Leads {last = last} {m = m} hl hm = record { at = λ s p. rw (hl.at (m s).1) (hm.at s p) }

  -- The rest is only asked about for what the first step returns.
  pub then-Leads :
      {R : V → Type 0} {A B : Type 0} {m : M W A} {f : A → M W B}
      → Leads view P Q m
      → ((v : V) → Q v → R v)
      → ((a : A) (s s' : State W) → m s ≡ (done a, s') → Leads view Q R (f a))
      → Leads view P R (m >>= f)
  then-Leads {R} {A} {B} {m} {f} hm weaker hf = record {
    at = λ s p. step s (m s).0 (m s).1 refl (hm.at s p);
  }
    where
      step :
          (s : State W) (o : Outcome A) (s' : State W)
          → m s ≡ (o, s')
          → Q (view s'.world)
          → let r : Outcome B × State W = elim o [
            | done a ↦ f a s'
            | failed e ↦ (failed e, s')
            | panicked ↦ (panicked, s')
          ] in
            R (view r.1.world)
      step s (done a) s' e p = (hf a s s' e).at s' p
      step s (failed x) s' e p = weaker (view s'.world) p
      step s panicked s' e p = weaker (view s'.world) p

module _ {W V : Type 0} {view : W → V} {P Q : V → Type 0} {A B : Type 0} {m : M W A}
    {f : A → M W B} where
  pub kept_then-Leads :
      IsKept view m
      → ((v : V) → P v → Q v)
      → ((a : A) (s s' : State W) → m s ≡ (done a, s') → Leads view P Q (f a))
      → Leads view P Q (m >>= f)
  kept_then-Leads hm weaker hf = then-Leads (kept-Leads (λ v p. p) hm) weaker hf

  pub then_kept-Leads : Leads view P Q m → ((a : A) → IsKept view (f a)) → Leads view P Q (m >>= f)
  then_kept-Leads hm hf = then-Leads hm (λ v q. q) (λ a s s' e. kept-Leads (λ v q. q) (hf a))
