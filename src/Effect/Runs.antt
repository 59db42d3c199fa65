-- ===== src/Effect/Runs.antt =====
-- Runs that are done: what their steps came to.
use linode_blockstorage_csi.Common.{Option, none, some, ◌≡◌, refl, ap, arith}
use linode_blockstorage_csi.Errors.{GoError}
use linode_blockstorage_csi.Effect.{
  Result, ok, err, Outcome, done, failed, panicked, State, M, lift, deref, tell, call, Operation,
  or_record, ◌>>=◌, recover,
}

-- What a step that returned had to do.
module _ {W A : Type 0} where
  pub lift-done : (r : Result A) (s s' : State W) (a : A) → lift r s ≡ (done a, s') → r ≡ ok a
  lift-done (ok b) s s' a e = ground arith
  lift-done (err x) s s' a e = absurd (ground arith)

  pub deref-done : (o : Option A) (s s' : State W) (a : A) → deref o s ≡ (done a, s') → o ≡ some a
  deref-done (some b) s s' a e = ground arith
  deref-done none s s' a e = absurd (ground arith)

  pub tell-done :
      (f : W → A × W) (s s' : State W) (a : A) → tell f s ≡ (done a, s') → f s.world ≡ (a, s'.world)
  tell-done f s s' a e = ground arith

  pub call-done :
      (wrap : GoError → GoError) (f : W → Result A × W) (s s' : State W) (a : A)
      → call wrap f s ≡ (done a, s')
      → f s.world ≡ (ok a, s'.world)
  call-done wrap f s s' a e = step (f s.world).0 (f s.world).1 refl
    where
      step : (r : Result A) (w : W) → f s.world ≡ (r, w) → f s.world ≡ (ok a, s'.world)
      step (ok b) w h = ground arith
      step (err x) w h = absurd (ground arith)

  pub or_record-done :
      (op : Operation) (m : M W A) (s s' : State W) (a : A)
      → or_record op m s ≡ (done a, s')
      → m s ≡ (done a, s')
  or_record-done op m s s' a e = step (m s).0 (m s).1 refl
    where
      step : (o : Outcome A) (t : State W) → m s ≡ (o, t) → m s ≡ (done a, s')
      step (done b) t h = ground arith
      step (failed x) t h = absurd (ground arith)
      step panicked t h = absurd (ground arith)

  pub or_record-lift-done :
      (op : Operation) (r : Result A) (s s' : State W) (a : A)
      → or_record op (lift r) s ≡ (done a, s')
      → r ≡ ok a
  or_record-lift-done op r s s' a e = lift-done r s s' a (or_record-done op (lift r) s s' a e)

pub >>=-done :
    {W A B : Type 0} (m : M W A) (f : A → M W B) (s s' : State W) (b : B)
    → (m >>= f) s ≡ (done b, s')
    → (a : A) × (t : State W) × (m s ≡ (done a, t)) × (f a t ≡ (done b, s'))
>>=-done {W} {A} {B} m f s s' b e = step (m s).0 (m s).1 refl
  where
    step :
        (o : Outcome A) (t : State W)
        → m s ≡ (o, t)
        → (a : A) × (t : State W) × (m s ≡ (done a, t)) × (f a t ≡ (done b, s'))
    step (done a) t h = (a, t, h, ground arith)
    step (failed x) t h = absurd (ground arith)
    step panicked t h = absurd (ground arith)

pub recover-done :
    {W A : Type 0} (m : M W A) (s s' : State W) (a : A)
    → recover m s ≡ (done (ok a), s')
    → m s ≡ (done a, s')
recover-done {W} {A} m s s' a e = step (m s).0 (m s).1 refl
  where
    step : (o : Outcome A) (t : State W) → m s ≡ (o, t) → m s ≡ (done a, s')
    step (done b) t h = ground arith
    step (failed x) t h = absurd (ground arith)
    step panicked t h = absurd (ground arith)

-- A run goes on from a step that is done.
pub >>=-step :
    {W A B : Type 0} (m : M W A) (f : A → M W B) (s t : State W) (a : A)
    → m s ≡ (done a, t)
    → (m >>= f) s ≡ f a t
>>=-step m f s t a h = rw (◌>>=◌, h) (ap (λ r. f a r.1) h)

pub recover-step :
    {W A : Type 0} (m : M W A) (s t : State W) (a : A)
    → m s ≡ (done a, t)
    → recover m s ≡ (done (ok a), t)
recover-step m s t a h = rw (recover, h) (ap (λ r. (done (ok a), r.1)) h)
