-- ===== src/Effect/Gives.antt =====
-- What a step returns, where it returns.
use linode_blockstorage_csi.Common.{◌≡◌, sym, arith}
use linode_blockstorage_csi.Errors.{GoError}
use linode_blockstorage_csi.Effect.{done, State, M, pure, fail, ◌>>=◌, finally}
use linode_blockstorage_csi.Effect.Runs.{>>=-done}

-- Every value that the step returns has the property.
pub record Gives {W A : Type 0} (P : A → Type 0) (m : M W A) : Type 0 where
  pub at : (s s' : State W) (a : A) → m s ≡ (done a, s') → P a

pure-done : {W A : Type 0} (a b : A) (s s' : State W) → pure a s ≡ (done b, s') → a ≡ b
pure-done a b s s' e = ground arith

module _ {W A : Type 0} {P : A → Type 0} where
  pub pure-Gives : (a : A) → P a → Gives {W = W} P (pure a)
  pure-Gives a h = record { at = λ s s' b e. rw (sym (pure-done a b s s' e)) h }

  pub fail-Gives : (e : GoError) → Gives {W = W} P (fail e)
  fail-Gives e = record { at = λ s s' b h. absurd (ground arith) }

  pub finally-Gives : (last : M W (Unit {0})) {m : M W A} → Gives P m → Gives P (finally last m)
  finally-Gives last {m} h = record { at = λ s s' a e. h.at s (m s).1 a (ground arith) }

  pub last-Gives :
      {B : Type 0} (m : M W B) {f : B → M W A} → ((b : B) → Gives P (f b)) → Gives P (m >>= f)
  last-Gives m {f = f} hf = record {
    at = λ s s' a e. let (b, t, _, e'') = >>=-done m f s s' a e in (hf b).at t s' a e'';
  }

pub ruleset gives_rules = (pure-Gives, fail-Gives, finally-Gives, last-Gives)
