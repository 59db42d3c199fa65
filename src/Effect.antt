-- ===== src/Effect.antt =====
-- How a handler runs: it changes an outside world (the Linode API or the node it runs on) and the
-- metrics of pkg/observability, and returns, fails with an error, or panics (a nil pointer or an
-- index out of range). What was changed before a failure stays changed.
pub mod Samples
pub mod Kept
pub mod Leads
pub mod Panics
pub mod Gives
pub mod Runs
use linode_blockstorage_csi.Common.{Option, none, some, List, [], ◌∷◌, ◌≡◌}
use linode_blockstorage_csi.Errors.{GoError}

-- A Go result with an error: `(a, nil)` or `(_, err)`.
pub data Result (A : Type 0) : Type 0 where
  ok : A → Result A
  err : GoError → Result A

pub data Outcome (A : Type 0) : Type 0 where
  done : A → Outcome A
  failed : GoError → Outcome A
  panicked : Outcome A

-- The operations that have metrics, and the `functionStatus` label of a sample.
pub data Operation : Type 0 where
  create_volume_op delete_volume_op publish_volume_op unpublish_volume_op : Operation
  node_publish_op node_unpublish_op node_stage_op node_unstage_op node_expand_op : Operation

pub data FunctionStatus : Type 0 where
  completed_status failed_status : FunctionStatus

abbrev pub Sample : Type 0
Sample = Operation × FunctionStatus

-- The world and the samples that were recorded, the latest first.
pub record State (W : Type 0) : Type 0 where
  pub world : W
  pub samples : List Sample

abbrev pub M : Type 0 → Type 0 → Type 0
M W A = State W → Outcome A × State W

module _ {W A : Type 0} where
  abbrev pub pure : A → M W A
  pure a s = (done a, s)

  abbrev pub fail : GoError → M W A
  fail e s = (failed e, s)

  abbrev pub lift : Result A → M W A
  lift (ok a) = pure a
  lift (err e) = fail e

  -- A pointer is followed.
  abbrev pub deref : Option A → M W A
  deref (some a) s = (done a, s)
  deref none s = (panicked, s)

  -- A call of outside code whose reply the caller looks at.
  abbrev pub tell : (W → A × W) → M W A
  tell f s = let (r, w) = f s.world in (done r, record s { world = w })

infixl 5 ◌>>=◌ ◌>>◌
abbrev pub ◌>>=◌ : {W A B : Type 0} → M W A → (A → M W B) → M W B
◌>>=◌ m f s =
    let (o, s') = m s in
    elim o [ done a ↦ f a s' | failed e ↦ (failed e, s') | panicked ↦ (panicked, s') ]

abbrev pub ◌>>◌ : {W A B : Type 0} → M W A → M W B → M W B
m >> k = m >>= λ _. k

-- A call whose error is returned with a wrapping.
abbrev pub call : {W A : Type 0} → (GoError → GoError) → (W → Result A × W) → M W A
call wrap f s =
    let (r, w) = f s.world in
    elim r [
      | ok a ↦ (done a, record s { world = w })
      | err e ↦ (failed (wrap e), record s { world = w })
    ]

-- `observability.RecordMetrics`; the duration is left out.
abbrev pub record_metrics : {W : Type 0} → Operation → FunctionStatus → M W (Unit {0})
record_metrics op st s = (done tt, record s { samples = (op, st) ∷ s.samples })

-- A step of a handler that records a failed sample before it returns its error.
abbrev pub or_record : {W A : Type 0} → Operation → M W A → M W A
or_record op m s =
    let (o, s') = m s in
    elim o [
      | done a ↦ (done a, s')
      | failed e ↦ (failed e, record s' { samples = (op, failed_status) ∷ s'.samples })
      | panicked ↦ (panicked, s')
    ]

-- An error that the caller looks at, or logs and passes over.
abbrev pub recover : {W A : Type 0} → M W A → M W (Result A)
recover m s =
    let (o, s') = m s in
    elim o [
      | done a ↦ (done (ok a), s')
      | failed e ↦ (done (err e), s')
      | panicked ↦ (panicked, s')
    ]

-- `defer`: the second step runs last, whatever the first one came to, and its result is not used.
abbrev pub finally : {W A : Type 0} → M W (Unit {0}) → M W A → M W A
finally last m s = let (o, s') = m s in (o, (last s').1)
