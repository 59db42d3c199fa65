-- ===== src/Metrics/Registry.antt =====
-- The registration of the metrics.
use linode_blockstorage_csi.Common.{
  Text, text_eq, any, Bool, some, List, [], ◌∷◌, false, true, ◌≡◌, refl, ap, ◌∙◌, arith,
  if◌then◌else◌,
}
use linode_blockstorage_csi.Effect.{
  create_volume_op, delete_volume_op, publish_volume_op, unpublish_volume_op, node_publish_op,
  node_unpublish_op, node_stage_op, node_unstage_op, node_expand_op,
}
use linode_blockstorage_csi.Metrics.{
  Metric, total, duration, name_of, registrations, Registerer, RegistererLaws, register_all,
  init_metrics,
}

-- The names after more metrics, the latest first.
abbrev onto : List Metric → List Text → List Text
onto [] names = names
onto (m ∷ ms) names = onto ms (name_of m ∷ names)

-- Each name is new when it is registered.
abbrev are_new : List Metric → List Text → Bool
are_new [] names = true
are_new (m ∷ ms) names =
    let rest = are_new ms (name_of m ∷ names) in
    if any (text_eq (name_of m)) names then false else rest

registrations-are_new : are_new registrations [] ≡ true
unfolding registrations name_of text_eq
registrations-are_new = refl

registered : (m : Metric) → any (text_eq (name_of m)) (onto registrations []) ≡ true
unfolding registrations name_of text_eq
registered (total node_publish_op) = refl
registered (duration node_publish_op) = refl
registered (total node_unpublish_op) = refl
registered (duration node_unpublish_op) = refl
registered (total node_stage_op) = refl
registered (duration node_stage_op) = refl
registered (total node_unstage_op) = refl
registered (duration node_unstage_op) = refl
registered (total node_expand_op) = refl
registered (duration node_expand_op) = refl
registered (total create_volume_op) = refl
registered (duration create_volume_op) = refl
registered (total delete_volume_op) = refl
registered (duration delete_volume_op) = refl
registered (total publish_volume_op) = refl
registered (duration publish_volume_op) = refl
registered (total unpublish_volume_op) = refl
registered (duration unpublish_volume_op) = refl

is_new :
    (m : Metric) (names : List Text) (rest : Bool)
    → (if any (text_eq (name_of m)) names then false else rest) ≡ true
    → (any (text_eq (name_of m)) names ≡ false) × (rest ≡ true)
is_new m names rest h = ground arith

module _ {R : Type 0} {reg : Registerer R} (laws : RegistererLaws reg) where
  register_all-onto :
      (ms : List Metric) (r : R) (names : List Text)
      → laws.names r ≡ names
      → are_new ms names ≡ true
      → (r' : R) × (register_all reg ms r ≡ some r') × (laws.names r' ≡ onto ms names)
  unfolding register_all
  register_all-onto [] r names e h = (r, refl, e)
  register_all-onto (m ∷ ms) r names e h =
      let new = is_new m names (are_new ms (name_of m ∷ names)) h in
      let (r', done', now) =
        laws.register_new (name_of m) r (ap (λ n. any (text_eq (name_of m)) n) e ∙ new.0) in
      let (r'', all_done, last) =
        register_all-onto ms r' (name_of m ∷ names) (now ∙ ap (λ n. name_of m ∷ n) e) new.1 in
      (r'', rw (register_all, done') all_done, last)

  -- The registration at the start does not panic, since no metric has the name of another, and the
  -- two metrics of every operation are registered by it.
  pub init_metrics_lem :
      (r : R) × (init_metrics reg ≡ some r)
      × ((m : Metric) → any (text_eq (name_of m)) (laws.names r) ≡ true)
  unfolding init_metrics
  init_metrics_lem =
      let (r, runs, names) =
        register_all-onto registrations reg.empty [] laws.names_empty registrations-are_new in
      (r, runs, λ m. ap (λ n. any (text_eq (name_of m)) n) names ∙ registered m)
