-- ===== src/Node/Changes.antt =====
-- Requests change places one after the other, each at most once: the changes so far, by the kind of
-- place, and the step to the next kind.
use linode_blockstorage_csi.Common.{
  ℕ, suc, ◌≤◌, ◌<◌, List, Bool-cases, ◌≡◌, refl, ◌⊎◌, inl, inr, arith,
}
use linode_blockstorage_csi.Host.Frame.{
  Place, Content, NodeView, put, place_eq, place_eq_sound, place_eq_refl,
}

module _ (kind : Place → ℕ) (May : Place → List Content → List Content → Type 0)
    (u : NodeView) where
  -- Only places of the kinds below `n` have changed, as they may.
  abbrev pub ChangedBelow : ℕ → NodeView → Type 0
  ChangedBelow n v = (q : Place) → (v q ≡ u q) ⊎ ((kind q < n) × May q (u q) (v q))

  pub unchanged : (n : ℕ) → ChangedBelow n u
  unchanged n q = inl refl

  pub later : (n m : ℕ) → n ≤ m → (v : NodeView) → ChangedBelow n v → ChangedBelow m v
  later n m h v below q = elim (below q) [
    | inl same ↦ inl same
    | inr (k, may) ↦ inr (omega arith, may)
  ]

  pub changed_so :
      (n : ℕ) (v : NodeView) → ChangedBelow n v → (q : Place) → (v q ≡ u q) ⊎ May q (u q) (v q)
  changed_so n v below q = elim (below q) [ inl same ↦ inl same | inr (k, may) ↦ inr may ]

  -- A place of the next kind has not changed yet.
  pub unchanged_yet :
      (n : ℕ) (v : NodeView) → ChangedBelow n v → (p : Place) → kind p ≡ n → v p ≡ u p
  unchanged_yet n v below p k = elim (below p) [
    | inl same ↦ same
    | inr (k', may) ↦ absurd (omega arith)
  ]

  -- A place of the next kind changes as it may.
  pub put_next :
      (n : ℕ) (v : NodeView) (p : Place) (l : List Content)
      → ChangedBelow n v
      → kind p ≡ n
      → May p (u p) l
      → ChangedBelow (suc n) (put p l v)
  put_next n v p l below k may q = elim (Bool-cases (place_eq q p)) [
    | inl h ↦
        let e = place_eq_sound q p h in inr (rw (e, k) (omega arith), rw (e, place_eq_refl p) may)
    | inr h ↦ rw h (later n (suc n) (omega arith) v below q)
  ]
