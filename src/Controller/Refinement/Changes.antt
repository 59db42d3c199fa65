-- ===== src/Controller/Refinement/Changes.antt =====
-- How a view changes when the volume at one id does.
use linode_blockstorage_csi.Common.{
  ℤ, ◌==ℤ◌, ==ℤ_iff, Option, none, some, Bool-cases, ◌≡◌, ◌≢◌, sym, ap, ◌∙◌, inl, inr,
}
use linode_blockstorage_csi.Api.{Volume}
use linode_blockstorage_csi.Api.Frame.{View, change, change_here, change_elsewhere}

-- A change of one volume, seen at an id.
pub changed :
    (P : View → Type 0) (id j : ℤ) (o : Option Volume) (u u' : View) (v : Volume)
    → u' ≡ change id o u
    → u j ≡ some v
    → (j ≡ id → u' j ≡ o → P u')
    → (u' j ≡ some v → P u')
    → P u'
changed P id j o u u' v e hv here there = elim (Bool-cases (j ==ℤ id)) [
  | inl h ↦ let same = (==ℤ_iff j id).0 h in here same (rw (e, same) (change_here id o u))
  | inr h ↦ there (ap (λ f. f j) e ∙ change_elsewhere id j o u h ∙ hv)
]

-- One view at one id has one volume.
pub one_volume :
    (u : View) (id j : ℤ) (v x : Volume) → u j ≡ some v → j ≡ id → u id ≡ some x → x ≡ v
one_volume u id j v x hv h hx = let e : some x ≡ some v = sym hx ∙ ap u (sym h) ∙ hv in cc

pub no_volume : (u : View) (id j : ℤ) (v : Volume) → u j ≡ some v → j ≡ id → u id ≢ none
no_volume u id j v hv h hx = let e : none ≡ some v = sym hx ∙ ap u (sym h) ∙ hv in cc

pub unchanged : (id : ℤ) (v : Volume) (u u' : View) → u id ≡ some v → u' ≡ u → u' id ≡ some v
unchanged id v u u' h e = ap (λ f. f id) e ∙ h

pub some_not_none : {a : ℤ} {o : Option ℤ} → o ≡ some a → o ≢ none
some_not_none h e = cc
