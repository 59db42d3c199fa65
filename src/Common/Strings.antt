-- ===== src/Common/Strings.antt =====
-- Go strings: sequences of bytes.
use Prim.Native.Nat.{ℕ}
use Prim.Native.Char.{code}
use Prim.Native.String.{String}
use mathlib.Core.Path.{◌≡◌, refl}
use mathlib.Core.Logic.{◌↔◌, ◌≢◌, inl, inr}
use mathlib.Core.Bool.{Bool, true, false, ◌&&◌}
use mathlib.Core.List.{List, [], ◌∷◌, ◌++◌}
use mathlib.Core.Option.{Option, none, some}
use native.Mathlib.Omega.{arith}
use linode_blockstorage_csi.Common.Tests.{◌==◌, if◌then◌else◌, Option-cases}
use linode_blockstorage_csi.Common.Lists.{All}

abbrev pub Text : Type 0
Text = List ℕ

-- The bytes of an ASCII literal.
abbrev pub codes : String → Text
codes String.[] = []
codes (String.◌∷◌ c s) = code c ∷ codes s

-- `s == t`
unfoldable pub text_eq : Text → Text → Bool
text_eq [] [] = true
text_eq [] (d ∷ t) = false
text_eq (c ∷ s) [] = false
text_eq (c ∷ s) (d ∷ t) = (c == d) && text_eq s t

-- `s == ""`
abbrev pub is_empty : Text → Bool
is_empty [] = true
is_empty (c ∷ s) = false

pub text_eq_sound : (s t : Text) → text_eq s t ≡ true → s ≡ t
unfolding text_eq
text_eq_sound [] [] h = refl
text_eq_sound [] (d ∷ t) h = cc
text_eq_sound (c ∷ s) [] h = cc
text_eq_sound (c ∷ s) (d ∷ t) h = ground (arith, text_eq_sound s t)

pub text_eq_refl : (s : Text) → text_eq s s ≡ true
unfolding text_eq
text_eq_refl [] = refl
text_eq_refl (c ∷ s) = ground (arith, text_eq_refl s)

pub text_eq_iff : (s t : Text) → (text_eq s t ≡ true) ↔ (s ≡ t)
text_eq_iff s t = (text_eq_sound s t, λ e. rw e (text_eq_refl t))

-- `strings.SplitN(s, sep, 2)` for a separator of one byte: `none` stands for the single part that
-- is the whole text, `some (a, b)` for the parts before and behind the first separator.
unfoldable pub split_pair : ℕ → Text → Option (Text × Text)
split_pair sep [] = none
split_pair sep (c ∷ s) =
    if c == sep
    then some ([], s)
    else (elim (split_pair sep s) [ none ↦ none | some (a, b) ↦ some (c ∷ a, b) ])

abbrev pub Lacks : ℕ → Text → Type 0
Lacks b = All (λ c. c ≢ b)

-- The first part of a split holds no separator, and the parts spell the text.
pub split_pair_sound :
    (sep : ℕ) (s a b : Text) → split_pair sep s ≡ some (a, b) → Lacks sep a × (s ≡ a ++ sep ∷ b)
unfolding split_pair
split_pair_sound sep [] a b h = cc
split_pair_sound sep (c ∷ s) a b h = elim (Option-cases (split_pair sep s)) [
  | inl e ↦ ground arith
  | inr ((a', b'), e) ↦ ground (arith, split_pair_sound sep s a' b' e)
]

pub split_pair_complete :
    (sep : ℕ) (a b : Text) → Lacks sep a → split_pair sep (a ++ sep ∷ b) ≡ some (a, b)
unfolding split_pair
split_pair_complete sep [] b h = ground arith
split_pair_complete sep (c ∷ a) b h = ground (arith, split_pair_complete sep a b h.1)

-- `strings.Contains(s, sub)`
unfoldable pub starts_with : Text → Text → Bool
starts_with [] s = true
starts_with (p ∷ ps) [] = false
starts_with (p ∷ ps) (c ∷ s) = (p == c) && starts_with ps s

unfoldable pub contains : Text → Text → Bool
unfolding starts_with
contains [] sub = is_empty sub
contains (c ∷ s) sub = if starts_with sub (c ∷ s) then true else contains s sub

-- `strings.Split(s, sep)` for a separator of one byte: `cur` is the part that is being read.
unfoldable pub split_from : ℕ → Text → Text → List Text
split_from sep [] cur = cur ∷ []
split_from sep (c ∷ s) cur = elim (c == sep) [
  | true ↦ cur ∷ split_from sep s []
  | false ↦ split_from sep s (cur ++ c ∷ [])
]

unfoldable pub split : ℕ → Text → List Text
unfolding split_from
split sep s = split_from sep s []
