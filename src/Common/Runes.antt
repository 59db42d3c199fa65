-- ===== src/Common/Runes.antt =====
-- Go's conversion of a string to runes: UTF-8, where a byte that begins no well-formed sequence is
-- a rune of its own.
use Prim.Native.Nat.{ℕ, zero, suc}
use mathlib.Core.Path.{◌≡◌, refl, ap}
use mathlib.Core.Bool.{Bool, true, false, ◌&&◌}
use mathlib.Core.List.{List, [], ◌∷◌}
use mathlib.Core.Logic.{inl, inr}
use native.Mathlib.Omega.{arith}
use linode_blockstorage_csi.Common.Tests.{ltb, leb, ◌==◌, if◌then◌else◌, Bool-cases}
use linode_blockstorage_csi.Common.Lists.{length, all}
use linode_blockstorage_csi.Common.Strings.{Text}

-- The first bytes lie in the ranges.
begins_in : List (ℕ × ℕ) → Text → Bool
begins_in [] s = true
begins_in ((lo, hi) ∷ ranges) [] = false
begins_in ((lo, hi) ∷ ranges) (c ∷ s) = leb lo c && (leb c hi && begins_in ranges s)

-- The bytes that go with a first byte: as many as the ranges, if they fit.
with_bytes : List (ℕ × ℕ) → Text → ℕ
unfolding begins_in
with_bytes ranges s = if begins_in ranges s then length ranges else 0

-- How many bytes go with the first byte `b` of a rune, before `s`.
unfoldable pub rune_tail : ℕ → Text → ℕ
unfolding with_bytes
rune_tail b s =
    if ltb b 194
    then 0
    else if ltb b 224
    then with_bytes ((128, 191) ∷ []) s
    else if ltb b 240
    then with_bytes
        ((if b == 224 then 160 else 128, if b == 237 then 159 else 191) ∷ (128, 191) ∷ []) s
    else if ltb b 245
    then with_bytes
        ((if b == 240 then 144 else 128, if b == 244 then 143 else 191)
          ∷ (128, 191)
          ∷ (128, 191)
          ∷ [])
        s
    else 0

-- The runes after `k` more bytes of the present one.
unfoldable pub runes_after : ℕ → Text → ℕ
unfolding rune_tail
runes_after k [] = 0
runes_after (suc k) (c ∷ s) = runes_after k s
runes_after zero (c ∷ s) = suc (runes_after (rune_tail c s) s)

-- `len([]rune(s))`
unfoldable pub rune_count : Text → ℕ
unfolding runes_after
rune_count s = runes_after 0 s

abbrev pub is_ascii : ℕ → Bool
is_ascii c = ltb c 128

ascii_tail : (c : ℕ) (s : Text) → is_ascii c ≡ true → rune_tail c s ≡ 0
unfolding rune_tail
ascii_tail c s h = ground arith

-- An ASCII text has a rune for each byte.
pub rune_count_ascii : (s : Text) → all is_ascii s ≡ true → rune_count s ≡ length s
unfolding rune_count runes_after
rune_count_ascii [] h = refl
rune_count_ascii (c ∷ s) h = elim (Bool-cases (is_ascii c)) [
  | inl low ↦
      let rest : all is_ascii s ≡ true = ground arith in
      rw (ascii_tail c s low) (ap (λ n. suc n) (rune_count_ascii s rest))
  | inr high ↦ absurd (ground arith)
]
