-- ===== src/Common/Decimal.antt =====
-- `strconv.Itoa`, `strconv.Atoi` and `%d` for 64-bit integers.
use Prim.Native.Nat.{ℕ, zero, suc, ◌+◌, ◌-◌, ◌*◌, ◌/◌, ◌%◌, ◌^◌, ◌≤◌, ◌<◌}
use mathlib.Core.Path.{◌≡◌, refl, ◌∙◌}
use mathlib.Core.Logic.{◌≢◌}
use mathlib.Core.Bool.{◌&&◌}
use mathlib.Core.List.{[], ◌∷◌}
use mathlib.Core.Option.{Option, none, some}
use native.Mathlib.Omega.{arith}
use linode_blockstorage_csi.Common.Tests.{ltb, leb, ◌==◌, if◌then◌else◌}
use linode_blockstorage_csi.Common.Lists.{All}
use linode_blockstorage_csi.Common.Int.{ℤ, pos, negsuc, InInt64}
use linode_blockstorage_csi.Common.Strings.{Text, Lacks}

-- The digits of `n` in front of `out`. The fuel `n + 1` is enough: each round divides `n` by ten.
digits_from : ℕ → ℕ → Text → Text
digits_from zero n out = out
digits_from (suc fuel) n out =
    let more = digits_from fuel (n / 10) ((b'0' + n % 10) ∷ out) in
    if ltb n 10 then (b'0' + n) ∷ out else more

unfoldable pub digits : ℕ → Text
unfolding digits_from
digits n = digits_from (n + 1) n []

unfoldable pub itoa : ℤ → Text
unfolding digits
itoa (pos n) = digits n
itoa (negsuc n) = b'-' ∷ digits (n + 1)

-- The value of a non-empty run of digits, read behind the number `n`.
scan_digits : Text → ℕ → Option ℕ
scan_digits [] n = some n
scan_digits (c ∷ s) n =
    if leb b'0' c && leb c b'9' then scan_digits s (n * 10 + (c - b'0')) else none

unsigned : Text → Option ℕ
unfolding scan_digits
unsigned [] = none
unsigned (c ∷ s) = scan_digits (c ∷ s) 0

positive : Text → Option ℤ
unfolding unsigned
positive s = elim (unsigned s) [
  | none ↦ none
  | some n ↦ if ltb n (2 ^ 63) then some (pos n) else none
]

-- The integer that stands for -n.
abbrev negate : ℕ → ℤ
negate zero = pos 0
negate (suc n) = negsuc n

negative : Text → Option ℤ
unfolding unsigned
negative s = elim (unsigned s) [
  | none ↦ none
  | some n ↦ if leb n (2 ^ 63) then some (negate n) else none
]

-- A sign is allowed, and at least one digit is needed; `none` is the error.
unfoldable pub atoi : Text → Option ℤ
unfolding positive negative
atoi [] = none
atoi (c ∷ s) = if c == b'-' then negative s else if c == b'+' then positive s else positive (c ∷ s)

scan-digits_from :
    (fuel n : ℕ) (out : Text)
    → n < fuel
    → scan_digits (digits_from fuel n out) 0 ≡ scan_digits out n
unfolding digits_from scan_digits
scan-digits_from zero n out h = absurd (omega arith)
scan-digits_from (suc fuel) n out h =
    ground (arith, scan-digits_from fuel (n / 10) ((b'0' + n % 10) ∷ out))

scan-digits : (n : ℕ) → scan_digits (digits n) 0 ≡ some n
unfolding digits scan_digits
scan-digits n = scan-digits_from (n + 1) n [] (omega arith)

abbrev IsDigit : ℕ → Type 0
IsDigit c = (b'0' ≤ c) × (c ≤ b'9')

digits_from-IsDigit :
    (fuel n : ℕ) (out : Text) → All IsDigit out → All IsDigit (digits_from fuel n out)
unfolding digits_from
digits_from-IsDigit zero n out h = h
digits_from-IsDigit (suc fuel) n out h =
    ground (arith, digits_from-IsDigit fuel (n / 10) ((b'0' + n % 10) ∷ out))

digits_from-ne-nil : (fuel n : ℕ) (out : Text) → n < fuel → digits_from fuel n out ≢ []
unfolding digits_from
digits_from-ne-nil zero n out h = absurd (omega arith)
digits_from-ne-nil (suc fuel) n out h =
    ground (arith, digits_from-ne-nil fuel (n / 10) ((b'0' + n % 10) ∷ out))

unsigned-digits : (n : ℕ) → unsigned (digits n) ≡ some n
unfolding unsigned
unsigned-digits n =
    at (digits n) (scan-digits n) (unfold digits in digits_from-ne-nil (n + 1) n [] (omega arith))
  where
    at : (s : Text) → scan_digits s 0 ≡ some n → s ≢ [] → unsigned s ≡ some n
    at [] e h = absurd (h refl)
    at (c ∷ s) e h = e

negative-digits : (n : ℕ) → n ≤ 2 ^ 63 → negative (digits n) ≡ some (negate n)
unfolding negative
negative-digits n h = ground (arith, unsigned-digits n)

positive-digits : (n : ℕ) → n < 2 ^ 63 → positive (digits n) ≡ some (pos n)
unfolding positive
positive-digits n h = ground (arith, unsigned-digits n)

digits-IsDigit : (n : ℕ) → All IsDigit (digits n)
unfolding digits
digits-IsDigit n = digits_from-IsDigit (n + 1) n [] tt

atoi_digit : (s : Text) → All IsDigit s → s ≢ [] → atoi s ≡ positive s
unfolding atoi
atoi_digit [] d h = absurd (h refl)
atoi_digit (c ∷ s) d h = ground arith

digits-ne-nil : (n : ℕ) → digits n ≢ []
unfolding digits
digits-ne-nil n = digits_from-ne-nil (n + 1) n [] (omega arith)

-- Every 64-bit integer is read back from its print.
pub atoi-itoa : (z : ℤ) → InInt64 z → atoi (itoa z) ≡ some z
unfolding itoa
atoi-itoa (pos n) h =
    atoi_digit (digits n) (digits-IsDigit n) (digits-ne-nil n) ∙ positive-digits n (omega arith)
atoi-itoa (negsuc n) h = unfold atoi in (rw (negative-digits (n + 1) (omega arith)) (ground arith))

digit_not_dash : (s : Text) → All IsDigit s → Lacks b'-' s
digit_not_dash [] h = tt
digit_not_dash (c ∷ s) h = (omega arith, digit_not_dash s h.1)

-- The print of an integer that is not negative holds no dash.
pub itoa-Lacks : (n : ℕ) → Lacks b'-' (itoa (pos n))
unfolding itoa
itoa-Lacks n = digit_not_dash (digits n) (digits-IsDigit n)

pub itoa-ne-nil : (z : ℤ) → itoa z ≢ []
unfolding itoa
itoa-ne-nil (pos n) = digits-ne-nil n
itoa-ne-nil (negsuc n) = cc
