-- ===== src/Driver/Prefixes.antt =====
-- Which volume label prefixes the driver accepts, and the labels that are made with them.
use linode_blockstorage_csi.Common.{
  ℕ, suc, zero, ◌-◌, ◌≤◌, ◌<◌, pos, Text, [], ◌∷◌, ◌++◌, Bool-cases, true, false, all, length, take,
  is_ascii, rune_count, rune_count_ascii, ◌≡◌, ◌↔◌, inl, inr, refl, ap, ◌∙◌, length-take, arith,
}
use linode_blockstorage_csi.Errors.{plain, end, number}
use linode_blockstorage_csi.Effect.{ok, err}
use linode_blockstorage_csi.Volumes.{
  LinodeVolumeKey, get_normalized_label, get_normalized_label_with_prefix,
}
use linode_blockstorage_csi.Driver.{is_prefix_char, prefix_matches, check_volume_label_prefix}

prefix_char-is_ascii : (c : ℕ) → is_prefix_char c ≡ true → is_ascii c ≡ true
prefix_char-is_ascii c h = ground arith

all_ascii : (s : Text) → all is_prefix_char s ≡ true → all is_ascii s ≡ true
all_ascii [] h = refl
all_ascii (c ∷ s) h = elim (Bool-cases (is_prefix_char c)) [
  | inl good ↦
      let rest : all is_prefix_char s ≡ true = rw (← h, good) refl in
      rw (prefix_char-is_ascii c good) (all_ascii s rest)
  | inr bad ↦ absurd (let e : false ≡ true = rw (← h, bad) refl in cc)
]

accepted :
    (s : Text)
    → check_volume_label_prefix s ≡ ok tt
    → (all is_prefix_char s ≡ true) × (length s ≤ 12)
unfolding check_volume_label_prefix prefix_matches
accepted s h = ground arith

accepts :
    (s : Text)
    → rune_count s ≤ 12
    → all is_prefix_char s ≡ true
    → length s ≤ 12
    → check_volume_label_prefix s ≡ ok tt
unfolding check_volume_label_prefix prefix_matches
accepts s few good short = ground arith

module _ (s : Text) where
  -- The prefixes that are accepted are those of at most 12 bytes, all of them digits, letters, `_`
  -- or `-`. A prefix of more than 12 characters is refused as too long, whatever they are.
  pub check_volume_label_prefix_iff :
      ((check_volume_label_prefix s ≡ ok tt) ↔ ((all is_prefix_char s ≡ true) × (length s ≤ 12)))
      × (12 < rune_count s
          → check_volume_label_prefix s
            ≡ err (
                plain "volume label prefix is too long: length=%d max=%d"
                  (number (pos (rune_count s)) (number (pos 12) end))))
  unfolding check_volume_label_prefix
  check_volume_label_prefix_iff = (
    (
      accepted s,
      (λ (good, short). accepts s (rw (rune_count_ascii s (all_ascii s good)) short) good short),
    ),
    (λ long. ground arith),
  )

take-append :
    (n : ℕ) (xs ys : Text) → length xs ≤ n → take n (xs ++ ys) ≡ xs ++ take (n - length xs) ys
take-append n [] ys h = let whole : n ≡ n - 0 = omega arith in ap (λ m. take m ys) whole
take-append zero (x ∷ xs) ys h = absurd (omega arith)
take-append (suc n) (x ∷ xs) ys h =
    let less : n - length xs ≡ suc n - suc (length xs) = omega arith in
    ap (λ s. x ∷ s) (take-append n xs ys (omega arith)) ∙ ap (λ m. x ∷ (xs ++ take m ys)) less

take-take : (n m : ℕ) (xs : Text) → n ≤ m → take n (take m xs) ≡ take n xs
take-take zero m xs h = refl
take-take (suc n) zero xs h = absurd (omega arith)
take-take (suc n) (suc m) [] h = refl
take-take (suc n) (suc m) (x ∷ xs) h = ap (λ s. x ∷ s) (take-take n m xs (omega arith))

-- A label that is made with a prefix that the driver accepts is the whole prefix, then the first
-- bytes of the name, of which there is room for 20 at least; it has at most 32 bytes.
pub label_with_prefix :
    (prefix : Text) (key : LinodeVolumeKey)
    → check_volume_label_prefix prefix ≡ ok tt
    → (get_normalized_label_with_prefix prefix key ≡ prefix ++ take (32 - length prefix) key.label)
      × ((20 ≤ 32 - length prefix) × (length (get_normalized_label_with_prefix prefix key) ≤ 32))
unfolding get_normalized_label_with_prefix get_normalized_label
label_with_prefix prefix key h =
    let (good, short) = accepted prefix h in
    (
      take-append 32 prefix (take 32 key.label) (omega arith)
          ∙ ap (λ s. prefix ++ s) (take-take (32 - length prefix) 32 key.label (omega arith)),
      (omega arith, omega (arith, length-take 32 (prefix ++ take 32 key.label))),
    )
