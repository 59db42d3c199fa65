-- ===== src/Volumes/RoundTrip.antt =====
-- What the functions of pkg/linode-volumes/utils.go promise: keys are read back from their print,
-- labels fit the API's limit and keep their prefix, and every id but the empty one has a number.
use linode_blockstorage_csi.Common.{
  ℕ, ◌^◌, ◌<◌, pos, ◌≡◌, some, ◌∷◌, ◌++◌, Text, Lacks, take, itoa, atoi, atoi-itoa, itoa-Lacks,
  split_pair, split_pair_complete, split_pair_sound, Option-cases, inl, inr, arith,
}
use linode_blockstorage_csi.Effect.{ok}
use linode_blockstorage_csi.Volumes.{
  LinodeVolumeKey, key_of_parts, create_linode_volume_key, parse_linode_volume_key,
  get_normalized_label, get_volume_key,
}

key_of_parts-itoa :
    (n : ℕ) (l : Text)
    → n < 2 ^ 63
    → key_of_parts (itoa (pos n)) l ≡ ok (record { volume_id = pos n; label = l })
unfolding key_of_parts
key_of_parts-itoa n l h = ground (arith, atoi-itoa (pos n))

-- The key that is printed for a volume whose id fits an int64 and is not negative is parsed to
-- that id and to the label cut to 32 bytes.
pub parse_linode_volume_key-get_volume_key :
    (n : ℕ) (l : Text)
    → n < 2 ^ 63
    → parse_linode_volume_key (get_volume_key (create_linode_volume_key (pos n) l))
      ≡ ok (
          create_linode_volume_key
            (pos n)
            (get_normalized_label (create_linode_volume_key (pos n) l)))
unfolding parse_linode_volume_key get_volume_key create_linode_volume_key get_normalized_label
parse_linode_volume_key-get_volume_key n l h = ground (
  arith,
  split_pair_complete b'-' (itoa (pos n)) (take 32 l) (itoa-Lacks n),
  key_of_parts-itoa n (take 32 l) h,
)

-- A text that is accepted as a volume key is the key's id as a decimal, a dash, and its label, and
-- the dash is the first one.
pub parse_linode_volume_key_sound :
    (s : Text) (k : LinodeVolumeKey)
    → parse_linode_volume_key s ≡ ok k
    → (id : Text) × Lacks b'-' id × (atoi id ≡ some k.volume_id) × (s ≡ id ++ b'-' ∷ k.label)
unfolding parse_linode_volume_key key_of_parts
parse_linode_volume_key_sound s k h = elim (Option-cases (split_pair b'-' s)) [
  | inl e ↦ absurd (ground arith)
  | inr ((id, l), e) ↦ (
    id,
    (split_pair_sound b'-' s id l e).0,
    ground arith,
    ground (arith, split_pair_sound b'-' s id l e),
  )
]
