-- ===== src/Volumes.antt =====
-- pkg/linode-volumes/utils.go: volume keys of the form "<id>-<label>", their labels cut to 32
-- bytes, and the integer ids of volumes and nodes.
pub mod RoundTrip
use Prim.Native.Nat.{bit_xor}
use Prim.Native.String.{String}
use linode_blockstorage_csi.Common.{
  ℕ, ◌*◌, ◌%◌, ◌^◌, ℤ, pos, Option, none, some, [], ◌∷◌, ◌++◌, Text, take, itoa, atoi, split_pair,
  is_empty, if◌then◌else◌,
}
use linode_blockstorage_csi.Errors.{GoError, Args, status, plain, invalid_argument, end, text}
use linode_blockstorage_csi.Effect.{Result, ok, err}

-- LinodeVolumeLabelLength
abbrev pub linode_volume_label_length : ℕ
linode_volume_label_length = 32

pub record LinodeVolumeKey : Type 0 where
  pub volume_id : ℤ
  pub label : Text

unfoldable pub create_linode_volume_key : ℤ → Text → LinodeVolumeKey
create_linode_volume_key id l = record { volume_id = id; label = l }

-- `id` is parsed by strconv.Atoi.
unfoldable pub key_of_parts : Text → Text → Result LinodeVolumeKey
key_of_parts id l = elim (atoi id) [
  | none ↦ err (plain "invalid linode volume id: %q" (text id end))
  | some n ↦ ok (record { volume_id = n; label = l })
]

unfoldable pub parse_linode_volume_key : Text → Result LinodeVolumeKey
unfolding key_of_parts
parse_linode_volume_key key = elim (split_pair b'-' key) [
  | none ↦ err (plain "invalid linode volume key: %q" (text key end))
  | some (id, l) ↦ key_of_parts id l
]

unfoldable pub get_normalized_label : LinodeVolumeKey → Text
get_normalized_label k = take linode_volume_label_length k.label

unfoldable pub get_normalized_label_with_prefix : Text → LinodeVolumeKey → Text
unfolding get_normalized_label
get_normalized_label_with_prefix prefix k =
    take linode_volume_label_length (prefix ++ get_normalized_label k)

unfoldable pub get_volume_key : LinodeVolumeKey → Text
unfolding get_normalized_label
get_volume_key k = itoa k.volume_id ++ b'-' ∷ get_normalized_label k

-- FNV-1a over 32 bits (hash/fnv.New32a).
fnv32a : ℕ → Text → ℕ
fnv32a h [] = h
fnv32a h (c ∷ s) = fnv32a ((bit_xor h c * 16777619) % 2 ^ 32) s

unfoldable pub hash_string_to_int : Text → ℤ
unfolding fnv32a
hash_string_to_int s = pos (fnv32a 2166136261 s)

-- A caller's name is followed by a space in a message.
caller_prefix : Text → Text
caller_prefix caller = if is_empty caller then caller else caller ++ b' ' ∷ []

-- An id that is no volume key is hashed.
unfoldable pub volume_id_as_int : Text → Text → Result ℤ
unfolding caller_prefix
volume_id_as_int caller id =
    if is_empty id
    then err
        (status invalid_argument "%sVolume ID must be provided" (text (caller_prefix caller) end))
    else (elim (parse_linode_volume_key id) [
      | ok key ↦ ok key.volume_id
      | err e ↦ ok (hash_string_to_int id)
    ])

unfoldable pub node_id_as_int : Text → Text → Result ℤ
unfolding caller_prefix
node_id_as_int caller id =
    if is_empty id
    then err
        (status invalid_argument "%sNode ID must be provided" (text (caller_prefix caller) end))
    else (elim (atoi id) [ some n ↦ ok n | none ↦ ok (hash_string_to_int id) ])
