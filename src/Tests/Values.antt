-- ===== src/Tests/Values.antt =====
-- The theorems on keys, limits, sizes and tokens at concrete values.
use linode_blockstorage_csi.Common.{
  ◌+◌, ◌*◌, ◌-◌, ◌%◌, ◌^◌, ◌≤◌, ◌/◌, pos, ◌≤ℤ◌, Text, codes, Lacks, atoi, split_pair, some, ◌∷◌,
  ◌++◌, ◌≡◌, ◌⊎◌, refl, arith,
}
use linode_blockstorage_csi.Effect.{ok}
use linode_blockstorage_csi.Volumes.{
  create_linode_volume_key, get_volume_key, get_normalized_label, parse_linode_volume_key,
  key_of_parts,
}
use linode_blockstorage_csi.Volumes.RoundTrip.{
  parse_linode_volume_key-get_volume_key, parse_linode_volume_key_sound,
}
use linode_blockstorage_csi.Limits.{
  max_volume_attachments, max_persistent_attachments, max_attachments,
}
use linode_blockstorage_csi.Limits.Bounds.{max_volume_attachments_bounds}
use linode_blockstorage_csi.Capacity.{
  CapacityRange, min_volume_size_bytes, get_request_capacity_size, gb_to_bytes, bytes_to_gb,
}
use linode_blockstorage_csi.Capacity.Bounds.{
  get_request_capacity_size_lower, gb_to_bytes-bytes_to_gb,
}

parse_linode_volume_key-get_volume_key_example :
    parse_linode_volume_key (get_volume_key (create_linode_volume_key (pos 123) (codes "pvc-1")))
    ≡ ok (
        create_linode_volume_key
          (pos 123)
          (get_normalized_label (create_linode_volume_key (pos 123) (codes "pvc-1"))))
parse_linode_volume_key-get_volume_key_example =
    parse_linode_volume_key-get_volume_key 123 (codes "pvc-1") (omega arith)

parsed :
    parse_linode_volume_key (codes "12-a-b") ≡ ok (create_linode_volume_key (pos 12) (codes "a-b"))
unfolding parse_linode_volume_key create_linode_volume_key atoi key_of_parts split_pair
parsed = refl

parse_linode_volume_key_sound_example :
    (id : Text) × Lacks b'-' id
    × (atoi id ≡ some (create_linode_volume_key (pos 12) (codes "a-b")).volume_id)
    × (codes "12-a-b" ≡ id ++ b'-' ∷ (create_linode_volume_key (pos 12) (codes "a-b")).label)
parse_linode_volume_key_sound_example =
    parse_linode_volume_key_sound (codes "12-a-b") (create_linode_volume_key (pos 12) (codes "a-b"))
      parsed

max_volume_attachments_bounds_example :
    (max_persistent_attachments ≤ max_volume_attachments (16 * 2 ^ 30))
    × (max_volume_attachments (16 * 2 ^ 30) ≤ max_attachments)
    × (max_volume_attachments (16 * 2 ^ 30) ≤ max_volume_attachments (96 * 2 ^ 30))
    × (8 * 2 ^ 30 ≤ 16 * 2 ^ 30
        → 16 * 2 ^ 30 ≤ 64 * 2 ^ 30
        → max_volume_attachments (16 * 2 ^ 30) ≡ 16 * 2 ^ 30 / 2 ^ 30)
max_volume_attachments_bounds_example =
    max_volume_attachments_bounds (16 * 2 ^ 30) (96 * 2 ^ 30) (omega arith)

abbrev a_range : CapacityRange
a_range = record { required_bytes = pos (11 * 2 ^ 30); limit_bytes = pos (20 * 2 ^ 30) }

accepted : get_request_capacity_size (some a_range) ≡ ok (pos (20 * 2 ^ 30))
unfolding get_request_capacity_size
accepted = refl

get_request_capacity_size_lower_example :
    (min_volume_size_bytes ≤ℤ pos (20 * 2 ^ 30))
    × (a_range.required_bytes ≤ℤ pos (20 * 2 ^ 30))
    × (a_range.limit_bytes ≤ℤ pos (20 * 2 ^ 30))
    × ((pos (20 * 2 ^ 30) ≡ min_volume_size_bytes)
        ⊎ ((pos (20 * 2 ^ 30) ≡ a_range.required_bytes)
            ⊎ (pos (20 * 2 ^ 30) ≡ a_range.limit_bytes)))
get_request_capacity_size_lower_example =
    get_request_capacity_size_lower a_range (pos (20 * 2 ^ 30)) accepted

gb_to_bytes-bytes_to_gb_example :
    gb_to_bytes (bytes_to_gb (pos (11 * 2 ^ 30 + 5)))
    ≡ pos (11 * 2 ^ 30 + 5 - (11 * 2 ^ 30 + 5) % 2 ^ 30)
gb_to_bytes-bytes_to_gb_example = gb_to_bytes-bytes_to_gb (11 * 2 ^ 30 + 5) (omega arith)
