-- ===== src/Capacity.antt =====
-- The sizes of internal/driver/controllerserver_helper.go: gigabytes and bytes, and the size that is
-- chosen from a request's capacity range.
pub mod Bounds
use linode_blockstorage_csi.Common.{
  ℕ, ◌*◌, ◌/◌, ◌^◌, ℤ, pos, negsuc, ltb_ℤ, ◌==ℤ◌, wrap, ◌*ℤ◌, Option, none, some, ◌&&◌, ◌||◌,
  if◌then◌else◌,
}
use linode_blockstorage_csi.Errors.{GoError, plain, end, number}
use linode_blockstorage_csi.Effect.{Result, ok, err}

-- `10 << 30`
abbrev pub min_volume_size_bytes : ℤ
min_volume_size_bytes = pos (10 * 2 ^ 30)

-- `numBytes >> 30`, an arithmetic shift: it rounds down, also below zero.
unfoldable pub bytes_to_gb : ℤ → ℤ
bytes_to_gb (pos n) = pos (n / 2 ^ 30)
bytes_to_gb (negsuc n) = negsuc (n / 2 ^ 30)

-- `int64(gb << 30)`, which drops the bits above the 64th.
unfoldable pub gb_to_bytes : ℤ → ℤ
unfolding wrap ◌*ℤ◌
gb_to_bytes gb = wrap (gb *ℤ pos (2 ^ 30))

-- csi.CapacityRange
pub record CapacityRange : Type 0 where
  pub required_bytes : ℤ
  pub limit_bytes : ℤ

unfoldable pub adjust_to_minimum_size : ℤ → ℤ
adjust_to_minimum_size size =
    if ltb_ℤ size min_volume_size_bytes then min_volume_size_bytes else size

unfoldable pub determine_optimal_size : ℤ → ℤ → ℤ
determine_optimal_size req_size max_size =
    if req_size ==ℤ pos 0 || ltb_ℤ req_size max_size then max_size else req_size

choose_size : ℤ → ℤ → Result ℤ
unfolding adjust_to_minimum_size determine_optimal_size
choose_size req_size max_size =
    if req_size ==ℤ pos 0 && max_size ==ℤ pos 0
    then err (plain "either RequiredBytes or LimitBytes must be set" end)
    else if ltb_ℤ req_size (pos 0) || ltb_ℤ max_size (pos 0)
    then err (plain "RequiredBytes and LimitBytes must not be negative" end)
    else if max_size ==ℤ pos 0
    then ok (adjust_to_minimum_size req_size)
    else if ltb_ℤ max_size min_volume_size_bytes
    then err (
        plain "limit bytes %v is less than minimum allowed bytes %v"
          (number max_size (number min_volume_size_bytes end)))
    else ok (determine_optimal_size req_size max_size)

unfoldable pub get_request_capacity_size : Option CapacityRange → Result ℤ
unfolding choose_size
get_request_capacity_size none = ok min_volume_size_bytes
get_request_capacity_size (some range) = choose_size range.required_bytes range.limit_bytes
