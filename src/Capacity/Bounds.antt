-- ===== src/Capacity/Bounds.antt =====
-- Which sizes the driver asks for and reports.
use linode_blockstorage_csi.Common.{
  ℕ, ◌-◌, ◌*◌, ◌%◌, ◌^◌, ◌≤◌, ◌<◌, ℤ, pos, negsuc, ◌≤ℤ◌, ◌<ℤ◌, ◌≡◌, ◌≢◌, ◌⊎◌, ◌*ℤ◌, some, arith,
}
use linode_blockstorage_csi.Effect.{ok}
use linode_blockstorage_csi.Capacity.{
  CapacityRange, min_volume_size_bytes, bytes_to_gb, gb_to_bytes, choose_size,
  get_request_capacity_size,
}

-- What an accepted size is to its range.
abbrev Fits : ℤ → ℤ → ℤ → Type 0
Fits r l size =
    (min_volume_size_bytes ≤ℤ size)
    × (r ≤ℤ size)
    × (l ≤ℤ size)
    × ((size ≡ min_volume_size_bytes) ⊎ ((size ≡ r) ⊎ (size ≡ l)))

choose_size-pos :
    (r l : ℕ) (size : ℤ) → choose_size (pos r) (pos l) ≡ ok size → Fits (pos r) (pos l) size
unfolding choose_size
choose_size-pos r l size e = ground arith

choose_size_negative_limit : (r : ℤ) (l : ℕ) (size : ℤ) → choose_size r (negsuc l) ≢ ok size
unfolding choose_size
choose_size_negative_limit (pos r) l size e = ground arith
choose_size_negative_limit (negsuc r) l size e = ground arith

choose_size_negative : (r : ℕ) (l size : ℤ) → choose_size (negsuc r) l ≢ ok size
unfolding choose_size
choose_size_negative r (pos l) size e = ground arith
choose_size_negative r (negsuc l) size e = ground arith

choose_size-Fits : (r l size : ℤ) → choose_size r l ≡ ok size → Fits r l size
choose_size-Fits (pos r) (pos l) size e = choose_size-pos r l size e
choose_size-Fits (pos r) (negsuc l) size e = absurd (choose_size_negative_limit (pos r) l size e)
choose_size-Fits (negsuc r) l size e = absurd (choose_size_negative r l size e)

-- Every size that is accepted is at least the smallest volume, 10 GiB, at least the bytes that the
-- range requires and at least its limit, and it is one of those three.
pub get_request_capacity_size_lower :
    (range : CapacityRange) (size : ℤ)
    → get_request_capacity_size (some range) ≡ ok size
    → (min_volume_size_bytes ≤ℤ size)
      × (range.required_bytes ≤ℤ size)
      × (range.limit_bytes ≤ℤ size)
      × ((size ≡ min_volume_size_bytes)
          ⊎ ((size ≡ range.required_bytes) ⊎ (size ≡ range.limit_bytes)))
get_request_capacity_size_lower range size h =
    choose_size-Fits range.required_bytes range.limit_bytes size
      (unfold get_request_capacity_size in h)

-- A range whose required size is above its limit (which is at least 10 GiB) is not refused: the
-- size is the required one, above the limit.
pub get_request_capacity_size_above_limit :
    (r l : ℕ)
    → 10 * 2 ^ 30 ≤ l
    → l < r
    → (get_request_capacity_size (some (record { required_bytes = pos r; limit_bytes = pos l }))
        ≡ ok (pos r))
      × (pos l <ℤ pos r)
unfolding get_request_capacity_size
get_request_capacity_size_above_limit r l h k = ground arith

-- The gigabytes that are asked of the API hold at most the bytes that were requested, and fewer by
-- the remainder of a division by 2^30.
pub gb_to_bytes-bytes_to_gb :
    (n : ℕ) → n < 2 ^ 63 → gb_to_bytes (bytes_to_gb (pos n)) ≡ pos (n - n % 2 ^ 30)
unfolding gb_to_bytes bytes_to_gb ◌*ℤ◌
gb_to_bytes-bytes_to_gb n h = ground arith
