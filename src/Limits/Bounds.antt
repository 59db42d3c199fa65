-- ===== src/Limits/Bounds.antt =====
-- The range and the growth of the attachment limit.
use linode_blockstorage_csi.Common.{ℕ, ◌/◌, ◌^◌, ◌≤◌, ◌≡◌, ◌*◌, arith}
use linode_blockstorage_csi.Limits.{
  max_volume_attachments, max_persistent_attachments, max_attachments,
}

-- The limit of an instance lies between 8 and 64, does not fall as the memory grows, and from 8 to
-- 64 GiB it is one volume for each whole GiB.
pub max_volume_attachments_bounds :
    (m n : ℕ)
    → m ≤ n
    → (max_persistent_attachments ≤ max_volume_attachments m)
      × (max_volume_attachments m ≤ max_attachments)
      × (max_volume_attachments m ≤ max_volume_attachments n)
      × (8 * 2 ^ 30 ≤ m → m ≤ 64 * 2 ^ 30 → max_volume_attachments m ≡ m / 2 ^ 30)
unfolding max_volume_attachments
max_volume_attachments_bounds m n h = ground arith
