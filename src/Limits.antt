-- ===== src/Limits.antt =====
-- internal/driver/limits.go: how many volumes an instance can hold, by its memory.
pub mod Bounds
use linode_blockstorage_csi.Common.{ℕ, ◌/◌, ◌^◌, ltb, if◌then◌else◌}

abbrev pub max_persistent_attachments : ℕ
max_persistent_attachments = 8

abbrev pub max_attachments : ℕ
max_attachments = 64

-- The argument is a `uint` and the shift by 30 is a division.
unfoldable pub max_volume_attachments : ℕ → ℕ
max_volume_attachments memory_bytes =
    let attachments = memory_bytes / 2 ^ 30 in
    if ltb max_attachments attachments
    then max_attachments
    else if ltb attachments max_persistent_attachments
    then max_persistent_attachments
    else attachments
