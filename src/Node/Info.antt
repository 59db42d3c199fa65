-- ===== src/Node/Info.antt =====
-- `NodeExpandVolume`, `NodeGetInfo` and `NodeGetVolumeStats`, which change nothing.
pub mod Laws
pub mod Usages
use linode_blockstorage_csi.Common.{
  ℕ, ◌+◌, ◌-◌, ◌%◌, ◌^◌, ℤ, pos, ◌-ℤ◌, ◌*ℤ◌, wrap, signed, itoa, length, Text, codes, is_empty,
  Dict, insert, Option, none, some, [], ◌||◌, if◌then◌else◌,
}
use linode_blockstorage_csi.Errors.{
  GoError, status, invalid_argument, not_found, internal, err_internal, err_not_found,
  err_volume_not_found, end, cause,
}
use linode_blockstorage_csi.Effect.{
  Result, ok, err, M, pure, fail, lift, call, tell, ◌>>=◌, ◌>>◌, or_record, record_metrics,
  node_expand_op, completed_status,
}
use linode_blockstorage_csi.Volumes.{LinodeVolumeKey, parse_linode_volume_key}
use linode_blockstorage_csi.Limits.{max_volume_attachments}
use linode_blockstorage_csi.Capacity.{CapacityRange}
use linode_blockstorage_csi.Api.{LinodeClient}
use linode_blockstorage_csi.Metadata.{Metadata}
use linode_blockstorage_csi.Node.{validate_node_expand_volume_request}

pub record NodeInfo : Type 0 where
  pub node_id : Text
  pub max_volumes_per_node : ℤ
  pub accessible_topology : Dict

expand_key : Text → Result LinodeVolumeKey
expand_key volume_id = elim (parse_linode_volume_key volume_id) [
  | ok key ↦ ok key
  | err e ↦ err (err_not_found "volume not found: %v" (cause e end))
]

-- A missing range reads as zero.
required_bytes_of : Option CapacityRange → ℤ
required_bytes_of none = pos 0
required_bytes_of (some r) = r.required_bytes

module _ {W : Type 0} (client : LinodeClient W) where
  -- The capacity that is reported.
  unfoldable pub node_expand_volume : Text → Text → Option CapacityRange → M W ℤ
  unfolding expand_key required_bytes_of
  node_expand_volume volume_id volume_path range = do
    or_record node_expand_op (lift (validate_node_expand_volume_request volume_id volume_path))
    key ← or_record node_expand_op (lift (expand_key volume_id))
    or_record node_expand_op (
        call (λ e. err_volume_not_found key.volume_id)
          (client.list_volumes
            (record { page = pos 0; page_size = pos 0; label_filter = some key.label })))
    record_metrics node_expand_op completed_status
    pure (required_bytes_of range)

  unfoldable pub node_get_info : Metadata → M W NodeInfo
  node_get_info md = do
    disks ←
        call (λ e. err_internal "list instance disks: %v" (cause e end))
          (client.list_instance_disks md.id)
    pure (record {
      node_id = itoa md.id;
      max_volumes_per_node = pos (max_volume_attachments md.memory) -ℤ pos (length disks);
      accessible_topology = insert (codes "topology.linode.com/region") md.region [];
    })

-- unix.Statfs_t: the counts are unsigned 64-bit numbers, and the block size is signed.
pub record Statfs : Type 0 where
  pub bsize : ℤ
  pub blocks : ℕ
  pub bfree : ℕ
  pub bavail : ℕ
  pub files : ℕ
  pub ffree : ℕ

-- How a statfs call ends: errors.Is with unix.EIO and unix.ENOENT, and any other error.
pub data StatfsReply : Type 0 where
  stats : Statfs → StatfsReply
  eio enoent : GoError → StatfsReply
  other : GoError → StatfsReply

pub record Usage : Type 0 where
  pub available : ℤ
  pub total : ℤ
  pub used : ℤ

-- The usage in bytes and in inodes; a volume that is not mounted is abnormal and has none.
pub data VolumeStats : Type 0 where
  abnormal : GoError → VolumeStats
  healthy : Usage → Usage → VolumeStats

-- `blocks - bfree` in uint64.
abbrev pub sub_u64 : ℕ → ℕ → ℕ
sub_u64 a b = (a + 2 ^ 64 - b) % 2 ^ 64

unfoldable pub usage_of : Statfs → VolumeStats
usage_of st =
    healthy
      (record {
        available = wrap (signed st.bavail *ℤ st.bsize);
        total = wrap (signed st.blocks *ℤ st.bsize);
        used = wrap (signed (sub_u64 st.blocks st.bfree) *ℤ st.bsize);
      })
      (record {
        available = signed st.ffree;
        total = signed st.files;
        used = wrap (signed st.files -ℤ signed st.ffree);
      })

stats_of : StatfsReply → Result VolumeStats
unfolding usage_of
stats_of (stats st) = ok (usage_of st)
stats_of (eio e) = ok (abnormal e)
stats_of (enoent e) = err (status not_found "volume path not found: %v" (cause e end))
stats_of (other e) = err (status internal "failed to get stats: %v" (cause e end))

module _ {W : Type 0} (statfs : Text → W → StatfsReply × W) where
  unfoldable pub node_get_volume_stats : Text → Text → M W VolumeStats
  unfolding stats_of
  node_get_volume_stats volume_id volume_path =
      if is_empty volume_id || is_empty volume_path
      then fail (status invalid_argument "volume ID or path empty" end)
      else tell (statfs volume_path) >>= λ r. lift (stats_of r)
