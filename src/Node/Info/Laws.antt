-- ===== src/Node/Info/Laws.antt =====
-- What the node reports of itself and of its volumes.
use linode_blockstorage_csi.Common.{
  ℕ, ◌^◌, ◌<◌, ℤ, pos, ◌-ℤ◌, to_word, length, itoa, insert, codes, [], List, some, ◌≡◌, refl, arith,
}
use linode_blockstorage_csi.Effect.{ok, done, State}
use linode_blockstorage_csi.Limits.{max_volume_attachments}
use linode_blockstorage_csi.Api.{LinodeClient, Instance}
use linode_blockstorage_csi.Metadata.{Metadata, memory_to_bytes, memory_of_specs}
use linode_blockstorage_csi.Controller.Publish.{max_allowed_volume_attachments, memory_bytes}
use linode_blockstorage_csi.Node.Info.{NodeInfo, node_get_info}

-- The two conversions of megabytes lead to the same limit: an instance of less than 1 GiB has the
-- least limit either way.
limits_agree :
    {W : Type 0} (client : LinodeClient W) (mb : ℕ)
    → mb < 2 ^ 44
    → max_volume_attachments (memory_to_bytes (pos mb))
      ≡ max_volume_attachments (memory_bytes client (pos mb))
unfolding max_volume_attachments memory_to_bytes to_word
limits_agree client mb h = ground arith

module _ {W : Type 0} (client : LinodeClient W) where
  -- For an instance whose memory is known and below 2^44 MB, and whose disks the API lists, the number
  -- of volumes that the node reports is the number that the controller service allows.
  pub node_get_info_limit :
      (s : State W) (md : Metadata) (i : Instance) (mb : ℕ) (disks : List ℤ) (w : W)
      → mb < 2 ^ 44
      → i.id ≡ md.id
      → i.memory ≡ some (pos mb)
      → md.memory ≡ memory_of_specs i.memory
      → client.list_instance_disks md.id s.world ≡ (ok disks, w)
      → (info : NodeInfo) × (node_get_info client md s ≡ (done info, record s { world = w }))
        × (info.node_id ≡ itoa md.id)
        × (max_allowed_volume_attachments client i s
            ≡ (done info.max_volumes_per_node, record s { world = w }))
  unfolding node_get_info max_allowed_volume_attachments memory_of_specs
  node_get_info_limit s md i mb disks w h hid hm hmd hd =
      let same = limits_agree client mb h in
      (
        record {
          node_id = itoa md.id;
          max_volumes_per_node = pos (max_volume_attachments md.memory) -ℤ pos (length disks);
          accessible_topology = insert (codes "topology.linode.com/region") md.region [];
        },
        ground arith,
        refl,
        ground (arith, same),
      )
