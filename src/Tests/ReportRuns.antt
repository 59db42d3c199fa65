-- ===== src/Tests/ReportRuns.antt =====
-- The theorems on metadata, reports and formatted devices on the small node.
use linode_blockstorage_csi.Common.{
  ◌+◌, ◌*◌, ◌+ℤ◌, ◌≤ℤ◌, itoa, ℕ, pos, codes, some, none, [], ◌∷◌, true, ◌≡◌, refl, arith,
}
use linode_blockstorage_csi.Effect.{ok, done}
use linode_blockstorage_csi.Tests.Machine.{luks, machine, idle, disk}
use linode_blockstorage_csi.Luks.{blkid_valid}
use linode_blockstorage_csi.Node.Stage.{format_luks_volume}
use linode_blockstorage_csi.Node.Stage.Safety.{format_luks_volume_keeps}
use linode_blockstorage_csi.Node.Info.{Statfs, Usage, healthy, usage_of, NodeInfo, node_get_info}
use linode_blockstorage_csi.Node.Info.Usages.{usage_of_bounds}
use linode_blockstorage_csi.Node.Info.Laws.{node_get_info_limit}
use linode_blockstorage_csi.Metadata.{Metadata, MetadataService, memory_to_bytes, memory_of_specs}
use linode_blockstorage_csi.Controller.Publish.{max_allowed_volume_attachments}
use linode_blockstorage_csi.Tests.Cloud.{instance_of_cloud, cloud_client, start}

-- blkid finds something on the disk, so that it does not matter what formatting would do.
formatted_disk : blkid_valid machine disk idle ≡ (done true, idle)
unfolding blkid_valid
formatted_disk = refl

format_luks_volume_keeps_example :
    format_luks_volume
      (record machine { crypt = record machine.crypt { format = λ d p w. (ok tt, w + 10) } })
      disk
      (luks (codes "aes-xts"))
      idle
    ≡ format_luks_volume machine disk (luks (codes "aes-xts")) idle
format_luks_volume_keeps_example =
    format_luks_volume_keeps machine (λ d p w. (ok tt, w + 10)) disk (luks (codes "aes-xts")) idle
      idle formatted_disk

abbrev small_disk : Statfs
small_disk = record {
  bsize = pos 4096;
  blocks = 1000;
  bfree = 400;
  bavail = 300;
  files = 50;
  ffree = 20;
}

usage_of_bounds_example :
    (bytes : Usage) × (inodes : Usage) × (usage_of small_disk ≡ healthy bytes inodes)
    × (bytes.total ≡ pos (1000 * 4096))
    × (bytes.available +ℤ bytes.used ≤ℤ bytes.total)
    × (inodes.available +ℤ inodes.used ≡ inodes.total)
usage_of_bounds_example =
    usage_of_bounds small_disk 4096 refl (omega arith) (omega arith) (omega arith) (omega arith)
      (omega arith) (omega arith)

-- A metadata service that answers.
abbrev service : MetadataService ℕ
service = record {
  new_client = λ w. (ok tt, w);
  get_instance = λ w. (
    ok (
        some (record {
          id = pos 5;
          label = codes "node";
          region = codes "us-east";
          memory = pos 8192;
        })),
    w,
  );
}

abbrev own : Metadata
own = record {
  id = pos 5;
  label = codes "node";
  region = codes "us-east";
  memory = memory_to_bytes (pos 8192);
}

node_get_info_limit_example :
    (info : NodeInfo) × (node_get_info cloud_client own (start (λ j. none))
      ≡ (done info, start (λ j. none)))
    × (info.node_id ≡ itoa (pos 5))
    × (max_allowed_volume_attachments cloud_client instance_of_cloud (start (λ j. none))
        ≡ (done info.max_volumes_per_node, start (λ j. none)))
unfolding memory_of_specs
node_get_info_limit_example =
    node_get_info_limit cloud_client (start (λ j. none)) own instance_of_cloud 8192
      (pos 1 ∷ pos 2 ∷ []) (λ j. none) (omega arith) refl refl refl refl
