-- ===== src/Tests/MountRuns.antt =====
-- The theorems of the node service's specification on the small node.
use linode_blockstorage_csi.Common.{
  codes, text_eq, split, split_pair, atoi, get, lookup, some, List, [], ◌∷◌, true, ◌≡◌, ◌≢◌, refl,
}
use mathlib.Core.List.{Memᴰ}
use linode_blockstorage_csi.Volumes.{parse_linode_volume_key, get_normalized_label}
use linode_blockstorage_csi.Paths.{join}
use linode_blockstorage_csi.Devices.{
  get_disk_by_id_paths, verify_device_path, stat_result, first_existing, path_exists,
  udevadm_change_to_new_drives,
}
use linode_blockstorage_csi.Luks.{
  get_luks_context, blkid_valid, validate, luks_problems, luks_format, luks_encrypted_attribute,
  luks_cipher_attribute, luks_key_size_attribute, luks_key_attribute, publish_info_volume_name,
  true_text,
}
use linode_blockstorage_csi.Node.Stage.Calm.{IsUndashed}
use linode_blockstorage_csi.Node.Replies.{NodePanics, NodePanics-only}
use linode_blockstorage_csi.Node.Stage.{
  node_stage_volume, find_device_path, partition_of, mount_volume, format_luks_volume,
}
use linode_blockstorage_csi.Csi.{single_node_writer, no_access, VolumeCapability}
use linode_blockstorage_csi.Host.Frame.{target, mounted, Content}
use linode_blockstorage_csi.Node.{
  StageRequest, PublishRequest, ensure_mount_point, validate_node_publish_volume_request,
  validate_node_stage_volume_request, get_fs_type_and_mount_options,
}
use linode_blockstorage_csi.Node.Publish.{options_of, node_publish_volume}
use linode_blockstorage_csi.Node.Spec.{
  NodeRequest, stage_request, unstage_request, publish_request, unpublish_request, NodeRun,
}
use linode_blockstorage_csi.Node.Refinement.{serve_node_all, serve_node_all-NodeRun}
use linode_blockstorage_csi.Node.Refinement.Origins.{
  ComesFrom, IsReadonly, serve_node_all-ComesFrom, serve_node_all-IsReadonly,
}
use linode_blockstorage_csi.Tests.Mounts.{table, table_frame, bare}

abbrev cap : VolumeCapability
cap = record { access_mode = some single_node_writer; access_type = no_access }

abbrev staged : StageRequest
staged = record {
  volume_id = codes "3-pvc";
  staging_target_path = codes "/stage";
  volume_capability = some cap;
  volume_context = [];
  secrets = [];
}

abbrev read_only : PublishRequest
read_only = record {
  volume_id = codes "3-pvc";
  staging_target_path = codes "/stage";
  target_path = codes "/pod";
  volume_capability = some cap;
  readonly = true;
  publish_context = [];
}

abbrev reads : List NodeRequest
reads = stage_request staged ∷ publish_request read_only ∷ []

abbrev life : List NodeRequest
life =
    stage_request staged
    ∷ publish_request read_only
    ∷ unpublish_request (codes "3-pvc") (codes "/pod")
    ∷ unstage_request (codes "3-pvc") (codes "/stage")
    ∷ []

serve_node_all-NodeRun_example : NodeRun life (λ q. []) (serve_node_all table life bare).world
serve_node_all-NodeRun_example = serve_node_all-NodeRun table_frame life bare

abbrev ro_mount : Content
ro_mount = mounted (codes "/stage") (codes "ext4") (codes "bind" ∷ codes "ro" ∷ [])

is_mounted : Memᴰ ro_mount ((serve_node_all table reads bare).world (target (codes "/pod")))
unfolding node_stage_volume find_device_path parse_linode_volume_key get_normalized_label
    get_disk_by_id_paths partition_of verify_device_path mount_volume get_luks_context
    get_fs_type_and_mount_options validate_node_stage_volume_request stat_result first_existing
    path_exists udevadm_change_to_new_drives get lookup join split split_pair atoi
    node_publish_volume ensure_mount_point options_of validate_node_publish_volume_request text_eq
is_mounted = Memᴰ.head refl

serve_node_all-ComesFrom_example : ComesFrom reads (λ q. []) (target (codes "/pod")) ro_mount
serve_node_all-ComesFrom_example =
    serve_node_all-ComesFrom table_frame reads bare (target (codes "/pod")) ro_mount is_mounted

elsewhere : codes "/pod" ≢ codes "/stage"
elsewhere e = cc

serve_node_all-IsReadonly_example : IsReadonly ro_mount
serve_node_all-IsReadonly_example =
    serve_node_all-IsReadonly table_frame reads bare (codes "/pod") refl
      (elsewhere, ((λ _. refl), tt)) ro_mount is_mounted

-- An encrypted volume whose cipher has no dash.
abbrev undashed : StageRequest
undashed = record staged {
  volume_context =
      (luks_encrypted_attribute, true_text)
      ∷ (luks_cipher_attribute, codes "aes")
      ∷ (luks_key_size_attribute, codes "512")
      ∷ (publish_info_volume_name, codes "pvc")
      ∷ [];
  secrets = (luks_key_attribute, codes "secret") ∷ [];
}

undashed-NodePanics : NodePanics table (stage_request undashed) bare
unfolding node_stage_volume find_device_path parse_linode_volume_key get_normalized_label
    get_disk_by_id_paths partition_of verify_device_path mount_volume get_luks_context
    get_fs_type_and_mount_options validate_node_stage_volume_request stat_result first_existing
    path_exists udevadm_change_to_new_drives get lookup join split split_pair atoi
    ensure_mount_point text_eq format_luks_volume blkid_valid validate luks_problems luks_format
undashed-NodePanics = refl

NodePanics-only_example :
    (req : StageRequest) × (stage_request undashed ≡ stage_request req) × IsUndashed req
NodePanics-only_example = NodePanics-only table (stage_request undashed) bare undashed-NodePanics
