-- ===== src/Tests/NodeRuns.antt =====
-- The theorems of the node service on the small node.
use linode_blockstorage_csi.Common.{
  pos, codes, text_eq, split_pair, get, lookup, some, none, [], ◌∷◌, false, ◌≡◌, ◌≢◌, refl, arith,
}
use linode_blockstorage_csi.Errors.{GoError}
use linode_blockstorage_csi.Effect.{ok, failed, node_publish_op, completed_status, failed_status}
use linode_blockstorage_csi.Volumes.{
  create_linode_volume_key, get_volume_key, get_normalized_label, get_normalized_label_with_prefix,
}
use linode_blockstorage_csi.Api.{Volume}
use linode_blockstorage_csi.Csi.{
  single_node_writer, AccessType, no_access, block_access, VolumeCapability, CreateVolumeRequest,
}
use linode_blockstorage_csi.Luks.{get_luks_context, luks_encrypted_attribute, true_text}
use linode_blockstorage_csi.Controller.Provision.{create_volume_context}
use linode_blockstorage_csi.Node.{
  PublishRequest, get_mount_source, validate_node_publish_volume_request,
}
use linode_blockstorage_csi.Node.Unstage.{node_unstage_volume}
use linode_blockstorage_csi.Node.Publish.{node_publish_volume}
use linode_blockstorage_csi.Effect.{done}
use linode_blockstorage_csi.Common.{◌⊎◌}
use linode_blockstorage_csi.Node.Publish.Laws.{node_publish_volume_block_counts}
use linode_blockstorage_csi.Host.Frame.{mapping}
use linode_blockstorage_csi.Node.Refinement.Leftover.{node_unstage_volume_leaves_mapping}
use linode_blockstorage_csi.Tests.Mounts.{table, table_frame, bare}
use linode_blockstorage_csi.Tests.Machine.{machine, idle, disk}

abbrev cap : AccessType → VolumeCapability
cap t = record { access_mode = some single_node_writer; access_type = t }

given : codes "3-pvc" ≢ []
given e = cc

staged : codes "/stage" ≢ []
staged e = cc

source : get_mount_source (codes "3-pvc") ≡ ok (codes "pvc")
unfolding get_mount_source split_pair
source = refl

abbrev encrypted : CreateVolumeRequest
encrypted = record {
  name = codes "pvc";
  volume_capabilities = some (cap no_access) ∷ [];
  capacity_range = none;
  parameters = (luks_encrypted_attribute, true_text) ∷ [];
  accessibility_requirements = none;
  content_source = none;
}

abbrev labelled : Volume
labelled = record {
  id = pos 3;
  label = codes "k8spvc";
  region = codes "us-east";
  size = pos 10;
  linode_id = none;
  filesystem_path = disk;
}

is_encrypted : get luks_encrypted_attribute encrypted.parameters ≡ true_text
unfolding get lookup text_eq
is_encrypted = refl

has_label :
    labelled.label
    ≡ get_normalized_label_with_prefix
        (codes "k8s")
        (create_linode_volume_key (pos 0) encrypted.name)
unfolding get_normalized_label_with_prefix get_normalized_label create_linode_volume_key
has_label = refl

prefixed : codes "k8s" ≢ []
prefixed e = cc

node_unstage_volume_leaves_mapping_example :
    let opened = (get_luks_context [] (create_volume_context encrypted labelled)).volume_name in
    let volume_id = get_volume_key (create_linode_volume_key (pos 3) labelled.label) in
    (node_unstage_volume table volume_id (codes "/stage") bare).1.world (mapping opened) ≡ []
node_unstage_volume_leaves_mapping_example =
    node_unstage_volume_leaves_mapping table_frame encrypted labelled [] (codes "k8s") 3
      (codes "/stage") bare is_encrypted has_label (omega arith) prefixed

-- A block volume whose target cannot be made.
abbrev block_request : PublishRequest
block_request = record {
  volume_id = codes "3-pvc";
  staging_target_path = codes "/stage";
  target_path = codes "/pod/block";
  volume_capability = some (cap block_access);
  readonly = false;
  publish_context = (codes "devicePath", disk) ∷ [];
}

valid_block : validate_node_publish_volume_request block_request ≡ ok (cap block_access)
unfolding validate_node_publish_volume_request
valid_block = refl

node_publish_volume_block_counts_example :
    let (o, s') = node_publish_volume machine block_request idle in
    ((o ≡ done tt) × (s'.samples ≡ (node_publish_op, completed_status) ∷ []))
    ⊎ ((e : GoError) × (o ≡ failed e)
        × (s'.samples
            ≡ (node_publish_op, completed_status) ∷ (node_publish_op, failed_status) ∷ []))
node_publish_volume_block_counts_example =
    node_publish_volume_block_counts machine block_request (cap block_access) idle valid_block refl
