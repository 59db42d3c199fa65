-- ===== src/Tests/AttachmentRuns.antt =====
-- The theorems on deleting, publishing and unpublishing in the small cloud.
use linode_blockstorage_csi.Common.{
  ◌+◌, ◌<◌, ◌≤◌, pos, codes, atoi, split_pair, some, none, [], ◌∷◌, length, ◌≡◌, ◌≢◌, refl, arith,
}
use linode_blockstorage_csi.Errors.{GoError, code_of, resource_exhausted}
use linode_blockstorage_csi.Effect.{
  ok, done, failed, State, delete_volume_op, publish_volume_op, unpublish_volume_op,
}
use linode_blockstorage_csi.Effect.Samples.{RecordsOne}
use linode_blockstorage_csi.Volumes.{
  volume_id_as_int, node_id_as_int, parse_linode_volume_key, key_of_parts,
}
use linode_blockstorage_csi.Limits.{max_volume_attachments}
use linode_blockstorage_csi.Limits.Bounds.{max_volume_attachments_bounds}
use linode_blockstorage_csi.Csi.{PublishRequest}
use linode_blockstorage_csi.Controller.{valid_volume_capabilities}
use linode_blockstorage_csi.Controller.Delete.{delete_volume}
use linode_blockstorage_csi.Controller.Delete.Laws.{delete_volume_twice}
use linode_blockstorage_csi.Controller.Publish.{
  memory_bytes, check_attachment_capacity, controller_publish_volume, context_of,
  validate_controller_publish_volume_request,
}
use linode_blockstorage_csi.Controller.Publish.Attachments.{check_attachment_capacity_iff}
use linode_blockstorage_csi.Controller.Publish.Laws.{controller_publish_volume_twice}
use linode_blockstorage_csi.Controller.Unpublish.{controller_unpublish_volume}
use linode_blockstorage_csi.Controller.{Server}
use linode_blockstorage_csi.Csi.{CreateVolumeRequest}
use linode_blockstorage_csi.Effect.{create_volume_op}
use linode_blockstorage_csi.Controller.Create.{create_volume}
use linode_blockstorage_csi.Samples.{operations-RecordsOne}
use linode_blockstorage_csi.Node.{StageRequest}
use linode_blockstorage_csi.Node.Stage.{node_stage_volume}
use linode_blockstorage_csi.Node.Unstage.{node_unstage_volume, node_unpublish_volume}
use linode_blockstorage_csi.Effect.{node_stage_op, node_unstage_op, node_unpublish_op}
use linode_blockstorage_csi.Tests.Machine.{machine}
use linode_blockstorage_csi.Controller.Life.{publish_unpublish_delete}
use linode_blockstorage_csi.Api.{Volume}
use linode_blockstorage_csi.Tests.Cloud.{
  writer, empty_cloud, twin, Cloud, instance_of_cloud, cloud_client, cloud_laws, a_volume, holding,
  start,
}

abbrev any_server : Server
any_server = record { volume_label_prefix = []; region = codes "us-east" }

abbrev nameless : CreateVolumeRequest
nameless = record {
  name = [];
  volume_capabilities = writer ∷ [];
  capacity_range = none;
  parameters = [];
  content_source = none;
  accessibility_requirements = none;
}

-- A volume id and a node id in the API's form.
delete_id : volume_id_as_int (codes "DeleteVolume") (codes "3-k8spvc") ≡ ok (pos 3)
unfolding volume_id_as_int parse_linode_volume_key split_pair key_of_parts atoi
delete_id = refl

unpublish_node : node_id_as_int (codes "ControllerUnpublishVolume") (codes "5") ≡ ok (pos 5)
unfolding node_id_as_int atoi
unpublish_node = refl

abbrev publish_request : PublishRequest
publish_request = record {
  volume_id = codes "3-k8spvc";
  node_id = codes "5";
  volume_capability = writer;
}

valid_publish :
    (s : State Cloud)
    → validate_controller_publish_volume_request cloud_client publish_request s
      ≡ (done (pos 5, pos 3), s)
unfolding validate_controller_publish_volume_request node_id_as_int volume_id_as_int
    parse_linode_volume_key split_pair key_of_parts atoi valid_volume_capabilities
valid_publish s = refl

delete_volume_twice_example :
    let (o, s') = delete_volume cloud_client (codes "3-k8spvc") (start (holding twin)) in
    let (o', s'') = delete_volume cloud_client (codes "3-k8spvc") s' in
    (o ≡ done tt) × (s'.world (pos 3) ≡ none) × (o' ≡ done tt) × (s''.world ≡ s'.world)
delete_volume_twice_example =
    delete_volume_twice cloud_laws (start (holding twin)) (codes "3-k8spvc") (pos 3) twin delete_id
      refl refl

check_attachment_capacity_iff_example :
    (length {A = Volume} [] + length (pos 1 ∷ pos 2 ∷ [])
        < max_volume_attachments (memory_bytes cloud_client (pos 8192))
      → check_attachment_capacity cloud_client instance_of_cloud (start empty_cloud)
        ≡ (done tt, start empty_cloud))
    × (max_volume_attachments (memory_bytes cloud_client (pos 8192))
          ≤ length {A = Volume} [] + length (pos 1 ∷ pos 2 ∷ [])
        → (e : GoError) × ((check_attachment_capacity cloud_client instance_of_cloud
              (start empty_cloud)).0
            ≡ failed e)
          × (code_of e ≡ resource_exhausted))
check_attachment_capacity_iff_example =
    check_attachment_capacity_iff cloud_client (start empty_cloud) instance_of_cloud (pos 8192)
      (pos 1 ∷ pos 2 ∷ []) [] empty_cloud empty_cloud refl refl refl

room : 0 + 2 < max_volume_attachments (memory_bytes cloud_client (pos 8192))
unfolding max_volume_attachments
room = ground arith

limited : max_volume_attachments (memory_bytes cloud_client (pos 8192)) ≤ 64
limited =
    (max_volume_attachments_bounds (memory_bytes cloud_client (pos 8192))
      (memory_bytes cloud_client (pos 8192)) (omega arith)).1

has_path : (a_volume (codes "k8spvc") none).filesystem_path ≢ []
has_path e = cc

controller_publish_volume_twice_example :
    let (o, s') = controller_publish_volume cloud_client publish_request (start (holding twin)) in
    let (o', s'') = controller_publish_volume cloud_client publish_request s' in
    (o ≡ done (context_of cloud_client twin.filesystem_path))
    × (s'.world (pos 3) ≡ some (a_volume (codes "k8spvc") (some (pos 5))))
    × (o' ≡ o)
    × (s''.world ≡ s'.world)
controller_publish_volume_twice_example =
    controller_publish_volume_twice cloud_laws (start (holding twin)) publish_request (pos 3)
      instance_of_cloud twin (pos 8192) (pos 1 ∷ pos 2 ∷ []) [] valid_publish refl refl refl refl
      refl refl limited refl has_path room

publish_id : volume_id_as_int (codes "ControllerPublishVolume") (codes "3-k8spvc") ≡ ok (pos 3)
unfolding volume_id_as_int parse_linode_volume_key split_pair key_of_parts atoi
publish_id = refl

publish_unpublish_delete_example :
    let (o, s') = controller_publish_volume cloud_client publish_request (start (holding twin)) in
    let (o', s'') = controller_unpublish_volume cloud_client (codes "3-k8spvc") (codes "5") s' in
    let (o'', t) = delete_volume cloud_client (codes "3-k8spvc") s'' in
    (o ≡ done (context_of cloud_client twin.filesystem_path))
    × (s'.world (pos 3) ≡ some (a_volume (codes "k8spvc") (some (pos 5))))
    × (o' ≡ done tt)
    × (s''.world (pos 3) ≡ some twin)
    × (o'' ≡ done tt)
    × (t.world (pos 3) ≡ none)
publish_unpublish_delete_example =
    publish_unpublish_delete cloud_laws (start (holding twin)) publish_request (pos 3)
      instance_of_cloud twin (pos 8192) (pos 1 ∷ pos 2 ∷ []) [] valid_publish publish_id
      unpublish_node refl refl refl refl refl refl limited refl has_path room

abbrev unstaged : StageRequest
unstaged = record {
  volume_id = codes "3-k8spvc";
  staging_target_path = codes "/stage";
  volume_capability = writer;
  volume_context = [];
  secrets = [];
}

operations-RecordsOne_example :
    RecordsOne create_volume_op (create_volume cloud_client any_server nameless)
    × RecordsOne delete_volume_op (delete_volume cloud_client (codes "3-k8spvc"))
    × RecordsOne publish_volume_op (controller_publish_volume cloud_client publish_request)
    × RecordsOne unpublish_volume_op
        (controller_unpublish_volume cloud_client (codes "3-k8spvc") (codes "5"))
    × RecordsOne node_stage_op (node_stage_volume machine unstaged)
    × RecordsOne node_unstage_op (node_unstage_volume machine (codes "3-k8spvc") (codes "/stage"))
    × RecordsOne node_unpublish_op
        (node_unpublish_volume machine (codes "3-k8spvc") (codes "/stage"))
operations-RecordsOne_example =
    operations-RecordsOne cloud_client machine any_server nameless publish_request unstaged
      (codes "3-k8spvc") (codes "5") (codes "/stage")
