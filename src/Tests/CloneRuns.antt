-- ===== src/Tests/CloneRuns.antt =====
-- A volume is cloned in the cloud.
use linode_blockstorage_csi.Common.{
  ℤ, pos, ◌*◌, ◌^◌, Text, codes, text_eq, get, lookup, split_pair, atoi, some, none, [], ◌∷◌, ◌≡◌,
  refl,
}
use linode_blockstorage_csi.Effect.{ok, done, create_volume_op, completed_status}
use linode_blockstorage_csi.Volumes.{
  LinodeVolumeKey, parse_linode_volume_key, key_of_parts, get_normalized_label_with_prefix,
  get_normalized_label, create_linode_volume_key,
}
use linode_blockstorage_csi.Capacity.{get_request_capacity_size}
use linode_blockstorage_csi.Api.{LinodeClient, Volume, volume_active}
use linode_blockstorage_csi.Api.Frame.{change}
use linode_blockstorage_csi.Csi.{CreateVolumeRequest, CsiVolume, ContentSource, volume_source}
use linode_blockstorage_csi.Controller.{
  Server, clone_timeout, valid_volume_capabilities, required_region,
}
use linode_blockstorage_csi.Controller.Provision.{
  validate_create_volume_request, create_volume_context, prepare_create_volume_response, source_key,
}
use linode_blockstorage_csi.Controller.Create.{create_volume}
use linode_blockstorage_csi.Controller.Create.Outcomes.{label_of}
use linode_blockstorage_csi.Controller.Create.Steps.{Obtained}
use linode_blockstorage_csi.Controller.Create.Done.{options_for, create_volume_sourced}
use linode_blockstorage_csi.Tests.Cloud.{writer, twin, Cloud, cloud_client, holding, start}

abbrev server : Server
server = record { volume_label_prefix = codes "k8s"; region = codes "us-east" }

abbrev source : ContentSource
source = volume_source (some (codes "3-k8spvc"))

-- 20 gigabytes are asked for, and the source has 10.
abbrev copy_request : CreateVolumeRequest
copy_request = record {
  name = codes "copy";
  volume_capabilities = writer ∷ [];
  capacity_range = some (record { required_bytes = pos (20 * 2 ^ 30); limit_bytes = pos 0 });
  parameters = [];
  accessibility_requirements = none;
  content_source = some source;
}

abbrev copy_of : Text → Volume
copy_of label = record twin { id = pos 7; label = label }

abbrev copying_client : LinodeClient Cloud
copying_client = record cloud_client {
  clone_volume = λ id label w. (ok (some (copy_of label)), change (pos 7) (some (copy_of label)) w);
}

abbrev key : LinodeVolumeKey
key = record { volume_id = pos 3; label = codes "k8spvc" }

abbrev label : Text
label = codes "k8scopy"

abbrev after : Cloud
after = change (pos 7) (some (copy_of label)) (holding twin)

abbrev copy_reply : CsiVolume
copy_reply =
    prepare_create_volume_response (copy_of label) (pos (20 * 2 ^ 30))
      (create_volume_context copy_request (copy_of label)) (some key) (some source)

copied : create_volume copying_client server copy_request (start (holding twin)) ≡ (
  done copy_reply,
  record { world = after; samples = (create_volume_op, completed_status) ∷ [] },
)
unfolding create_volume validate_create_volume_request get_request_capacity_size text_eq get lookup
    valid_volume_capabilities source_key parse_linode_volume_key split_pair key_of_parts atoi
    get_normalized_label_with_prefix get_normalized_label create_linode_volume_key required_region
copied = refl

create_volume_sourced_example :
    (size : ℤ) × (key : LinodeVolumeKey) × (src : Volume) × (v : Volume) × (v' : Volume)
    × (w : Cloud) × (w₁ : Cloud) × (w₂ : Cloud) × (get_request_capacity_size
          copy_request.capacity_range
        ≡ ok size)
    × (source_key source ≡ ok key)
    × (copying_client.get_volume key.volume_id w ≡ (ok (some src), w₁))
    × (src.region ≡ required_region server none)
    × Obtained copying_client
        (label_of server copy_request)
        (some key)
        (options_for copying_client server copy_request size)
        v
        w₁
        w₂
    × (copying_client.wait_for_volume_status v.id volume_active clone_timeout w₂
        ≡ ((some v', none), after))
    × (copy_reply
        ≡ prepare_create_volume_response v' size
            (create_volume_context copy_request v')
            (some key)
            (some source))
create_volume_sourced_example =
    create_volume_sourced copying_client server copy_request source (start (holding twin)) _
      copy_reply refl copied
