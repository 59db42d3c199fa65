-- ===== src/Tests/CreateRuns.antt =====
-- The theorems of `CreateVolume` in the small cloud.
use linode_blockstorage_csi.Common.{
  ap, arith, ℕ, ◌*◌, ◌^◌, ℤ, pos, Text, codes, text_eq, get, lookup, some, none, [], ◌∷◌, All, ◌≡◌,
  ◌≢◌, refl,
}
use linode_blockstorage_csi.Errors.{GoError, code_of, foreign, invalid_argument}
use linode_blockstorage_csi.Effect.{
  ok, done, failed, create_volume_op, failed_status, completed_status,
}
use linode_blockstorage_csi.Volumes.{
  create_linode_volume_key, get_normalized_label, get_normalized_label_with_prefix,
}
use linode_blockstorage_csi.Capacity.{bytes_to_gb, get_request_capacity_size}
use linode_blockstorage_csi.Csi.{CreateVolumeRequest, CsiVolume}
use linode_blockstorage_csi.Controller.{Server, wait_timeout, valid_volume_capabilities}
use linode_blockstorage_csi.Controller.Create.{create_volume}
use linode_blockstorage_csi.Controller.Provision.{
  validate_create_volume_request, prepare_create_volume_response, create_volume_context,
}
use linode_blockstorage_csi.Controller.Create.Requests.{IsSingleNodeWriter, create_volume_invalid}
use linode_blockstorage_csi.Controller.Create.Outcomes.{
  IsPlain, options, label_of, create_volume_new, create_volume_timeout, create_volume_twice,
}
use linode_blockstorage_csi.Controller.Create.Steps.{Obtained}
use linode_blockstorage_csi.Controller.Create.Done.{options_for, create_volume_sourceless}
use linode_blockstorage_csi.Controller.Spec.{create_request}
use linode_blockstorage_csi.Controller.Refinement.{after_all}
use linode_blockstorage_csi.Controller.Refinement.Labels.{HasOrigin, after_all-HasOrigin}
use linode_blockstorage_csi.Driver.{check_volume_label_prefix}
use linode_blockstorage_csi.Driver.Prefixes.{check_volume_label_prefix_iff}
use linode_blockstorage_csi.Tests.CloudFrame.{cloud_frame}
use linode_blockstorage_csi.Api.{Volume, volume_active}
use linode_blockstorage_csi.Api.Frame.{change}
use linode_blockstorage_csi.Controller.Replies.{Panics, Panics-only}
use linode_blockstorage_csi.Controller.Create.Calm.{IsNilWait}
use linode_blockstorage_csi.Tests.CloudReplies.{patient_client, patient_replies}
use linode_blockstorage_csi.Tests.Cloud.{writer, empty_cloud, Cloud, cloud_client, start, made}

abbrev server : Server
server = record { volume_label_prefix = codes "k8s"; region = codes "us-east" }

abbrev request : ℕ → Text → CreateVolumeRequest
request gb name = record {
  name = name;
  volume_capabilities = writer ∷ [];
  capacity_range = some (record { required_bytes = pos (gb * 2 ^ 30); limit_bytes = pos 0 });
  parameters = [];
  accessibility_requirements = none;
  content_source = none;
}

IsPlain-request : IsPlain (request 20 (codes "pvc")) (pos (20 * 2 ^ 30))
unfolding validate_create_volume_request get_request_capacity_size text_eq get lookup
    valid_volume_capabilities
IsPlain-request = record { valid = refl; sized = refl; plain_text = refl; sourceless = refl }

IsPlain-request_100 : IsPlain (request 100 (codes "pvc")) (pos (100 * 2 ^ 30))
unfolding validate_create_volume_request get_request_capacity_size text_eq get lookup
    valid_volume_capabilities
IsPlain-request_100 = record { valid = refl; sized = refl; plain_text = refl; sourceless = refl }

nameless : ¬ (
    ((request 20 []).name ≢ [])
    × ((request 20 []).volume_capabilities ≢ [])
    × All IsSingleNodeWriter (request 20 []).volume_capabilities)
nameless (h, _, _) = h refl

create_volume_invalid_example :
    (e : GoError) × (create_volume cloud_client server (request 20 []) (start empty_cloud) ≡ (
      failed e,
      record { world = empty_cloud; samples = (create_volume_op, failed_status) ∷ [] },
    ))
    × (code_of e ≡ invalid_argument)
create_volume_invalid_example =
    create_volume_invalid cloud_client server (start empty_cloud) (request 20 []) nameless

-- What the cloud makes of a plain request, and the cloud with it.
abbrev new_volume : Volume
new_volume = made (options server (request 20 (codes "pvc")) (pos (20 * 2 ^ 30)))

abbrev one_more : Volume → Cloud
one_more v = change (pos 7) (some v) empty_cloud

abbrev new_reply : CsiVolume
new_reply =
    prepare_create_volume_response new_volume (pos (20 * 2 ^ 30))
      (create_volume_context (request 20 (codes "pvc")) new_volume) none none

made_new : create_volume cloud_client server (request 20 (codes "pvc")) (start empty_cloud) ≡ (
  done new_reply,
  record { world = one_more new_volume; samples = (create_volume_op, completed_status) ∷ [] },
)
unfolding bytes_to_gb
made_new =
    create_volume_new cloud_client server (request 20 (codes "pvc")) (pos (20 * 2 ^ 30))
      IsPlain-request (start empty_cloud) new_volume new_volume empty_cloud (one_more new_volume)
      (one_more new_volume) refl refl refl refl

create_volume_sourceless_example :
    (size : ℤ) × (v : Volume) × (v' : Volume) × (w : Cloud) × (w' : Cloud)
    × (get_request_capacity_size (request 20 (codes "pvc")).capacity_range ≡ ok size)
    × Obtained cloud_client
        (label_of server (request 20 (codes "pvc")))
        none
        (options_for cloud_client server (request 20 (codes "pvc")) size)
        v
        w
        w'
    × (v.size ≡ bytes_to_gb size)
    × (cloud_client.wait_for_volume_status v.id volume_active wait_timeout w'
        ≡ ((some v', none), one_more new_volume))
    × (new_reply
        ≡ prepare_create_volume_response v' size
            (create_volume_context (request 20 (codes "pvc")) v')
            none
            none)
create_volume_sourceless_example =
    create_volume_sourceless cloud_client server (request 20 (codes "pvc")) (start empty_cloud) _
      new_reply refl made_new

abbrev slow_volume : Volume
slow_volume = made (options server (request 100 (codes "pvc")) (pos (100 * 2 ^ 30)))

create_volume_twice_example :
    let (o, s') =
      create_volume cloud_client server (request 20 (codes "pvc")) (start empty_cloud) in
    let (o', s'') = create_volume cloud_client server (request 20 (codes "pvc")) s' in
    (o
      ≡ done (
          prepare_create_volume_response new_volume
            (pos (20 * 2 ^ 30))
            (create_volume_context (request 20 (codes "pvc")) new_volume)
            none
            none))
    × (s'.world ≡ one_more new_volume)
    × (o' ≡ o)
    × (s''.world ≡ one_more new_volume)
unfolding bytes_to_gb text_eq get_normalized_label_with_prefix get_normalized_label
    create_linode_volume_key
create_volume_twice_example =
    create_volume_twice cloud_client server (request 20 (codes "pvc")) (pos (20 * 2 ^ 30))
      IsPlain-request (start empty_cloud) new_volume new_volume empty_cloud (one_more new_volume)
      (one_more new_volume) (one_more new_volume) (one_more new_volume) refl refl refl refl refl
      refl

prefix_accepted : check_volume_label_prefix (codes "k8s") ≡ ok tt
prefix_accepted = (check_volume_label_prefix_iff (codes "k8s")).0.1 (refl, omega arith)

-- A request whose volume is not ready in time leaves it there.
slow_made :
    (after_all cloud_client server
        (create_request (request 100 (codes "pvc")) ∷ [])
        (start empty_cloud)).world
      (pos 7)
    ≡ some slow_volume
unfolding bytes_to_gb
slow_made =
    ap (λ r. r.1.world (pos 7))
      (create_volume_timeout cloud_client server (request 100 (codes "pvc")) (pos (100 * 2 ^ 30))
        IsPlain-request_100 (start empty_cloud) slow_volume (foreign (pos 408)) empty_cloud
        (one_more slow_volume) (one_more slow_volume) refl refl refl refl)

after_all-HasOrigin_example : HasOrigin (codes "k8s") (pos 7) slow_volume empty_cloud
after_all-HasOrigin_example =
    after_all-HasOrigin server prefix_accepted cloud_frame
      (create_request (request 100 (codes "pvc")) ∷ []) (start empty_cloud) (pos 7) slow_volume
      slow_made

slow-Panics :
    Panics patient_client server (create_request (request 100 (codes "pvc"))) (start empty_cloud)
unfolding bytes_to_gb
slow-Panics =
    ap (λ r. r.0)
      (create_volume_timeout patient_client server (request 100 (codes "pvc")) (pos (100 * 2 ^ 30))
        IsPlain-request_100 (start empty_cloud) slow_volume (foreign (pos 408)) empty_cloud
        (one_more slow_volume) (one_more slow_volume) refl refl refl refl)

Panics-only_example :
    (req : CreateVolumeRequest) × (create_request (request 100 (codes "pvc")) ≡ create_request req)
    × IsNilWait patient_client
Panics-only_example =
    Panics-only patient_replies server (create_request (request 100 (codes "pvc")))
      (start empty_cloud) slow-Panics
