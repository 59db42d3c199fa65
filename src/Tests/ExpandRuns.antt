-- ===== src/Tests/ExpandRuns.antt =====
-- The theorems on expanding and listing in the small cloud.
use linode_blockstorage_csi.Common.{
  ◌*◌, ◌^◌, ℤ, pos, ◌≤ℤ◌, wrap, ◌+ℤ◌, itoa, codes, atoi, split_pair, Option, some, none, [], false,
  ◌≡◌, ◌≢◌, refl,
}
use linode_blockstorage_csi.Effect.{ok, done, State}
use linode_blockstorage_csi.Volumes.{volume_id_as_int, parse_linode_volume_key, key_of_parts}
use linode_blockstorage_csi.Capacity.{CapacityRange, bytes_to_gb, get_request_capacity_size}
use linode_blockstorage_csi.Csi.{ListVolumesRequest, ExpandResponse}
use linode_blockstorage_csi.Controller.{wait_timeout}
use linode_blockstorage_csi.Controller.Expand.{controller_expand_volume}
use linode_blockstorage_csi.Controller.Expand.Laws.{controller_expand_volume_done}
use linode_blockstorage_csi.Controller.Query.{list_volumes, page_of_token}
use linode_blockstorage_csi.Controller.Query.Laws.{next_token-list_volumes}
use linode_blockstorage_csi.Api.{Volume, volume_active}
use linode_blockstorage_csi.Api.Frame.{change}
use linode_blockstorage_csi.Tests.Cloud.{empty_cloud, Cloud, cloud_client, a_volume, holding, start}

expand_id : volume_id_as_int (codes "ControllerExpandVolume") (codes "3-k8spvc") ≡ ok (pos 3)
unfolding volume_id_as_int parse_linode_volume_key split_pair key_of_parts atoi
expand_id = refl

-- The volume of 10 gigabytes, and one of 20 to come.
abbrev to_20 : Option CapacityRange
to_20 = some (record { required_bytes = pos (20 * 2 ^ 30); limit_bytes = pos 0 })

size_20 : get_request_capacity_size to_20 ≡ ok (pos (20 * 2 ^ 30))
unfolding get_request_capacity_size
size_20 = refl

abbrev of_size : ℤ → Volume
of_size n = record (a_volume [] none) { size = n }

abbrev expanded : State Cloud
expanded = start (change (pos 3) (some (of_size (pos 20))) (holding (of_size (pos 10))))

abbrev expand_response : ExpandResponse
expand_response = record { capacity_bytes = pos (20 * 2 ^ 30); node_expansion_required = false }

run_expand :
    controller_expand_volume cloud_client
      (codes "3-k8spvc")
      to_20
      (start (holding (of_size (pos 10))))
    ≡ (done expand_response, expanded)
unfolding controller_expand_volume volume_id_as_int parse_linode_volume_key split_pair key_of_parts
    atoi get_request_capacity_size bytes_to_gb
run_expand = refl

controller_expand_volume_done_example :
    (pos 10 ≤ℤ bytes_to_gb (pos (20 * 2 ^ 30)))
    × (expand_response.capacity_bytes ≡ pos (20 * 2 ^ 30))
    × (expanded.world
        ≡ (cloud_client.wait_for_volume_status
            (pos 3)
            volume_active
            wait_timeout
            (cloud_client.resize_volume
              (pos 3)
              (bytes_to_gb (pos (20 * 2 ^ 30)))
              (holding (of_size (pos 10)))).1).1)
controller_expand_volume_done_example =
    controller_expand_volume_done cloud_client (start (holding (of_size (pos 10))))
      (codes "3-k8spvc") to_20 (pos 3) (pos (20 * 2 ^ 30)) (of_size (pos 10))
      (holding (of_size (pos 10))) expand_id size_20 refl expand_response expanded run_expand

-- A page that has no volumes: the next token is there again.
abbrev list_request : ListVolumesRequest
list_request = record { max_entries = pos 25; starting_token = codes "2" }

run_list :
    list_volumes cloud_client list_request (start empty_cloud)
    ≡ (done (record { entries = []; next_token = codes "3" }), start empty_cloud)
unfolding list_volumes page_of_token itoa atoi ◌+ℤ◌ wrap
run_list = refl

next_token-list_volumes_example :
    (codes "2" ≡ [] → codes "3" ≡ []) × (codes "2" ≢ [] → codes "3" ≢ [])
next_token-list_volumes_example =
    next_token-list_volumes cloud_client (start empty_cloud) (start empty_cloud) list_request
      (record { entries = []; next_token = codes "3" }) run_list
