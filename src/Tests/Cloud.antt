-- ===== src/Tests/Cloud.antt =====
-- A Linode API in memory: the volumes by id, and one instance.
use linode_blockstorage_csi.Common.{
  ℕ, zero, suc, ℤ, pos, ◌==ℤ◌, Text, codes, text_eq, Option, none, some, Bool, false, List, [], ◌∷◌,
  ◌++◌, refl, if◌then◌else◌,
}
use linode_blockstorage_csi.Errors.{GoError, foreign}
use linode_blockstorage_csi.Effect.{Result, ok, err, State}
use linode_blockstorage_csi.Api.{LinodeClient, Volume, Instance, VolumeCreateOptions, WaitReply}
use linode_blockstorage_csi.Api.Laws.{ApiLaws}
use linode_blockstorage_csi.Api.Frame.{View, change, change_here}
use linode_blockstorage_csi.Csi.{single_node_writer, no_access, VolumeCapability}

abbrev pub Cloud : Type 0
Cloud = View

-- An instance of 8 GiB, and two disks.
abbrev pub instance_of_cloud : Instance
instance_of_cloud = record {
  id = pos 5;
  label = codes "node";
  region = codes "us-east";
  memory = some (pos 8192);
}

abbrev pub instances : ℤ → Option Instance
instances j = if j ==ℤ pos 5 then some instance_of_cloud else none

-- Ids below 10 are listed.
abbrev named : Option Text → Option Volume → List Volume
named l none = []
named none (some v) = v ∷ []
named (some l) (some v) = if text_eq v.label l then v ∷ [] else []

abbrev below : Option Text → ℕ → Cloud → List Volume
below l zero w = []
below l (suc n) w = named l (w (pos n)) ++ below l n w

abbrev pub made : VolumeCreateOptions → Volume
made o = record {
  id = pos 7;
  label = o.label;
  region = o.region;
  size = o.size;
  linode_id = none;
  filesystem_path = codes "/dev/disk/by-id/scsi-0Linode_Volume_7";
}

-- A volume of 100 gigabytes is not ready in time.
abbrev in_time : Option Volume → WaitReply
in_time none = (none, some (foreign (pos 404)))
in_time (some v) = if v.size ==ℤ pos 100 then (none, some (foreign (pos 408))) else (some v, none)

abbrev pub known : Option Volume → Result (Option Volume)
known (some v) = ok (some v)
known none = err (foreign (pos 404))

abbrev is_404 : GoError → Bool
is_404 (foreign n) = n ==ℤ pos 404
is_404 _ = false

abbrev pub known_instance : Option Instance → Result (Option Instance)
known_instance (some i) = ok (some i)
known_instance none = err (foreign (pos 404))

-- A volume is made under a free id; one that is not there cannot be changed.
abbrev pub created : VolumeCreateOptions → Cloud → Option Volume → Result (Option Volume) × Cloud
created o w (some v) = (err (foreign (pos 400)), w)
created o w none = (ok (some (made o)), change (pos 7) (some (made o)) w)

abbrev pub attached : ℤ → ℤ → Cloud → Option Volume → Result (Option Volume) × Cloud
attached id n w none = (err (foreign (pos 404)), w)
attached id n w (some v) = (
  ok (some (record v { linode_id = some n })),
  change id (some (record v { linode_id = some n })) w,
)

abbrev pub detached : ℤ → Cloud → Option Volume → Result (Unit {0}) × Cloud
detached id w none = (err (foreign (pos 404)), w)
detached id w (some v) = (ok tt, change id (some (record v { linode_id = none })) w)

abbrev pub resized : ℤ → ℤ → Cloud → Option Volume → Result (Unit {0}) × Cloud
resized id n w none = (err (foreign (pos 404)), w)
resized id n w (some v) = (ok tt, change id (some (record v { size = n })) w)

abbrev pub cloud_client : LinodeClient Cloud
cloud_client = record {
  list_volumes = λ o w. (ok (below o.label_filter 10 w), w);
  list_instance_volumes = λ n w. (ok [], w);
  list_instance_disks = λ n w. (ok (pos 1 ∷ pos 2 ∷ []), w);
  get_region_capabilities = λ r w. (ok (some []), w);
  get_instance = λ id w. (known_instance (instances id), w);
  get_volume = λ id w. (known (w id), w);
  create_volume = λ o w. created o w (w (pos 7));
  clone_volume = λ id l w. (err (foreign (pos 500)), w);
  attach_volume = λ id n p w. attached id n w (w id);
  detach_volume = λ id w. detached id w (w id);
  wait_for_volume_linode_id = λ id n t w. (ok (w id), w);
  wait_for_volume_status = λ id st t w. (in_time (w id), w);
  delete_volume = λ id w. (ok tt, change id none w);
  resize_volume = λ id n w. resized id n w (w id);
  is_not_found = is_404;
  api_message = λ e. none;
}

abbrev pub cloud_laws : ApiLaws cloud_client
cloud_laws = record {
  view = λ w. w;
  instance_view = λ w. instances;
  attachment_limit = λ i. 64;
  get_instance_known = λ id w i h. rw h refl;
  get_known = λ id w v h. rw h refl;
  get_missing = λ id w h. (foreign (pos 404), rw h refl, refl);
  delete_known = λ id w v h k. (change id none w, refl, change_here id none w);
  detach_known = λ id n w v h k.
      (change id (some (record v { linode_id = none })) w, rw h refl, change_here id _ w);
  attach_known = λ id n w v i ds vs h k hi same hd hl room. (
    change id (some (record v { linode_id = some n })) w,
    rw h refl,
    change_here id _ w,
    λ j. refl,
  );
  wait_known = λ id t w v h. rw h refl;
}

-- A cloud with one volume, of 10 gigabytes, and a start with no samples.
abbrev pub a_volume : Text → Option ℤ → Volume
a_volume label n = record {
  id = pos 3;
  label = label;
  region = codes "us-east";
  size = pos 10;
  linode_id = n;
  filesystem_path = codes "/dev/disk/by-id/scsi-0Linode_Volume_3";
}

abbrev pub holding : Volume → Cloud
holding v = change (pos 3) (some v) (λ j. none)

abbrev pub start : Cloud → State Cloud
start w = record { world = w; samples = [] }

abbrev pub writer : Option VolumeCapability
writer = some (record { access_mode = some single_node_writer; access_type = no_access })

abbrev pub empty_cloud : Cloud
empty_cloud j = none

abbrev pub twin : Volume
twin = a_volume (codes "k8spvc") none
