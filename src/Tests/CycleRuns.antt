-- ===== src/Tests/CycleRuns.antt =====
-- The small node with mounts works, and a volume is staged, published, unpublished and unstaged.
use linode_blockstorage_csi.Common.{
  pos, Text, codes, All, List, text_eq, text_eq_sound, split, split_pair, atoi, get, lookup, some,
  Bool-cases, [], ◌∷◌, false, true, ◌≡◌, ◌≢◌, refl, inl, inr,
}
use mathlib.Core.List.{Memᴰ}
use linode_blockstorage_csi.Errors.{foreign}
use linode_blockstorage_csi.Effect.{ok, done}
use linode_blockstorage_csi.Volumes.{
  LinodeVolumeKey, parse_linode_volume_key, key_of_parts, get_normalized_label,
}
use linode_blockstorage_csi.Paths.{join}
use linode_blockstorage_csi.Csi.{single_node_writer, no_access, VolumeCapability}
use linode_blockstorage_csi.Devices.{stat_result, get_disk_by_id_paths}
use linode_blockstorage_csi.Luks.{get_luks_context}
use linode_blockstorage_csi.Host.Frame.{Place, NodeView, target, mounted}
use linode_blockstorage_csi.Node.{
  StageRequest, PublishRequest, get_mount_source, validate_node_stage_volume_request,
  validate_node_publish_volume_request,
}
use linode_blockstorage_csi.Node.Spec.{luks_of}
use linode_blockstorage_csi.Node.Stage.{node_stage_volume, partition_of}
use linode_blockstorage_csi.Node.Publish.{node_publish_volume}
use linode_blockstorage_csi.Node.Unstage.{node_unstage_volume, node_unpublish_volume}
use linode_blockstorage_csi.Node.Life.{Works, Links, IsFree, directory, missing}
use linode_blockstorage_csi.Node.Life.Cycle.{stage_publish_unpublish_unstage}
use linode_blockstorage_csi.Tests.Machine.{disk, on_node, stat_reply}
use linode_blockstorage_csi.Tests.Mounts.{table, table_frame, bare}

abbrev cap : VolumeCapability
cap = record { access_mode = some single_node_writer; access_type = no_access }

abbrev staging : StageRequest
staging = record {
  volume_id = codes "3-pvc";
  staging_target_path = codes "/stage";
  volume_capability = some cap;
  volume_context = [];
  secrets = [];
}

abbrev publishing : PublishRequest
publishing = record {
  volume_id = codes "3-pvc";
  staging_target_path = codes "/stage";
  target_path = codes "/new";
  volume_capability = some cap;
  readonly = true;
  publish_context = [];
}

table_says : (p : Text) → stat_result table (stat_reply p) ≡ ok (on_node p)
unfolding stat_result
table_says p = elim (Bool-cases (on_node p)) [ inl h ↦ rw h refl | inr h ↦ rw h refl ]

All-of : {A : Type 0} (P : A → Type 0) → ((a : A) → P a) → (l : List A) → All P l
All-of P h [] = tt
All-of P h (a ∷ l) = (h a, All-of P h l)

empty_path : on_node [] ≡ false
unfolding text_eq
empty_path = refl

table_links : (ps : List Text) → Links table ps
table_links ps = record {
  exists = on_node;
  stat_reply = stat_reply;
  stats = All-of _ (λ p w. refl) ps;
  says = All-of _ table_says ps;
  no_empty_path = empty_path;
}

-- An absolute path can be mounted on, and the disk can be mounted.
abbrev IsThere : NodeView → Text → Type 0
IsThere w p = Unit {0}

table_free : (p : Text) (w : NodeView) → w (target p) ≡ [] → IsFree table IsThere p w
table_free p w h = elim (Bool-cases (text_eq p (codes "/new"))) [
  | inl new ↦ missing (foreign (pos 2)) w w (rw (h, new) refl) refl refl tt
  | inr old ↦ directory w (rw (h, old) refl) tt
]

table_works : Works table_frame
table_works = record {
  usable = λ p. (q : Text) × (p ≡ b'/' ∷ q);
  there = IsThere;
  mountable = λ p fs_type options. p ≡ disk;
  not_mounted = λ p w absolute h. table_free p w h;
  bind_works = λ d p t o x l w h binds here. (_, refl, refl);
  format_and_mount_works = λ d p t o w fits here. (_, refl, refl);
  cleanup_works = λ p x w absolute h. (_, rw h refl, refl);
  unknown_mapping = λ n w h. (foreign (pos 19), w, rw h refl);
}

abbrev key : LinodeVolumeKey
key = record { volume_id = pos 3; label = codes "pvc" }

parsed : parse_linode_volume_key (codes "3-pvc") ≡ ok key
unfolding parse_linode_volume_key split_pair key_of_parts atoi
parsed = refl

source : get_mount_source (codes "3-pvc") ≡ ok (codes "pvc")
unfolding get_mount_source split_pair
source = refl

plain_volume : (luks_of staging).encryption_enabled ≡ false
unfolding get_luks_context get lookup text_eq
plain_volume = refl

among : Memᴰ disk (get_disk_by_id_paths (get_normalized_label key) (partition_of staging))
unfolding get_disk_by_id_paths get_normalized_label partition_of join lookup split text_eq
among = Memᴰ.tail (Memᴰ.head refl)

there : on_node disk ≡ true
unfolding text_eq
there = refl

valid_stage : validate_node_stage_volume_request staging ≡ ok cap
unfolding validate_node_stage_volume_request
valid_stage = refl

valid_publish : validate_node_publish_volume_request publishing ≡ ok cap
unfolding validate_node_publish_volume_request
valid_publish = refl

apart : codes "/new" ≢ codes "/stage"
apart e = cc

stage_publish_unpublish_unstage_example :
    let (o₁, s₁) = node_stage_volume table staging bare in
    let (o₂, s₂) = node_publish_volume table publishing s₁ in
    let (o₃, s₃) = node_unpublish_volume table (codes "3-pvc") (codes "/new") s₂ in
    let (o₄, s₄) = node_unstage_volume table (codes "3-pvc") (codes "/stage") s₃ in
    (o₁ ≡ done tt)
    × (o₂ ≡ done tt)
    × (o₃ ≡ done tt)
    × (o₄ ≡ done tt)
    × (s₂.world (target (codes "/new"))
        ≡ mounted (codes "/stage") (codes "ext4") (codes "bind" ∷ codes "ro" ∷ []) ∷ [])
    × ((q : Place) → s₄.world q ≡ [])
unfolding table_works text_eq table_links
stage_publish_unpublish_unstage_example =
    stage_publish_unpublish_unstage table_works staging publishing cap cap key disk (codes "pvc")
      (table_links (get_disk_by_id_paths (get_normalized_label key) (partition_of staging))) bare
      valid_stage parsed source refl plain_volume among there (λ p h. text_eq_sound p disk h)
      (codes "stage", refl) valid_publish refl (codes "new", refl) refl apart refl refl refl
