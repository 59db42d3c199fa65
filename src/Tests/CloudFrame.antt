-- ===== src/Tests/CloudFrame.antt =====
-- The small cloud keeps to what the API documents of every call.
use linode_blockstorage_csi.Common.{
  ℤ, pos, ◌==ℤ◌, ==ℤ_iff, Option, none, some, Bool-cases, ◌≡◌, refl, ◌⊎◌, inl, inr, arith,
}
use linode_blockstorage_csi.Effect.{Result, ok}
use linode_blockstorage_csi.Api.{Volume, Instance, VolumeCreateOptions}
use linode_blockstorage_csi.Api.Frame.{ApiFrame, change}
use linode_blockstorage_csi.Tests.Cloud.{
  Cloud, made, created, attached, detached, resized, known, known_instance, instances, cloud_client,
}

pub created_makes :
    (o : VolumeCreateOptions) (w : Cloud) (x : Option Volume)
    → w (pos 7) ≡ x
    → ((created o w x).1 ≡ w)
      ⊎ ((id : ℤ) × (v : Volume) × (w id ≡ none)
          × (v.linode_id ≡ none)
          × (v.label ≡ o.label)
          × ((created o w x).1 ≡ change id (some v) w))
created_makes o w (some v) h = inl refl
created_makes o w none h = inr (pos 7, made o, h, refl, refl, refl)

pub attached_attaches :
    (id n : ℤ) (w : Cloud) (x : Option Volume)
    → w id ≡ x
    → ((attached id n w x).1 ≡ w)
      ⊎ ((v : Volume) × (w id ≡ some v)
          × ((attached id n w x).1 ≡ change id (some (record v { linode_id = some n })) w))
attached_attaches id n w none h = inl refl
attached_attaches id n w (some v) h = inr (v, h, refl)

pub detached_detaches :
    (id : ℤ) (w : Cloud) (x : Option Volume)
    → w id ≡ x
    → ((detached id w x).1 ≡ w)
      ⊎ ((v : Volume) × (w id ≡ some v)
          × ((detached id w x).1 ≡ change id (some (record v { linode_id = none })) w))
detached_detaches id w none h = inl refl
detached_detaches id w (some v) h = inr (v, h, refl)

pub resized_resizes :
    (id n : ℤ) (w : Cloud) (x : Option Volume)
    → w id ≡ x
    → ((resized id n w x).1 ≡ w)
      ⊎ ((v : Volume) × (w id ≡ some v)
          × ((resized id n w x).1 ≡ change id (some (record v { size = n })) w))
resized_resizes id n w none h = inl refl
resized_resizes id n w (some v) h = inr (v, h, refl)

pub known_sound :
    (x : Option Volume) (w w' : Cloud) (v : Volume)
    → ◌≡◌ {A = Result (Option Volume) × Cloud} (known x, w) (ok (some v), w')
    → x ≡ some v
known_sound (some y) w w' v e = ground arith
known_sound none w w' v e = absurd (ground arith)

pub instance_id :
    (id : ℤ) (w w' : Cloud) (i : Instance)
    → ◌≡◌ {A = Result (Option Instance) × Cloud}
        (known_instance (instances id), w)
        (ok (some i), w')
    → i.id ≡ id
instance_id id w w' i e = elim (Bool-cases (id ==ℤ pos 5)) [
  | inl five ↦ ground (arith, (==ℤ_iff id (pos 5)).0 five)
  | inr other ↦ absurd (ground arith)
]

abbrev pub cloud_frame : ApiFrame cloud_client
cloud_frame = record {
  view = λ w. w;
  list_volumes_keeps = λ o w. refl;
  list_instance_volumes_keeps = λ n w. refl;
  list_instance_disks_keeps = λ n w. refl;
  get_region_capabilities_keeps = λ r w. refl;
  get_instance_keeps = λ id w. refl;
  get_volume_keeps = λ id w. refl;
  wait_for_volume_linode_id_keeps = λ id n t w. refl;
  wait_for_volume_status_keeps = λ id st t w. refl;
  get_volume_sound = λ id w w' v e. known_sound (w id) w w' v e;
  get_instance_sound = λ id w w' i e. instance_id id w w' i e;
  create_volume_makes = λ o w. created_makes o w (w (pos 7)) refl;
  clone_volume_makes = λ id l w. inl refl;
  delete_volume_removes = λ id w. inr refl;
  attach_volume_attaches = λ id n p w. attached_attaches id n w (w id) refl;
  detach_volume_detaches = λ id w. detached_detaches id w (w id) refl;
  resize_volume_resizes = λ id n w. resized_resizes id n w (w id) refl;
}
