-- ===== src/Api/Frame.antt =====
-- What the Linode API documents of every call, whether it succeeds or not: a lookup changes no
-- volume, and a request that changes something changes one volume in the one way that it names, or
-- nothing (it may do the former and still answer with an error). Volumes are seen by their ids.
use linode_blockstorage_csi.Common.{
  ℤ, Text, Option, none, some, Bool, ◌≡◌, ap, sym, ◌∙◌, ◌⊎◌, ◌==ℤ◌, ==ℤ_iff, false, refl,
  if◌then◌else◌,
}
use linode_blockstorage_csi.Errors.{GoError}
use linode_blockstorage_csi.Effect.{Result, ok, done, State, tell, call}
use linode_blockstorage_csi.Effect.Runs.{tell-done, call-done}
use linode_blockstorage_csi.Api.{
  LinodeClient, ListOptions, Volume, Instance, VolumeCreateOptions, VolumeStatus,
}

abbrev pub View : Type 0
View = ℤ → Option Volume

-- The view in which `id` is `o`, and every other id is as before.
abbrev pub change : ℤ → Option Volume → View → View
change id o u j = if j ==ℤ id then o else u j

pub change_here : (id : ℤ) (o : Option Volume) (u : View) → change id o u id ≡ o
change_here id o u = rw ((==ℤ_iff id id).1 refl) refl

pub change_elsewhere :
    (id j : ℤ) (o : Option Volume) (u : View) → (j ==ℤ id) ≡ false → change id o u j ≡ u j
change_elsewhere id j o u h = rw h refl

pub record ApiFrame {W : Type 0} (client : LinodeClient W) : Type 0 where
  pub view : W → View
  pub list_volumes_keeps : (o : ListOptions) (w : W) → view (client.list_volumes o w).1 ≡ view w
  pub list_instance_volumes_keeps :
      (n : ℤ) (w : W) → view (client.list_instance_volumes n w).1 ≡ view w
  pub list_instance_disks_keeps : (n : ℤ) (w : W) → view (client.list_instance_disks n w).1 ≡ view w
  pub get_region_capabilities_keeps :
      (r : Text) (w : W) → view (client.get_region_capabilities r w).1 ≡ view w
  pub get_instance_keeps : (id : ℤ) (w : W) → view (client.get_instance id w).1 ≡ view w
  pub get_volume_keeps : (id : ℤ) (w : W) → view (client.get_volume id w).1 ≡ view w
  pub wait_for_volume_linode_id_keeps :
      (id : ℤ) (n : Option ℤ) (t : ℤ) (w : W)
      → view (client.wait_for_volume_linode_id id n t w).1 ≡ view w
  pub wait_for_volume_status_keeps :
      (id : ℤ) (st : VolumeStatus) (t : ℤ) (w : W)
      → view (client.wait_for_volume_status id st t w).1 ≡ view w
  -- A volume that is returned is the one with the id.
  pub get_volume_sound :
      (id : ℤ) (w w' : W) (v : Volume)
      → client.get_volume id w ≡ (ok (some v), w')
      → view w id ≡ some v
  -- An instance that is returned has the id.
  pub get_instance_sound :
      (id : ℤ) (w w' : W) (i : Instance) → client.get_instance id w ≡ (ok (some i), w') → i.id ≡ id
  -- A volume is made under an id that was free; it is attached nowhere.
  pub create_volume_makes :
      (o : VolumeCreateOptions) (w : W)
      → (view (client.create_volume o w).1 ≡ view w)
        ⊎ ((id : ℤ) × (v : Volume) × (view w id ≡ none)
            × (v.linode_id ≡ none)
            × (v.label ≡ o.label)
            × (view (client.create_volume o w).1 ≡ change id (some v) (view w)))
  pub clone_volume_makes :
      (source : ℤ) (label : Text) (w : W)
      → (view (client.clone_volume source label w).1 ≡ view w)
        ⊎ ((id : ℤ) × (v : Volume) × (view w id ≡ none)
            × (v.linode_id ≡ none)
            × (v.label ≡ label)
            × (view (client.clone_volume source label w).1 ≡ change id (some v) (view w)))
  pub delete_volume_removes :
      (id : ℤ) (w : W)
      → (view (client.delete_volume id w).1 ≡ view w)
        ⊎ (view (client.delete_volume id w).1 ≡ change id none (view w))
  pub attach_volume_attaches :
      (id node : ℤ) (persist : Bool) (w : W)
      → (view (client.attach_volume id node persist w).1 ≡ view w)
        ⊎ ((v : Volume) × (view w id ≡ some v)
            × (view (client.attach_volume id node persist w).1
                ≡ change id (some (record v { linode_id = some node })) (view w)))
  pub detach_volume_detaches :
      (id : ℤ) (w : W)
      → (view (client.detach_volume id w).1 ≡ view w)
        ⊎ ((v : Volume) × (view w id ≡ some v)
            × (view (client.detach_volume id w).1
                ≡ change id (some (record v { linode_id = none })) (view w)))
  pub resize_volume_resizes :
      (id size : ℤ) (w : W)
      → (view (client.resize_volume id size w).1 ≡ view w)
        ⊎ ((v : Volume) × (view w id ≡ some v)
            × (view (client.resize_volume id size w).1
                ≡ change id (some (record v { size = size })) (view w)))

-- A lookup that returns a volume, seen from an earlier state with the same view.
module _ {W : Type 0} {client : LinodeClient W} (frame : ApiFrame client) {u : View} where
  pub looked_up :
      (id : ℤ) (s s' : State W) {r : Result (Option Volume)} (v : Volume)
      → frame.view s.world ≡ u
      → tell (client.get_volume id) s ≡ (done r, s')
      → r ≡ ok (some v)
      → u id ≡ some v
  looked_up id s s' {r} v k e h =
      ap (λ u. u id) (sym k)
      ∙ frame.get_volume_sound id s.world s'.world v
          (tell-done (client.get_volume id) s s' r e ∙ ap (λ r. (r, s'.world)) h)

  pub looked_up_or_failed :
      (wrap : GoError → GoError) (id : ℤ) (s s' : State W) {o : Option Volume} (v : Volume)
      → frame.view s.world ≡ u
      → call wrap (client.get_volume id) s ≡ (done o, s')
      → o ≡ some v
      → u id ≡ some v
  looked_up_or_failed wrap id s s' {o} v k e h =
      ap (λ u. u id) (sym k)
      ∙ frame.get_volume_sound id s.world s'.world v
          (call-done wrap (client.get_volume id) s s' o e ∙ ap (λ o. (ok o, s'.world)) h)
