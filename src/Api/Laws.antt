-- ===== src/Api/Laws.antt =====
-- What the Linode API documents of volumes, for a reachable API: a volume is looked up by its id,
-- an unknown id is a 404, and deleting, attaching and detaching change the one volume. A volume is
-- deleted while it is attached to no instance, and is attached to a known instance of its region
-- with fewer disks and volumes than the API's limit for that instance.
use linode_blockstorage_csi.Common.{
  ℕ, ℤ, ◌+◌, ◌<◌, Option, none, some, List, length, false, true, ◌≡◌,
}
use linode_blockstorage_csi.Errors.{GoError}
use linode_blockstorage_csi.Effect.{ok, err}
use linode_blockstorage_csi.Api.{LinodeClient, Volume, Instance}

-- `view w id` is the volume with the id in the world `w`, and `instance_view w id` the instance.
pub record ApiLaws {W : Type 0} (client : LinodeClient W) : Type 0 where
  pub view : W → ℤ → Option Volume
  pub instance_view : W → ℤ → Option Instance
  pub attachment_limit : Instance → ℕ
  pub get_instance_known :
      (id : ℤ) (w : W) (i : Instance)
      → instance_view w id ≡ some i
      → client.get_instance id w ≡ (ok (some i), w)
  pub get_known :
      (id : ℤ) (w : W) (v : Volume) → view w id ≡ some v → client.get_volume id w ≡ (ok (some v), w)
  pub get_missing :
      (id : ℤ) (w : W)
      → view w id ≡ none
      → (e : GoError) × (client.get_volume id w ≡ (err e, w)) × (client.is_not_found e ≡ true)
  pub delete_known :
      (id : ℤ) (w : W) (v : Volume)
      → view w id ≡ some v
      → v.linode_id ≡ none
      → (w' : W) × (client.delete_volume id w ≡ (ok tt, w')) × (view w' id ≡ none)
  pub detach_known :
      (id node : ℤ) (w : W) (v : Volume)
      → view w id ≡ some v
      → v.linode_id ≡ some node
      → (w' : W) × (client.detach_volume id w ≡ (ok tt, w'))
        × (view w' id ≡ some (record v { linode_id = none }))
  pub attach_known :
      (id node : ℤ) (w : W) (v : Volume) (i : Instance) (disks : List ℤ) (volumes : List Volume)
      → view w id ≡ some v
      → v.linode_id ≡ none
      → instance_view w node ≡ some i
      → v.region ≡ i.region
      → client.list_instance_disks node w ≡ (ok disks, w)
      → client.list_instance_volumes node w ≡ (ok volumes, w)
      → length volumes + length disks < attachment_limit i
      → (w' : W) × (client.attach_volume id node false w
          ≡ (ok (some (record v { linode_id = some node })), w'))
        × (view w' id ≡ some (record v { linode_id = some node }))
        × ((j : ℤ) → instance_view w' j ≡ instance_view w j)
  pub wait_known :
      (id timeout : ℤ) (w : W) (v : Volume)
      → view w id ≡ some v
      → client.wait_for_volume_linode_id id v.linode_id timeout w ≡ (ok (some v), w)
