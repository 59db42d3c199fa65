-- ===== src/Controller/Life.antt =====
-- The life of a volume across the operations of the controller service.
use linode_blockstorage_csi.Common.{
  ℤ, ◌+◌, ◌<◌, ◌≤◌, Text, codes, none, some, List, [], length, ◌≡◌, ◌≢◌, refl, arith,
}
use linode_blockstorage_csi.Effect.{ok, done, State}
use linode_blockstorage_csi.Volumes.{volume_id_as_int, node_id_as_int}
use linode_blockstorage_csi.Limits.{max_volume_attachments}
use linode_blockstorage_csi.Api.{LinodeClient, Volume, Instance}
use linode_blockstorage_csi.Api.Laws.{ApiLaws}
use linode_blockstorage_csi.Csi.{PublishRequest}
use linode_blockstorage_csi.Controller.Delete.{delete_volume}
use linode_blockstorage_csi.Controller.Delete.Laws.{delete_volume_twice}
use linode_blockstorage_csi.Controller.Publish.{
  memory_bytes, controller_publish_volume, context_of, validate_controller_publish_volume_request,
}
use linode_blockstorage_csi.Controller.Publish.Laws.{controller_publish_volume_twice}
use linode_blockstorage_csi.Controller.Unpublish.{controller_unpublish_volume}
use linode_blockstorage_csi.Controller.Unpublish.Laws.{controller_unpublish_volume_here}

-- The caller's name is only in the error.
volume_id_of_caller :
    (c c' id : Text) (n : ℤ) → volume_id_as_int c id ≡ ok n → volume_id_as_int c' id ≡ ok n
unfolding volume_id_as_int
volume_id_of_caller c c' id n h = ground arith

module _ {W : Type 0} {client : LinodeClient W} (laws : ApiLaws client) (s : State W)
    (req : PublishRequest) (id : ℤ) (i : Instance) (v : Volume) (mb : ℤ) (disks : List ℤ)
    (volumes : List Volume)
    (valid : (s : State W)
      → validate_controller_publish_volume_request client req s ≡ (done (i.id, id), s))
    (hid : volume_id_as_int (codes "ControllerPublishVolume") req.volume_id ≡ ok id)
    (hnode : node_id_as_int (codes "ControllerUnpublishVolume") req.node_id ≡ ok i.id)
    (hi : laws.instance_view s.world i.id ≡ some i) (hv : laws.view s.world id ≡ some v)
    (hm : i.memory ≡ some mb) (hd : client.list_instance_disks i.id s.world ≡ (ok disks, s.world))
    (hl : client.list_instance_volumes i.id s.world ≡ (ok volumes, s.world))
    (near : v.region ≡ i.region)
    (limited : max_volume_attachments (memory_bytes client mb) ≤ laws.attachment_limit i) where
  -- Under the API's laws, a known volume that is attached nowhere and has a device path, with a valid
  -- request for a known instance of the volume's region, whose memory is known, whose disks and
  -- volumes are listed and fewer than the driver's limit, which is no more than the API's, can be
  -- published, then unpublished, then deleted: all three calls succeed, the volume is attached to
  -- the instance after the first and to none after the second, and it is gone after the third.
  pub publish_unpublish_delete :
      v.linode_id ≡ none
      → v.filesystem_path ≢ []
      → length volumes + length disks < max_volume_attachments (memory_bytes client mb)
      → let (o, s') = controller_publish_volume client req s in
        let (o', s'') = controller_unpublish_volume client req.volume_id req.node_id s' in
        let (o'', t) = delete_volume client req.volume_id s'' in
        (o ≡ done (context_of client v.filesystem_path))
        × (laws.view s'.world id ≡ some (record v { linode_id = some i.id }))
        × (o' ≡ done tt)
        × (laws.view s''.world id ≡ some (record v { linode_id = none }))
        × (o'' ≡ done tt)
        × (laws.view t.world id ≡ none)
  publish_unpublish_delete hn path room =
      let s' = (controller_publish_volume client req s).1 in
      let (first, attached, again, same) =
        controller_publish_volume_twice laws s req id i v mb disks volumes valid hi hv hm hd hl near
          limited hn path room in
      let (s'', second, loose) =
        controller_unpublish_volume_here laws req.volume_id req.node_id id i.id
          (volume_id_of_caller _ _ req.volume_id id hid) hnode s'
          (record v { linode_id = some i.id }) attached refl in
      let (third, gone, nothing, left) =
        delete_volume_twice laws s'' req.volume_id id (record v { linode_id = none })
          (volume_id_of_caller _ _ req.volume_id id hid) loose refl in
      rw second (first, attached, refl, loose, third, gone)
