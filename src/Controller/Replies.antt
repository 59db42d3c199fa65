-- ===== src/Controller/Replies.antt =====
-- The controller service replies to its requests.
use linode_blockstorage_csi.Common.{◌≡◌, refl}
use linode_blockstorage_csi.Effect.{panicked, State}
use linode_blockstorage_csi.Api.{LinodeClient}
use linode_blockstorage_csi.Api.Replies.{ApiReplies}
use linode_blockstorage_csi.Csi.{CreateVolumeRequest}
use linode_blockstorage_csi.Controller.{Server}
use linode_blockstorage_csi.Controller.Spec.{
  Request, create_request, delete_request, publish_request, unpublish_request, expand_request,
  list_request, validate_request,
}
use linode_blockstorage_csi.Controller.Create.{create_volume}
use linode_blockstorage_csi.Controller.Create.Calm.{IsNilWait}
use linode_blockstorage_csi.Controller.Create.NilWait.{create_volume-PanicsIf}
use linode_blockstorage_csi.Controller.Delete.{delete_volume}
use linode_blockstorage_csi.Controller.Delete.Calm.{delete_volume-PanicsIf}
use linode_blockstorage_csi.Controller.Publish.{controller_publish_volume}
use linode_blockstorage_csi.Controller.Publish.Calm.{controller_publish_volume-PanicsIf}
use linode_blockstorage_csi.Controller.Unpublish.{controller_unpublish_volume}
use linode_blockstorage_csi.Controller.Unpublish.Calm.{controller_unpublish_volume-PanicsIf}
use linode_blockstorage_csi.Controller.Expand.{controller_expand_volume}
use linode_blockstorage_csi.Controller.Expand.Calm.{controller_expand_volume-PanicsIf}
use linode_blockstorage_csi.Controller.Query.{list_volumes, validate_volume_capabilities}
use linode_blockstorage_csi.Controller.Query.Calm.{
  list_volumes-PanicsIf, validate_volume_capabilities-PanicsIf,
}

module _ {W : Type 0} (client : LinodeClient W) (server : Server) where
  -- The request ends the process, in place of a reply or an error.
  abbrev pub Panics : Request → State W → Type 0
  Panics (create_request req) s = (create_volume client server req s).0 ≡ panicked
  Panics (delete_request id) s = (delete_volume client id s).0 ≡ panicked
  Panics (publish_request req) s = (controller_publish_volume client req s).0 ≡ panicked
  Panics (unpublish_request v n) s = (controller_unpublish_volume client v n s).0 ≡ panicked
  Panics (expand_request id range) s = (controller_expand_volume client id range s).0 ≡ panicked
  Panics (list_request req) s = (list_volumes client req s).0 ≡ panicked
  Panics (validate_request id caps) s = (validate_volume_capabilities client id caps s).0 ≡ panicked

module _ {W : Type 0} {client : LinodeClient W} (replies : ApiReplies client)
    (server : Server) where
  -- Where the API client returns pointers as it documents: a request to the controller service ends
  -- with a reply or an error, unless it is one to create a volume, and then only if a wait for a
  -- volume to be active returns no volume in some state of the API.
  pub Panics-only :
      (r : Request) (s : State W)
      → Panics client server r s
      → (req : CreateVolumeRequest) × (r ≡ create_request req) × IsNilWait client
  Panics-only (create_request req) s h =
      (req, refl, (create_volume-PanicsIf replies server req).at s h)
  Panics-only (delete_request id) s h = absurd ((delete_volume-PanicsIf replies ⊥ id).at s h)
  Panics-only (publish_request req) s h =
      absurd ((controller_publish_volume-PanicsIf replies ⊥ req).at s h)
  Panics-only (unpublish_request v n) s h =
      absurd ((controller_unpublish_volume-PanicsIf replies ⊥ v n).at s h)
  Panics-only (expand_request id range) s h =
      absurd ((controller_expand_volume-PanicsIf replies ⊥ id range).at s h)
  Panics-only (list_request req) s h = absurd ((list_volumes-PanicsIf client ⊥ req).at s h)
  Panics-only (validate_request id caps) s h =
      absurd ((validate_volume_capabilities-PanicsIf client ⊥ id caps).at s h)
