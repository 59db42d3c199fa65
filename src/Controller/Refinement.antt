-- ===== src/Controller/Refinement.antt =====
-- The controller service as a whole: requests are handled one after the other, and the volumes
-- change only as the specification allows.
pub mod Changes
pub mod Lasting
pub mod Attachments
pub mod Labels
use linode_blockstorage_csi.Common.{ℤ, Text, List, [], ◌∷◌, ◌≡◌, refl}
use linode_blockstorage_csi.Effect.{State, M, pure, ◌>>=◌, ◌>>◌}
use linode_blockstorage_csi.Effect.Kept.{Ends, IsKept}
use linode_blockstorage_csi.Api.{LinodeClient}
use linode_blockstorage_csi.Api.Frame.{ApiFrame, View}
use linode_blockstorage_csi.Controller.{Server}
use linode_blockstorage_csi.Controller.Spec.{
  Request, create_request, delete_request, publish_request, unpublish_request, expand_request,
  list_request, validate_request, Allowed,
}
use linode_blockstorage_csi.Controller.Create.{create_volume}
use linode_blockstorage_csi.Controller.Create.Effects.{create_volume-Ends}
use linode_blockstorage_csi.Controller.Delete.{delete_volume}
use linode_blockstorage_csi.Controller.Delete.Effects.{delete_volume-Ends}
use linode_blockstorage_csi.Controller.Publish.{controller_publish_volume}
use linode_blockstorage_csi.Controller.Publish.Effects.{controller_publish_volume-Ends}
use linode_blockstorage_csi.Controller.Unpublish.{controller_unpublish_volume}
use linode_blockstorage_csi.Controller.Unpublish.Effects.{controller_unpublish_volume-Ends}
use linode_blockstorage_csi.Controller.Expand.{controller_expand_volume}
use linode_blockstorage_csi.Controller.Expand.Effects.{controller_expand_volume-Ends}
use linode_blockstorage_csi.Controller.Query.{list_volumes, validate_volume_capabilities}
use linode_blockstorage_csi.Controller.Query.Effects.{
  list_volumes-IsKept, validate_volume_capabilities-IsKept,
}

module _ {W : Type 0} (client : LinodeClient W) (server : Server) where
  -- The state after a request, whatever the reply is; a panic ends the call.
  abbrev pub after : Request → State W → State W
  after (create_request req) s = (create_volume client server req s).1
  after (delete_request id) s = (delete_volume client id s).1
  after (publish_request req) s = (controller_publish_volume client req s).1
  after (unpublish_request v n) s = (controller_unpublish_volume client v n s).1
  after (expand_request id range) s = (controller_expand_volume client id range s).1
  after (list_request req) s = (list_volumes client req s).1
  after (validate_request id caps) s = (validate_volume_capabilities client id caps s).1

  abbrev pub after_all : List Request → State W → State W
  after_all [] s = s
  after_all (r ∷ rs) s = after_all rs (after r s)

-- What a sequence of requests may do.
pub data Run (server : Server) : List Request → View → View → Type 0 where
  stop : {u : View} → Run server [] u u
  then :
      {r : Request} {rs : List Request} {u v w : View}
      → Allowed server r u v
      → Run server rs v w
      → Run server (r ∷ rs) u w

module _ {W : Type 0} {client : LinodeClient W} (frame : ApiFrame client) (server : Server) where
  -- A request changes the volumes as the specification allows it, whatever the API answers and
  -- however the request ends.
  pub after-Allowed :
      (r : Request) (s : State W)
      → Allowed server r (frame.view s.world) (frame.view (after client server r s).world)
  after-Allowed (create_request req) s = (create_volume-Ends frame server req s).at
  after-Allowed (delete_request id) s = (delete_volume-Ends frame server id s).at
  after-Allowed (publish_request req) s = (controller_publish_volume-Ends frame server req s).at
  after-Allowed (unpublish_request v n) s = (controller_unpublish_volume-Ends frame server v n s).at
  after-Allowed (expand_request id range) s =
      (controller_expand_volume-Ends frame server id range s).at
  after-Allowed (list_request req) s = (list_volumes-IsKept frame req).at s
  after-Allowed (validate_request id caps) s =
      (validate_volume_capabilities-IsKept frame id caps).at s

  -- Where the calls of the API change no more than they document, a sequence of requests changes the
  -- volumes as the specification allows it, step by step, whatever the API answers and however each
  -- request ends.
  pub after_all-Run :
      (rs : List Request) (s : State W)
      → Run server rs (frame.view s.world) (frame.view (after_all client server rs s).world)
  after_all-Run [] s = stop
  after_all-Run (r ∷ rs) s = then (after-Allowed r s) (after_all-Run rs (after client server r s))
