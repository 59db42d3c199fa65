-- ===== src/Node/Refinement.antt =====
-- The node service as a whole: requests are handled one after the other, and mounts, mappings and
-- headers change only as the specification allows.
pub mod Origins
pub mod Leftover
use linode_blockstorage_csi.Common.{Text, List, [], ◌∷◌, ◌≡◌, refl}
use linode_blockstorage_csi.Effect.{State}
use linode_blockstorage_csi.Host.{Host}
use linode_blockstorage_csi.Host.Frame.{NodeFrame, NodeView}
use linode_blockstorage_csi.Node.Spec.{
  NodeRequest, stage_request, unstage_request, publish_request, unpublish_request, AllowedOnNode,
  NodeRun, stop, then,
}
use linode_blockstorage_csi.Node.Stage.{node_stage_volume}
use linode_blockstorage_csi.Node.Stage.Effects.{node_stage_volume-Allowed}
use linode_blockstorage_csi.Node.Publish.{node_publish_volume}
use linode_blockstorage_csi.Node.Publish.Effects.{node_publish_volume-Allowed}
use linode_blockstorage_csi.Node.Unstage.{node_unstage_volume, node_unpublish_volume}
use linode_blockstorage_csi.Node.Unstage.Effects.{
  node_unstage_volume-Allowed, node_unpublish_volume-Allowed,
}

module _ {W : Type 0} (host : Host W) where
  -- The state after a request, whatever the reply is; a panic ends the call.
  abbrev pub serve_node : NodeRequest → State W → State W
  serve_node (stage_request req) s = (node_stage_volume host req s).1
  serve_node (unstage_request v p) s = (node_unstage_volume host v p s).1
  serve_node (publish_request req) s = (node_publish_volume host req s).1
  serve_node (unpublish_request v p) s = (node_unpublish_volume host v p s).1

  abbrev pub serve_node_all : List NodeRequest → State W → State W
  serve_node_all [] s = s
  serve_node_all (r ∷ rs) s = serve_node_all rs (serve_node r s)

module _ {W : Type 0} {host : Host W} (frame : NodeFrame host) where
  pub serve_node-Allowed :
      (r : NodeRequest) (s : State W)
      → AllowedOnNode r (frame.view s.world) (frame.view (serve_node host r s).world)
  serve_node-Allowed (stage_request req) s = node_stage_volume-Allowed frame req s
  serve_node-Allowed (unstage_request v p) s = node_unstage_volume-Allowed frame v p s
  serve_node-Allowed (publish_request req) s = node_publish_volume-Allowed frame req s
  serve_node-Allowed (unpublish_request v p) s = node_unpublish_volume-Allowed frame v p s

  -- Where the calls of the machine change no more than they document: a sequence of requests to the
  -- node service changes the mounts, the device-mapper names and the LUKS headers of the machine only
  -- as the specification allows it, request by request, whatever the machine answers and however
  -- each request ends.
  pub serve_node_all-NodeRun :
      (rs : List NodeRequest) (s : State W)
      → NodeRun rs (frame.view s.world) (frame.view (serve_node_all host rs s).world)
  serve_node_all-NodeRun [] s = stop
  serve_node_all-NodeRun (r ∷ rs) s =
      then (serve_node-Allowed r s) (serve_node_all-NodeRun rs (serve_node host r s))
