-- ===== src/Node/Replies.antt =====
-- The node service replies to its requests.
use linode_blockstorage_csi.Common.{◌≡◌, refl}
use linode_blockstorage_csi.Effect.{panicked, State}
use linode_blockstorage_csi.Host.{Host}
use linode_blockstorage_csi.Node.{StageRequest}
use linode_blockstorage_csi.Node.Spec.{
  NodeRequest, stage_request, unstage_request, publish_request, unpublish_request,
}
use linode_blockstorage_csi.Node.Stage.{node_stage_volume}
use linode_blockstorage_csi.Node.Stage.Calm.{IsUndashed, node_stage_volume-PanicsIf}
use linode_blockstorage_csi.Node.Publish.{node_publish_volume}
use linode_blockstorage_csi.Node.Publish.Calm.{node_publish_volume-PanicsIf}
use linode_blockstorage_csi.Node.Unstage.{node_unstage_volume, node_unpublish_volume}
use linode_blockstorage_csi.Node.Unstage.Calm.{
  node_unstage_volume-PanicsIf, node_unpublish_volume-PanicsIf,
}

module _ {W : Type 0} (host : Host W) where
  -- The request ends the process, in place of a reply or an error.
  abbrev pub NodePanics : NodeRequest → State W → Type 0
  NodePanics (stage_request req) s = (node_stage_volume host req s).0 ≡ panicked
  NodePanics (unstage_request v p) s = (node_unstage_volume host v p s).0 ≡ panicked
  NodePanics (publish_request req) s = (node_publish_volume host req s).0 ≡ panicked
  NodePanics (unpublish_request v p) s = (node_unpublish_volume host v p s).0 ≡ panicked

  -- Whatever the machine answers, a request to stage, unstage, publish or unpublish ends with a
  -- reply or an error, unless it is one to stage an encrypted volume whose cipher has no dash.
  pub NodePanics-only :
      (r : NodeRequest) (s : State W)
      → NodePanics r s
      → (req : StageRequest) × (r ≡ stage_request req) × IsUndashed req
  NodePanics-only (stage_request req) s h =
      (node_stage_volume-PanicsIf host
          ((req' : StageRequest) × (stage_request req ≡ stage_request req') × IsUndashed req') req
          (λ u. (req, refl, u))).at
        s h
  NodePanics-only (unstage_request v p) s h =
      absurd ((node_unstage_volume-PanicsIf host ⊥ v p).at s h)
  NodePanics-only (publish_request req) s h =
      absurd ((node_publish_volume-PanicsIf host ⊥ req).at s h)
  NodePanics-only (unpublish_request v p) s h =
      absurd ((node_unpublish_volume-PanicsIf host ⊥ v p).at s h)
