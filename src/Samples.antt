-- ===== src/Samples.antt =====
-- The metrics of the operations of both services.
use linode_blockstorage_csi.Common.{Text}
use linode_blockstorage_csi.Effect.{
  create_volume_op, delete_volume_op, publish_volume_op, unpublish_volume_op, node_stage_op,
  node_unstage_op, node_unpublish_op,
}
use linode_blockstorage_csi.Effect.Samples.{RecordsOne}
use linode_blockstorage_csi.Api.{LinodeClient}
use linode_blockstorage_csi.Host.{Host}
use linode_blockstorage_csi.Csi.{CreateVolumeRequest, PublishRequest}
use linode_blockstorage_csi.Node.{StageRequest}
use linode_blockstorage_csi.Controller.{Server}
use linode_blockstorage_csi.Controller.Create.{create_volume}
use linode_blockstorage_csi.Controller.Create.Metrics.{create_volume-RecordsOne}
use linode_blockstorage_csi.Controller.Delete.{delete_volume}
use linode_blockstorage_csi.Controller.Delete.Laws.{delete_volume-RecordsOne}
use linode_blockstorage_csi.Controller.Publish.{controller_publish_volume}
use linode_blockstorage_csi.Controller.Publish.Metrics.{controller_publish_volume-RecordsOne}
use linode_blockstorage_csi.Controller.Unpublish.{controller_unpublish_volume}
use linode_blockstorage_csi.Controller.Unpublish.Laws.{controller_unpublish_volume-RecordsOne}
use linode_blockstorage_csi.Node.Stage.{node_stage_volume}
use linode_blockstorage_csi.Node.Stage.Metrics.{node_stage_volume-RecordsOne}
use linode_blockstorage_csi.Node.Unstage.{node_unstage_volume, node_unpublish_volume}
use linode_blockstorage_csi.Node.Unstage.Laws.{
  node_unstage_volume-RecordsOne, node_unpublish_volume-RecordsOne,
}

-- Each of `CreateVolume`, `DeleteVolume`, `ControllerPublishVolume`, `ControllerUnpublishVolume`,
-- `NodeStageVolume`, `NodeUnstageVolume` and `NodeUnpublishVolume`, on any request and whatever the
-- API and the machine answer, records one sample, for its own operation, unless it panics.
pub operations-RecordsOne :
    {W V : Type 0} (client : LinodeClient W) (host : Host V) (server : Server)
    (req : CreateVolumeRequest) (publish : PublishRequest) (stage : StageRequest)
    (volume_id node_id path : Text)
    → RecordsOne create_volume_op (create_volume client server req)
      × RecordsOne delete_volume_op (delete_volume client volume_id)
      × RecordsOne publish_volume_op (controller_publish_volume client publish)
      × RecordsOne unpublish_volume_op (controller_unpublish_volume client volume_id node_id)
      × RecordsOne node_stage_op (node_stage_volume host stage)
      × RecordsOne node_unstage_op (node_unstage_volume host volume_id path)
      × RecordsOne node_unpublish_op (node_unpublish_volume host volume_id path)
operations-RecordsOne client host server req publish stage volume_id node_id path = (
  create_volume-RecordsOne client server req,
  delete_volume-RecordsOne client volume_id,
  controller_publish_volume-RecordsOne client publish,
  controller_unpublish_volume-RecordsOne client volume_id node_id,
  node_stage_volume-RecordsOne host stage,
  node_unstage_volume-RecordsOne host volume_id path,
  node_unpublish_volume-RecordsOne host volume_id path,
)
