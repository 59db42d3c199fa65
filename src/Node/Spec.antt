-- ===== src/Node/Spec.antt =====
-- What the node service may do to a machine, request by request: the abstract specification, on
-- views of the machine. It says nothing of replies, errors and metrics.
use linode_blockstorage_csi.Common.{
  Text, codes, get, List, [], ◌∷◌, true, false, ◌≡◌, ◌⊎◌, if◌then◌else◌,
}
use linode_blockstorage_csi.Effect.{ok}
use mathlib.Core.List.{Memᴰ}
use linode_blockstorage_csi.Volumes.{LinodeVolumeKey, parse_linode_volume_key, get_normalized_label}
use linode_blockstorage_csi.Csi.{VolumeCapability}
use linode_blockstorage_csi.Devices.{get_disk_by_id_paths}
use linode_blockstorage_csi.Luks.{LuksContext, get_luks_context, mapper_path}
use linode_blockstorage_csi.Luks.Leads.{IsHeaderOf}
use linode_blockstorage_csi.Host.{GenericParams}
use linode_blockstorage_csi.Host.Frame.{
  Place, target, mapping, header, Content, mounted, mapped, luks_header, NodeView,
}
use linode_blockstorage_csi.Node.{
  StageRequest, PublishRequest, is_block, get_mount_source, get_fs_type_and_mount_options,
  validate_node_stage_volume_request, validate_node_publish_volume_request,
  validate_node_unstage_volume_request, validate_node_unpublish_volume_request,
}
use linode_blockstorage_csi.Node.Stage.{partition_of}

pub data NodeRequest : Type 0 where
  stage_request : StageRequest → NodeRequest
  unstage_request : Text → Text → NodeRequest
  publish_request : PublishRequest → NodeRequest
  unpublish_request : Text → Text → NodeRequest

-- A path under which the device of the request's volume, or its partition, appears.
abbrev pub IsDeviceOf : StageRequest → Text → Type 0
IsDeviceOf req device =
    (key : LinodeVolumeKey) × (parse_linode_volume_key req.volume_id ≡ ok key)
    × Memᴰ device (get_disk_by_id_paths (get_normalized_label key) (partition_of req))

abbrev pub luks_of : StageRequest → LuksContext
luks_of req = get_luks_context req.secrets req.volume_context

-- What is staged: the device itself, or what it is unlocked as.
abbrev pub staged_source : StageRequest → Text → Text
staged_source req device =
    if (luks_of req).encryption_enabled then mapper_path (luks_of req).volume_name else device

-- What is published: the block device that the context names, or the staging path, for reading
-- only if that is asked.
abbrev pub publish_options : PublishRequest → List Text
publish_options req = codes "bind" ∷ (if req.readonly then codes "ro" ∷ [] else [])

abbrev pub published : PublishRequest → VolumeCapability → Content
published req cap =
    if is_block cap.access_type
    then mounted (get (codes "devicePath") req.publish_context) [] (publish_options req)
    else mounted req.staging_target_path (codes "ext4") (publish_options req)

-- Staging of a volume that is no block volume: one new mount at the staging path; for an encrypted
-- volume also its mapping, and the header of its device.
abbrev pub Stages : StageRequest → Place → List Content → List Content → Type 0
Stages req (target path) old new =
    (path ≡ req.staging_target_path)
    × ((cap : VolumeCapability) × (device : Text) × (validate_node_stage_volume_request req
          ≡ ok cap)
        × (is_block cap.access_type ≡ false)
        × IsDeviceOf req device
        × (new
            ≡ mounted (staged_source req device) (get_fs_type_and_mount_options cap).0
                (get_fs_type_and_mount_options cap).1
              ∷ old))
Stages req (mapping name) old new =
    ((luks_of req).encryption_enabled ≡ true)
    × (name ≡ (luks_of req).volume_name)
    × ((device : Text) × IsDeviceOf req device × (new ≡ mapped device ∷ []))
Stages req (header device) old new =
    ((luks_of req).encryption_enabled ≡ true)
    × IsDeviceOf req device
    × ((params : GenericParams) × IsHeaderOf (luks_of req) params × (new ≡ luks_header params ∷ []))

-- The newest mount is gone.
abbrev pub Unmounts : List Content → List Content → Type 0
Unmounts old new = (x : Content) × (old ≡ x ∷ new)

abbrev pub Unstages : Text → Text → Place → List Content → List Content → Type 0
Unstages volume_id path (target p) old new =
    (p ≡ path) × (validate_node_unstage_volume_request volume_id path ≡ ok tt) × Unmounts old new
Unstages volume_id path (mapping name) old new = (get_mount_source volume_id ≡ ok name) × (new ≡ [])
Unstages volume_id path (header device) old new = ⊥

abbrev pub Publishes : PublishRequest → Place → List Content → List Content → Type 0
Publishes req (target path) old new =
    (path ≡ req.target_path)
    × ((cap : VolumeCapability) × (validate_node_publish_volume_request req ≡ ok cap)
        × (new ≡ published req cap ∷ old))
Publishes req _ old new = ⊥

abbrev pub Unpublishes : Text → Text → Place → List Content → List Content → Type 0
Unpublishes volume_id path (target p) old new =
    (p ≡ path) × (validate_node_unpublish_volume_request volume_id path ≡ ok tt) × Unmounts old new
Unpublishes volume_id path _ old new = ⊥

-- What a request may do to a place.
abbrev pub MayChange : NodeRequest → Place → List Content → List Content → Type 0
MayChange (stage_request req) = Stages req
MayChange (unstage_request volume_id path) = Unstages volume_id path
MayChange (publish_request req) = Publishes req
MayChange (unpublish_request volume_id path) = Unpublishes volume_id path

-- Each place is as it was, or changed in the way that the request may change it.
abbrev pub AllowedOnNode : NodeRequest → NodeView → NodeView → Type 0
AllowedOnNode r u u' = (q : Place) → (u' q ≡ u q) ⊎ MayChange r q (u q) (u' q)

-- What a sequence of requests may do.
pub data NodeRun : List NodeRequest → NodeView → NodeView → Type 0 where
  stop : {u : NodeView} → NodeRun [] u u
  then :
      {r : NodeRequest} {rs : List NodeRequest} {u v w : NodeView}
      → AllowedOnNode r u v
      → NodeRun rs v w
      → NodeRun (r ∷ rs) u w
