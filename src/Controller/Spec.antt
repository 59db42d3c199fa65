-- ===== src/Controller/Spec.antt =====
-- What the controller service may do to the volumes, request by request: the abstract
-- specification, on views of the API. It says nothing of replies, errors and metrics.
use linode_blockstorage_csi.Common.{ℤ, pos, ◌≤ℤ◌, Text, codes, Option, none, some, List, ◌≡◌, ◌⊎◌}
use linode_blockstorage_csi.Effect.{ok}
use linode_blockstorage_csi.Volumes.{
  volume_id_as_int, node_id_as_int, create_linode_volume_key, get_normalized_label_with_prefix,
}
use linode_blockstorage_csi.Controller.{Server}
use linode_blockstorage_csi.Capacity.{CapacityRange}
use linode_blockstorage_csi.Api.{Volume}
use linode_blockstorage_csi.Api.Frame.{View, change}
use linode_blockstorage_csi.Csi.{
  CreateVolumeRequest, PublishRequest, ListVolumesRequest, VolumeCapability,
}

pub data Request : Type 0 where
  create_request : CreateVolumeRequest → Request
  delete_request : Text → Request
  publish_request : PublishRequest → Request
  unpublish_request : Text → Text → Request
  expand_request : Text → Option CapacityRange → Request
  list_request : ListVolumesRequest → Request
  validate_request : Text → List (Option VolumeCapability) → Request

-- One new volume with the label, which is attached nowhere.
abbrev pub Creates : Text → View → View → Type 0
Creates label u u' =
    (id : ℤ) × (v : Volume) × (u id ≡ none)
    × (v.linode_id ≡ none)
    × (v.label ≡ label)
    × (u' ≡ change id (some v) u)

-- The volume goes, and was attached nowhere.
abbrev pub Deletes : ℤ → View → View → Type 0
Deletes id u u' = (v : Volume) × (u id ≡ some v) × (v.linode_id ≡ none) × (u' ≡ change id none u)

-- The volume was attached nowhere or to the node, and is attached to the node.
abbrev pub Attaches : ℤ → ℤ → View → View → Type 0
Attaches id node u u' =
    (v : Volume) × (u id ≡ some v)
    × ((v.linode_id ≡ none) ⊎ (v.linode_id ≡ some node))
    × (u' ≡ change id (some (record v { linode_id = some node })) u)

-- The volume was attached to the node or nowhere, and is attached nowhere.
abbrev pub Detaches : ℤ → ℤ → View → View → Type 0
Detaches id node u u' =
    (v : Volume) × (u id ≡ some v)
    × ((v.linode_id ≡ none) ⊎ (v.linode_id ≡ some node))
    × (u' ≡ change id (some (record v { linode_id = none })) u)

-- The volume does not shrink.
abbrev pub Resizes : ℤ → View → View → Type 0
Resizes id u u' =
    (v : Volume) × (size : ℤ) × (u id ≡ some v)
    × (v.size ≤ℤ size)
    × (u' ≡ change id (some (record v { size = size })) u)

-- What a request may do: nothing, or its one change to the one volume that it names.
abbrev pub Allowed : Server → Request → View → View → Type 0
Allowed server (create_request req) u u' =
    (u' ≡ u)
    ⊎ Creates
        (get_normalized_label_with_prefix server.volume_label_prefix
          (create_linode_volume_key (pos 0) req.name))
        u u'
Allowed server (delete_request volume_id) u u' =
    (u' ≡ u)
    ⊎ ((id : ℤ) × (volume_id_as_int (codes "DeleteVolume") volume_id ≡ ok id) × Deletes id u u')
Allowed server (publish_request req) u u' =
    (u' ≡ u)
    ⊎ ((id : ℤ) × (node : ℤ) × (volume_id_as_int (codes "ControllerPublishVolume") req.volume_id
          ≡ ok id)
        × (node_id_as_int (codes "ControllerPublishVolume") req.node_id ≡ ok node)
        × Attaches id node u u')
Allowed server (unpublish_request volume_id node_id) u u' =
    (u' ≡ u)
    ⊎ ((id : ℤ) × (node : ℤ) × (volume_id_as_int (codes "ControllerUnpublishVolume") volume_id
          ≡ ok id)
        × (node_id_as_int (codes "ControllerUnpublishVolume") node_id ≡ ok node)
        × Detaches id node u u')
Allowed server (expand_request volume_id range) u u' =
    (u' ≡ u)
    ⊎ ((id : ℤ) × (volume_id_as_int (codes "ControllerExpandVolume") volume_id ≡ ok id)
        × Resizes id u u')
Allowed server (list_request req) u u' = u' ≡ u
Allowed server (validate_request volume_id caps) u u' = u' ≡ u
