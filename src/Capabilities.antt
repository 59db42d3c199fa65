-- ===== src/Capabilities.antt =====
-- internal/driver/capabilities.go: what the driver's services announce. The constructors are the
-- CSI values that the driver names; any other value is `other_rpc` or `other_node_rpc`.
use linode_blockstorage_csi.Common.{ℤ, ◌==ℤ◌, Bool, true, false, List, [], ◌∷◌}
use linode_blockstorage_csi.Csi.{AccessMode, single_node_writer}

-- csi.ControllerServiceCapability_RPC_Type
pub data ControllerRpc : Type 0 where
  unknown_rpc publish_readonly create_delete_volume publish_unpublish_volume : ControllerRpc
  expand_volume clone_volume list_volumes list_volumes_published_nodes : ControllerRpc
  volume_condition : ControllerRpc
  other_rpc : ℤ → ControllerRpc

-- csi.NodeServiceCapability_RPC_Type
pub data NodeRpc : Type 0 where
  stage_unstage_volume node_expand_volume get_volume_stats node_volume_condition : NodeRpc
  other_node_rpc : ℤ → NodeRpc

unfoldable pub controller_service_capabilities : List ControllerRpc
controller_service_capabilities =
    publish_readonly ∷ create_delete_volume ∷ publish_unpublish_volume ∷ expand_volume
    ∷ clone_volume ∷ list_volumes ∷ list_volumes_published_nodes ∷ volume_condition ∷ []

unfoldable pub node_service_capabilities : List NodeRpc
node_service_capabilities =
    stage_unstage_volume ∷ node_expand_volume ∷ get_volume_stats ∷ node_volume_condition ∷ []

unfoldable pub volume_capability_access_modes : List AccessMode
volume_capability_access_modes = single_node_writer ∷ []

-- `==` on the enumeration.
unfoldable pub rpc_eq : ControllerRpc → ControllerRpc → Bool
rpc_eq unknown_rpc unknown_rpc = true
rpc_eq publish_readonly publish_readonly = true
rpc_eq create_delete_volume create_delete_volume = true
rpc_eq publish_unpublish_volume publish_unpublish_volume = true
rpc_eq expand_volume expand_volume = true
rpc_eq clone_volume clone_volume = true
rpc_eq list_volumes list_volumes = true
rpc_eq list_volumes_published_nodes list_volumes_published_nodes = true
rpc_eq volume_condition volume_condition = true
rpc_eq (other_rpc n) (other_rpc m) = n ==ℤ m
rpc_eq _ _ = false
