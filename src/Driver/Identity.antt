-- ===== src/Driver/Identity.antt =====
-- internal/driver/identityserver.go: the identity service, which reads the driver of the process,
-- and the capability calls of the other two services.
use linode_blockstorage_csi.Common.{Text, is_empty, List, [], ◌∷◌, Bool, if◌then◌else◌}
use linode_blockstorage_csi.Errors.{status, unavailable, end}
use linode_blockstorage_csi.Effect.{Result, ok, err}
use linode_blockstorage_csi.Capabilities.{ControllerRpc, NodeRpc}
use linode_blockstorage_csi.Driver.{Parts, LinodeDriver}

-- csi.PluginCapability, with the values that the driver names.
pub data PluginCapability : Type 0 where
  controller_service volume_accessibility_constraints online_expansion : PluginCapability

pub record PluginInfo : Type 0 where
  pub name : Text
  pub vendor_version : Text

module _ {parts : Parts} (driver : LinodeDriver parts) where
  unfoldable pub get_plugin_info : Result PluginInfo
  get_plugin_info =
      if is_empty driver.name
      then err (status unavailable "Driver name not configured" end)
      else ok (record { name = driver.name; vendor_version = driver.vendor_version })

  unfoldable pub get_plugin_capabilities : List PluginCapability
  get_plugin_capabilities =
      controller_service ∷ volume_accessibility_constraints ∷ online_expansion ∷ []

  unfoldable pub probe : Bool
  probe = driver.ready

  -- ControllerGetCapabilities and NodeGetCapabilities.
  unfoldable pub controller_get_capabilities : List ControllerRpc
  controller_get_capabilities = driver.cscap

  unfoldable pub node_get_capabilities : List NodeRpc
  node_get_capabilities = driver.nscap
