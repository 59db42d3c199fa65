-- ===== src/Node/Unstage/Calm.antt =====
-- `NodeUnstageVolume` and `NodeUnpublishVolume` do not panic.
use linode_blockstorage_csi.Common.{Text}
use linode_blockstorage_csi.Errors.{GoError}
use linode_blockstorage_csi.Effect.{M}
use linode_blockstorage_csi.Effect.Panics.{PanicsIf, calm_rules}
use linode_blockstorage_csi.Host.{Host}
use linode_blockstorage_csi.Luks.Calm.{luks_close-PanicsIf}
use linode_blockstorage_csi.Node.Unstage.{
  wrapped, close_luks_mount_source, node_unstage_volume, node_unpublish_volume,
}

module _ {W : Type 0} (host : Host W) (E : Type 0) where
  wrapped-PanicsIf :
      {A : Type 0} (wrap : GoError → GoError) {m : M W A}
      → PanicsIf E m
      → PanicsIf E (wrapped host wrap m)
  unfolding wrapped
  wrapped-PanicsIf wrap h = search calm_rules

  close_luks_mount_source-PanicsIf :
      (volume_id : Text) → PanicsIf E (close_luks_mount_source host volume_id)
  unfolding close_luks_mount_source
  close_luks_mount_source-PanicsIf volume_id =
      search (calm_rules, wrapped-PanicsIf, luks_close-PanicsIf)

  pub node_unstage_volume-PanicsIf :
      (volume_id path : Text) → PanicsIf E (node_unstage_volume host volume_id path)
  unfolding node_unstage_volume
  node_unstage_volume-PanicsIf volume_id path =
      search (calm_rules, wrapped-PanicsIf, close_luks_mount_source-PanicsIf) depth 12

  pub node_unpublish_volume-PanicsIf :
      (volume_id path : Text) → PanicsIf E (node_unpublish_volume host volume_id path)
  unfolding node_unpublish_volume
  node_unpublish_volume-PanicsIf volume_id path = search calm_rules depth 12
