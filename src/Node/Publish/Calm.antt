-- ===== src/Node/Publish/Calm.antt =====
-- `NodePublishVolume` does not panic.
use linode_blockstorage_csi.Common.{
  ℕ, Text, codes, get, is_empty, Bool, true, false, Bool-cases, List, inl, inr, if◌then◌else◌,
}
use linode_blockstorage_csi.Errors.{GoError}
use linode_blockstorage_csi.Effect.{Result, ok, err}
use linode_blockstorage_csi.Effect.Panics.{PanicsIf, calm_rules}
use linode_blockstorage_csi.Host.{Host}
use linode_blockstorage_csi.Node.{PublishRequest}
use linode_blockstorage_csi.Node.Calm.{ensure_mount_point-PanicsIf}
use linode_blockstorage_csi.Node.Publish.{
  remove_target, mounted_block, opened, with_device, node_publish_volume_block, publish_block,
  mount_staged, publish_mount, node_publish_volume,
}

module _ {W : Type 0} (host : Host W) (E : Type 0) where
  remove_target-PanicsIf :
      (target : Text) (e both : GoError) (r : Result (Unit {0}))
      → PanicsIf E (remove_target host target e both r)
  unfolding remove_target
  remove_target-PanicsIf target e both (ok u) = search calm_rules
  remove_target-PanicsIf target e both (err x) = search calm_rules

  mounted_block-PanicsIf :
      (device target : Text) (r : Result (Unit {0}))
      → PanicsIf E (mounted_block host device target r)
  unfolding mounted_block
  mounted_block-PanicsIf device target (ok u) = search calm_rules
  mounted_block-PanicsIf device target (err e) = search (calm_rules, remove_target-PanicsIf)

  opened-PanicsIf :
      (device target : Text) (options : List Text) (r : Result ℕ)
      → PanicsIf E (opened host device target options r)
  unfolding opened
  opened-PanicsIf device target options (ok file) = search (calm_rules, mounted_block-PanicsIf)
  opened-PanicsIf device target options (err e) = search (calm_rules, remove_target-PanicsIf)

  with_device-PanicsIf :
      (device target : Text) (options : List Text)
      → PanicsIf E (with_device host device target options)
  unfolding with_device
  with_device-PanicsIf device target options = search (calm_rules, opened-PanicsIf)

  pub node_publish_volume_block-PanicsIf :
      (req : PublishRequest) (options : List Text)
      → PanicsIf E (node_publish_volume_block host req options)
  unfolding node_publish_volume_block
  node_publish_volume_block-PanicsIf req options =
      elim (Bool-cases (is_empty (get (codes "devicePath") req.publish_context))) [
        | inl h ↦ rw h (search calm_rules)
        | inr h ↦ rw h (with_device-PanicsIf _ _ _)
      ]

  publish_block-PanicsIf : (req : PublishRequest) → PanicsIf E (publish_block host req)
  unfolding publish_block
  publish_block-PanicsIf req = search (calm_rules, node_publish_volume_block-PanicsIf)

  mount_staged-PanicsIf : (req : PublishRequest) (b : Bool) → PanicsIf E (mount_staged host req b)
  unfolding mount_staged
  mount_staged-PanicsIf req true = search calm_rules
  mount_staged-PanicsIf req false = search calm_rules

  publish_mount-PanicsIf : (req : PublishRequest) → PanicsIf E (publish_mount host req)
  unfolding publish_mount
  publish_mount-PanicsIf req =
      search (calm_rules, ensure_mount_point-PanicsIf, mount_staged-PanicsIf)

  by_access-PanicsIf :
      (req : PublishRequest) (b : Bool)
      → PanicsIf E (if b then publish_block host req else publish_mount host req)
  by_access-PanicsIf req true = publish_block-PanicsIf req
  by_access-PanicsIf req false = publish_mount-PanicsIf req

  pub node_publish_volume-PanicsIf :
      (req : PublishRequest) → PanicsIf E (node_publish_volume host req)
  unfolding node_publish_volume
  node_publish_volume-PanicsIf req = search (calm_rules, by_access-PanicsIf)
