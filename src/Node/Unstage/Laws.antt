-- ===== src/Node/Unstage/Laws.antt =====
-- `NodeUnstageVolume` and `NodeUnpublishVolume` record one sample, and what unstaging does where no
-- LUKS device has the volume's name.
use linode_blockstorage_csi.Common.{Text, ◌∷◌, ◌≡◌, ◌≢◌, [], refl, arith}
use linode_blockstorage_csi.Errors.{GoError}
use linode_blockstorage_csi.Effect.{
  ok, err, done, State, node_unstage_op, node_unpublish_op, completed_status,
}
use linode_blockstorage_csi.Effect.Samples.{
  IsQuiet, RecordsOne, quiet_rules, sample_rules, recover-IsQuiet,
}
use linode_blockstorage_csi.Host.{Host}
use linode_blockstorage_csi.Luks.{luks_close}
use linode_blockstorage_csi.Luks.Metrics.{luks_close-IsQuiet}
use linode_blockstorage_csi.Node.{get_mount_source, validate_node_unstage_volume_request}
use linode_blockstorage_csi.Node.Unstage.{
  close_luks_mount_source, node_unstage_volume, node_unpublish_volume,
}

module _ {W : Type 0} (host : Host W) where
  close-IsQuiet : (id : Text) → IsQuiet (close_luks_mount_source host id)
  unfolding close_luks_mount_source
  close-IsQuiet id = search (quiet_rules, recover-IsQuiet, luks_close-IsQuiet) depth 9

  -- Unless it panics, `NodeUnstageVolume` records one sample, for its own operation, as
  -- completed or as failed.
  pub node_unstage_volume-RecordsOne :
      (id path : Text) → RecordsOne node_unstage_op (node_unstage_volume host id path)
  unfolding node_unstage_volume
  node_unstage_volume-RecordsOne id path =
      search (sample_rules, recover-IsQuiet, close-IsQuiet) depth 12

  -- Unless it panics, `NodeUnpublishVolume` records one sample, for its own operation, as
  -- completed or as failed.
  pub node_unpublish_volume-RecordsOne :
      (id path : Text) → RecordsOne node_unpublish_op (node_unpublish_volume host id path)
  unfolding node_unpublish_volume
  node_unpublish_volume-RecordsOne id path = search sample_rules depth 9

  -- If no active device has the name that is read off the volume id, unstaging succeeds once the
  -- path is unmounted, and no device is deactivated: the world is the one after the lookup.
  pub node_unstage_volume_inactive :
      (s : State W) (id path name : Text) (e : GoError) (w w' : W)
      → id ≢ []
      → path ≢ []
      → get_mount_source id ≡ ok name
      → host.mounter.cleanup_mount_point path s.world ≡ (ok tt, w)
      → host.crypt.init_by_name name w ≡ (err e, w')
      → node_unstage_volume host id path s ≡ (
        done tt,
        record { world = w'; samples = (node_unstage_op, completed_status) ∷ s.samples },
      )
  unfolding node_unstage_volume luks_close validate_node_unstage_volume_request
  node_unstage_volume_inactive s [] path name e w w' hid _ _ _ _ = absurd (hid refl)
  node_unstage_volume_inactive s (c ∷ id) [] name e w w' hid hpath _ _ _ = absurd (hpath refl)
  node_unstage_volume_inactive s (c ∷ id) (d ∷ path) name e w w' hid hpath hn hc hi = ground arith
