-- ===== src/Api/Replies.antt =====
-- What the Linode API client documents of the pointers that it returns: with no error, none of them
-- is nil, and the volume that a wait for an attachment returns is attached as it was waited for. The
-- wait for a status is left out: it returns its volume beside its error.
use linode_blockstorage_csi.Common.{ℤ, Text, Option, none, some, ◌≡◌, ◌≢◌}
use linode_blockstorage_csi.Effect.{ok}
use linode_blockstorage_csi.Api.{LinodeClient, Volume, VolumeCreateOptions}

pub record ApiReplies {W : Type 0} (client : LinodeClient W) : Type 0 where
  pub get_volume_given : (id : ℤ) (w : W) → (client.get_volume id w).0 ≢ ok none
  pub get_instance_given : (id : ℤ) (w : W) → (client.get_instance id w).0 ≢ ok none
  pub get_region_given :
      (region : Text) (w : W) → (client.get_region_capabilities region w).0 ≢ ok none
  pub create_volume_given :
      (o : VolumeCreateOptions) (w : W) → (client.create_volume o w).0 ≢ ok none
  pub clone_volume_given :
      (source : ℤ) (label : Text) (w : W) → (client.clone_volume source label w).0 ≢ ok none
  pub wait_attached :
      (id node timeout : ℤ) (w : W) (o : Option Volume)
      → (client.wait_for_volume_linode_id id (some node) timeout w).0 ≡ ok o
      → (v : Volume) × (o ≡ some v) × (v.linode_id ≡ some node)
