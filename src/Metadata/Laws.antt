-- ===== src/Metadata/Laws.antt =====
-- Which metadata the driver starts with.
use linode_blockstorage_csi.Common.{pos, ==ℤ_iff, Option, ◌≡◌, ◌≢◌, refl, arith}
use linode_blockstorage_csi.Effect.{Outcome, done, failed, panicked, State}
use linode_blockstorage_csi.Api.{LinodeClient}
use linode_blockstorage_csi.Host.{FileSystem}
use linode_blockstorage_csi.Metadata.{
  Metadata, MetadataService, from_service, with_id, get_node_metadata,
}

module _ {W : Type 0} where
  with_id-done :
      (md md' : Metadata) (s s' : State W)
      → with_id md s ≡ (done md', s')
      → (md ≡ md') × (md.id ≢ pos 0)
  unfolding with_id
  with_id-done md md' s s' h = ground (arith, ==ℤ_iff md.id (pos 0))

  -- Whatever the metadata service, the API and the file system answer, the metadata that the driver
  -- starts with has an instance id, one that is not 0.
  pub get_node_metadata_nonzero :
      (service : MetadataService W) (client : Option (LinodeClient W)) (fs : FileSystem W)
      (s s' : State W) (md : Metadata)
      → get_node_metadata service client fs s ≡ (done md, s')
      → md.id ≢ pos 0
  unfolding get_node_metadata
  get_node_metadata_nonzero service client fs s s' md h =
      at
        (from_service service client fs (service.new_client s.world).0
          (record s { world = (service.new_client s.world).1 }))
        refl
    where
      at :
          (o : Outcome Metadata × State W)
          → from_service service client fs
              (service.new_client s.world).0
              (record s { world = (service.new_client s.world).1 })
            ≡ o
          → md.id ≢ pos 0
      at (done md', s₁) e = ground (arith, with_id-done md' md s₁ s')
      at (failed x, s₁) e = absurd (ground arith)
      at (panicked, s₁) e = absurd (ground arith)
