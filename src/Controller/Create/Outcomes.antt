-- ===== src/Controller/Create/Outcomes.antt =====
-- What `CreateVolume` asks of the API and answers, for a request with no source and no encryption.
use linode_blockstorage_csi.Common.{
  ℤ, pos, ==ℤ_iff, Text, codes, get, text_eq, none, some, false, [], ◌∷◌, ◌≡◌, refl, arith,
}
use linode_blockstorage_csi.Errors.{GoError}
use linode_blockstorage_csi.Effect.{ok, done, panicked, State, create_volume_op, completed_status}
use linode_blockstorage_csi.Volumes.{create_linode_volume_key, get_normalized_label_with_prefix}
use linode_blockstorage_csi.Capacity.{get_request_capacity_size, bytes_to_gb}
use linode_blockstorage_csi.Api.{
  LinodeClient, Volume, VolumeCreateOptions, ListOptions, volume_active,
}
use linode_blockstorage_csi.Csi.{CreateVolumeRequest, CsiVolume}
use linode_blockstorage_csi.Luks.{true_text}
use linode_blockstorage_csi.Controller.{
  Server, volume_encryption, volume_tags, wait_timeout, required_region,
}
use linode_blockstorage_csi.Controller.Create.{create_volume}
use linode_blockstorage_csi.Controller.Provision.{
  validate_create_volume_request, create_volume_context, prepare_create_volume_response, split_tags,
}

-- The label, the listing and the options that a request leads to.
abbrev pub label_of : Server → CreateVolumeRequest → Text
label_of server req =
    get_normalized_label_with_prefix server.volume_label_prefix
      (create_linode_volume_key (pos 0) req.name)

abbrev pub listing : Server → CreateVolumeRequest → ListOptions
listing server req = record {
  page = pos 0;
  page_size = pos 0;
  label_filter = some (label_of server req);
}

abbrev pub options : Server → CreateVolumeRequest → ℤ → VolumeCreateOptions
options server req size = record {
  region = required_region server req.accessibility_requirements;
  label = label_of server req;
  size = bytes_to_gb size;
  encryption = codes "disabled";
  tags = split_tags (get volume_tags req.parameters);
}

-- A request that is valid, asks for `size` bytes, and names neither encryption nor a source.
pub record IsPlain (req : CreateVolumeRequest) (size : ℤ) : Type 0 where
  pub valid : validate_create_volume_request req ≡ ok tt
  pub sized : get_request_capacity_size req.capacity_range ≡ ok size
  pub plain_text : text_eq (get volume_encryption req.parameters) true_text ≡ false
  pub sourceless : req.content_source ≡ none

module _ {W : Type 0} (client : LinodeClient W) (server : Server) (req : CreateVolumeRequest)
    (size : ℤ) (p : IsPlain req size) where
  -- The response for the volume that the wait returned.
  abbrev answer : Volume → CsiVolume
  answer v = prepare_create_volume_response v size (create_volume_context req v) none none

  pub create_volume_new :
      (s : State W) (v v' : Volume) (w₁ w₂ w₃ : W)
      → client.list_volumes (listing server req) s.world ≡ (ok [], w₁)
      → client.create_volume (options server req size) w₁ ≡ (ok (some v), w₂)
      → v.size ≡ bytes_to_gb size
      → client.wait_for_volume_status v.id volume_active wait_timeout w₂ ≡ ((some v', none), w₃)
      → create_volume client server req s ≡ (
        done (answer v'),
        record { world = w₃; samples = (create_volume_op, completed_status) ∷ s.samples },
      )
  unfolding create_volume
  create_volume_new s v v' w₁ w₂ w₃ hl hc hs hw =
      ground
        (arith, p.valid, p.sized, p.plain_text, p.sourceless, ==ℤ_iff v.size (bytes_to_gb size))

  create_volume_existing :
      (s : State W) (v v' : Volume) (w₁ w₂ : W)
      → client.list_volumes (listing server req) s.world ≡ (ok (v ∷ []), w₁)
      → v.size ≡ bytes_to_gb size
      → client.wait_for_volume_status v.id volume_active wait_timeout w₁ ≡ ((some v', none), w₂)
      → create_volume client server req s ≡ (
        done (answer v'),
        record { world = w₂; samples = (create_volume_op, completed_status) ∷ s.samples },
      )
  unfolding create_volume
  create_volume_existing s v v' w₁ w₂ hl hs hw =
      ground
        (arith, p.valid, p.sized, p.plain_text, p.sourceless, ==ℤ_iff v.size (bytes_to_gb size))

  -- A wait that ends with an error and a nil volume makes the handler panic, after the volume was
  -- created.
  pub create_volume_timeout :
      (s : State W) (v : Volume) (e : GoError) (w₁ w₂ w₃ : W)
      → client.list_volumes (listing server req) s.world ≡ (ok [], w₁)
      → client.create_volume (options server req size) w₁ ≡ (ok (some v), w₂)
      → v.size ≡ bytes_to_gb size
      → client.wait_for_volume_status v.id volume_active wait_timeout w₂ ≡ ((none, some e), w₃)
      → create_volume client server req s ≡ (panicked, record s { world = w₃ })
  unfolding create_volume
  create_volume_timeout s v e w₁ w₂ w₃ hl hc hs hw =
      ground
        (arith, p.valid, p.sized, p.plain_text, p.sourceless, ==ℤ_iff v.size (bytes_to_gb size))

  -- A new volume is asked for under the request's label, in its region, with the requested bytes cut
  -- to whole gigabytes. If the same request comes again while the API lists that one volume under
  -- the label, the answer is the same and nothing is created.
  pub create_volume_twice :
      (s : State W) (v v' : Volume) (w₁ w₂ w₃ w₄ w₅ : W)
      → client.list_volumes (listing server req) s.world ≡ (ok [], w₁)
      → client.create_volume (options server req size) w₁ ≡ (ok (some v), w₂)
      → v.size ≡ bytes_to_gb size
      → client.wait_for_volume_status v.id volume_active wait_timeout w₂ ≡ ((some v', none), w₃)
      → client.list_volumes (listing server req) w₃ ≡ (ok (v ∷ []), w₄)
      → client.wait_for_volume_status v.id volume_active wait_timeout w₄ ≡ ((some v', none), w₅)
      → let (o, s') = create_volume client server req s in
        let (o', s'') = create_volume client server req s' in
        (o ≡ done (answer v')) × (s'.world ≡ w₃) × (o' ≡ o) × (s''.world ≡ w₅)
  create_volume_twice s v v' w₁ w₂ w₃ w₄ w₅ hl hc hs hw hl' hw' =
      let s' : State W = record {
        world = w₃;
        samples = (create_volume_op, completed_status) ∷ s.samples;
      } in
      rw
        (
          create_volume_new s v v' w₁ w₂ w₃ hl hc hs hw,
          create_volume_existing s' v v' w₄ w₅ hl' hs hw',
        )
        (refl, refl, refl, refl)
