-- ===== src/Controller/Create/Sources.antt =====
-- What the parameters and the source of a `CreateVolume` come from, whatever the API answers.
use linode_blockstorage_csi.Common.{
  ℤ, Text, codes, get, text_eq, text_eq_iff, Option, none, some, Bool, Bool-cases, true, false, ◌≡◌,
  refl, ap, inl, inr, arith, if◌then◌else◌,
}
use linode_blockstorage_csi.Effect.{Result, ok, err, Outcome, done, failed, panicked, State}
use linode_blockstorage_csi.Effect.Runs.{>>=-done}
use linode_blockstorage_csi.Volumes.{LinodeVolumeKey}
use linode_blockstorage_csi.Capacity.{get_request_capacity_size, bytes_to_gb}
use linode_blockstorage_csi.Api.{LinodeClient, Volume}
use linode_blockstorage_csi.Csi.{CreateVolumeRequest, ContentSource, TopologyRequirement}
use linode_blockstorage_csi.Luks.{true_text}
use linode_blockstorage_csi.Controller.{Server, volume_encryption, required_region}
use linode_blockstorage_csi.Controller.Create.{
  is_encryption_supported, status_if, encryption_status_for, prepare_volume_params,
  get_content_source_volume,
}
use linode_blockstorage_csi.Controller.Create.Outcomes.{label_of}
use linode_blockstorage_csi.Controller.Provision.{VolumeParams, source_key, non_nil, same_region}

-- The encryption that a request asks for.
abbrev pub status_of : CreateVolumeRequest → Text
status_of req =
    if text_eq (get volume_encryption req.parameters) true_text
    then codes "enabled"
    else codes "disabled"

-- The parameters of a request for `size` bytes.
abbrev pub params_of : Server → CreateVolumeRequest → ℤ → VolumeParams
params_of server req size = record {
  volume_name = label_of server req;
  target_size_gb = bytes_to_gb size;
  size = size;
  encryption_status = status_of req;
  region = required_region server req.accessibility_requirements;
}

module _ {W : Type 0} (client : LinodeClient W) where
  encryption-done :
      (req : CreateVolumeRequest) (region st : Text) (s s' : State W)
      → encryption_status_for client req region s ≡ (done st, s')
      → st ≡ status_of req
  unfolding encryption_status_for status_if
  encryption-done req region st s s' =
      elim (Bool-cases (text_eq (get volume_encryption req.parameters) true_text)) [
        | inr plain ↦ rw plain (λ h. ground arith)
        | inl wanted ↦ rw wanted (λ h.
            let (b, t, e, h₁) =
              >>=-done (is_encryption_supported client region) (status_if client region) s s' st
                h in
            enabled b t h₁)
      ]
    where
      enabled :
          (b : Bool) (t : State W)
          → status_if client region b t ≡ (done st, s')
          → st ≡ codes "enabled"
      enabled true t e = ground arith
      enabled false t e = absurd (ground arith)

  pub params-done :
      (server : Server) (req : CreateVolumeRequest) (p : VolumeParams) (s s' : State W)
      → prepare_volume_params client server req s ≡ (done p, s')
      → (size : ℤ) × (get_request_capacity_size req.capacity_range ≡ ok size)
        × (p ≡ params_of server req size)
  unfolding prepare_volume_params
  params-done server req p s s' h = sized (get_request_capacity_size req.capacity_range) refl
    where
      region : Text
      region = required_region server req.accessibility_requirements

      encrypted :
          (size : ℤ) (r : Outcome Text × State W)
          → get_request_capacity_size req.capacity_range ≡ ok size
          → encryption_status_for client req region s ≡ r
          → (size : ℤ) × (get_request_capacity_size req.capacity_range ≡ ok size)
            × (p ≡ params_of server req size)
      encrypted size (done st, s₁) hs he =
          (size, hs, ground (arith, encryption-done req region st s s₁ he))
      encrypted size (failed x, s₁) hs he = absurd (ground arith)
      encrypted size (panicked, s₁) hs he = absurd (ground arith)

      sized :
          (r : Result ℤ)
          → get_request_capacity_size req.capacity_range ≡ r
          → (size : ℤ) × (get_request_capacity_size req.capacity_range ≡ ok size)
            × (p ≡ params_of server req size)
      sized (ok size) hs = encrypted size (encryption_status_for client req region s) hs refl
      sized (err x) hs = absurd (ground arith)

  pub no_source-done :
      (server : Server) (t : Option TopologyRequirement) (k : Option LinodeVolumeKey)
      (s s' : State W)
      → get_content_source_volume client server none t s ≡ (done k, s')
      → (k ≡ none) × (s ≡ s')
  unfolding get_content_source_volume
  no_source-done server t k s s' h = (ground arith, ap (λ r. r.1) h)

  same_region-ok : (r want : Text) → same_region r want ≡ ok tt → r ≡ want
  unfolding same_region
  same_region-ok r want h = ground (arith, text_eq_iff r want)

  pub source-done :
      (server : Server) (source : ContentSource) (t : Option TopologyRequirement)
      (k : Option LinodeVolumeKey) (s s' : State W)
      → get_content_source_volume client server (some source) t s ≡ (done k, s')
      → (key : LinodeVolumeKey) × (src : Volume) × (source_key source ≡ ok key)
        × (k ≡ some key)
        × (client.get_volume key.volume_id s.world ≡ (ok (some src), s'.world))
        × (src.region ≡ required_region server t)
  unfolding get_content_source_volume non_nil
  source-done server source t k s s' h = keyed (source_key source) refl
    where
      Goal : Type 0
      Goal =
          (key : LinodeVolumeKey) × (src : Volume) × (source_key source ≡ ok key)
          × (k ≡ some key)
          × (client.get_volume key.volume_id s.world ≡ (ok (some src), s'.world))
          × (src.region ≡ required_region server t)

      near :
          (key : LinodeVolumeKey) (src : Volume) (w : W) (r : Result (Unit {0}))
          → source_key source ≡ ok key
          → client.get_volume key.volume_id s.world ≡ (ok (some src), w)
          → same_region src.region (required_region server t) ≡ r
          → Goal
      near key src w (ok tt) hk hg hr =
          (key, src, hk, ground arith, ground arith, same_region-ok _ _ hr)
      near key src w (err x) hk hg hr = absurd (ground arith)

      got :
          (key : LinodeVolumeKey) (r : Result (Option Volume) × W)
          → source_key source ≡ ok key
          → client.get_volume key.volume_id s.world ≡ r
          → Goal
      got key (ok (some src), w) hk hg = near key src w (same_region src.region _) hk hg refl
      got key (ok none, w) hk hg = absurd (ground arith)
      got key (err x, w) hk hg = absurd (ground arith)

      keyed : (r : Result LinodeVolumeKey) → source_key source ≡ r → Goal
      keyed (ok key) hk = got key (client.get_volume key.volume_id s.world) hk refl
      keyed (err x) hk = absurd (ground arith)
