-- ===== src/Controller/Create.antt =====
-- `CreateVolume`: the request is checked, the parameters are prepared, and the volume is found,
-- cloned or created, and waited for.
pub mod Requests
pub mod Metrics
pub mod Outcomes
pub mod Kept
pub mod Calm
pub mod Steps
pub mod Sources
pub mod Done
pub mod NilWait
pub mod Effects
use Prim.Native.String.{String}
use linode_blockstorage_csi.Common.{
  ℕ, ℤ, pos, Text, codes, Dict, get, insert, split, text_eq, is_empty, ◌==ℤ◌, Option, none, some,
  List, [], ◌∷◌, Bool, true, false, not, ◌&&◌, if◌then◌else◌,
}
use linode_blockstorage_csi.Errors.{
  GoError, err_internal, err_already_exists, err_no_volume_name, err_no_volume_capabilities,
  err_invalid_volume_capability, err_unsupported_volume_content_source, err_no_source_volume,
  err_region_mismatch, end, text, number, cause,
}
use linode_blockstorage_csi.Effect.{
  Result, ok, err, M, pure, fail, lift, deref, call, tell, ◌>>=◌, ◌>>◌, or_record, record_metrics,
  create_volume_op, completed_status,
}
use linode_blockstorage_csi.Volumes.{
  LinodeVolumeKey, create_linode_volume_key, parse_linode_volume_key, get_volume_key,
  get_normalized_label_with_prefix,
}
use linode_blockstorage_csi.Capacity.{get_request_capacity_size, bytes_to_gb}
use linode_blockstorage_csi.Api.{LinodeClient, Volume, WaitReply, volume_active}
use linode_blockstorage_csi.Csi.{
  CreateVolumeRequest, CsiVolume, ContentSource, volume_source, other_source, TopologyRequirement,
}
use linode_blockstorage_csi.Luks.{
  true_text, publish_info_volume_name, luks_encrypted_attribute, luks_cipher_attribute,
  luks_key_size_attribute,
}
use linode_blockstorage_csi.Controller.{
  Server, volume_tags, volume_topology_region, volume_encryption, wait_timeout, clone_timeout,
  valid_volume_capabilities, required_region,
}
use linode_blockstorage_csi.Controller.Provision.{
  VolumeParams, validate_create_volume_request, has_encryption, source_key, non_nil, same_region,
  split_tags, create_volume_context, prepare_create_volume_response,
}

module _ {W : Type 0} (client : LinodeClient W) where
  unfoldable pub is_encryption_supported : Text → M W Bool
  unfolding has_encryption
  is_encryption_supported region = do
    details ←
        call (λ e. err_internal "failed to fetch region %s: %v" (text region (cause e end)))
          (client.get_region_capabilities region)
    capabilities ← deref details
    pure (has_encryption capabilities)

  status_if : Text → Bool → M W Text
  status_if region true = pure (codes "enabled")
  status_if region false =
      fail (err_internal "Volume encryption is not supported in the %s region" (text region end))

  -- The encryption status of a new volume.
  unfoldable pub encryption_status_for : CreateVolumeRequest → Text → M W Text
  unfolding is_encryption_supported status_if
  encryption_status_for req region =
      if text_eq (get volume_encryption req.parameters) true_text
      then (do supported ← is_encryption_supported region; status_if region supported)
      else pure (codes "disabled")

  unfoldable pub prepare_volume_params : Server → CreateVolumeRequest → M W VolumeParams
  unfolding encryption_status_for
  prepare_volume_params server req = do
    size ← lift (get_request_capacity_size req.capacity_range)
    let region = required_region server req.accessibility_requirements
    let name =
        get_normalized_label_with_prefix server.volume_label_prefix
          (create_linode_volume_key (pos 0) req.name)
    status ← encryption_status_for req region
    pure (record {
      volume_name = name;
      target_size_gb = bytes_to_gb size;
      size = size;
      encryption_status = status;
      region = region;
    })

  unfoldable pub get_content_source_volume :
      Server → Option ContentSource → Option TopologyRequirement → M W (Option LinodeVolumeKey)
  unfolding non_nil same_region
  get_content_source_volume server none topology = pure none
  get_content_source_volume server (some source) topology = do
    key ← lift (source_key source)
    found ←
        call (λ e. err_internal "get volume %d: %v" (number key.volume_id (cause e end)))
          (client.get_volume key.volume_id)
    vol ← lift (non_nil found)
    lift (same_region vol.region (required_region server topology))
    pure (some key)

  unfoldable pub clone_linode_volume : Text → ℤ → M W (Option Volume)
  clone_linode_volume label source_id =
      call (λ e. err_internal "clone volume %d: %v" (number source_id (cause e end)))
        (client.clone_volume source_id label)

  unfoldable pub create_linode_volume : Text → Text → Text → ℤ → Text → M W (Option Volume)
  create_linode_volume label tags encryption size_gb region =
      call (λ e. err_internal "create volume: %v" (cause e end))
        (client.create_volume (record {
          region = region;
          label = label;
          size = size_gb;
          encryption = encryption;
          tags = split_tags tags;
        }))

  -- One volume with the label is returned as it is, two are an error, and with none a volume is
  -- cloned or created.
  use_existing :
      Text → Text → Text → ℤ → Option LinodeVolumeKey → Text → List Volume → M W (Option Volume)
  unfolding clone_linode_volume create_linode_volume
  use_existing label tags encryption size_gb (some key) region [] =
      clone_linode_volume label key.volume_id
  use_existing label tags encryption size_gb none region [] =
      create_linode_volume label tags encryption size_gb region
  use_existing label tags encryption size_gb source region (v ∷ []) = pure (some v)
  use_existing label tags encryption size_gb source region (v ∷ w ∷ vs) =
      fail (err_already_exists "more than one volume with the label %q exists" (text label end))

  unfoldable pub attempt_create_linode_volume :
      Text → Text → Text → ℤ → Option LinodeVolumeKey → Text → M W (Option Volume)
  unfolding use_existing
  attempt_create_linode_volume label tags encryption size_gb source region = do
    volumes ←
        call (λ e. err_internal "list volumes: %v" (cause e end))
          (client.list_volumes
            (record { page = pos 0; page_size = pos 0; label_filter = some label }))
    use_existing label tags encryption size_gb source region volumes

  -- An existing volume of another size is refused, but not for a clone.
  pub check_size : Volume → ℤ → Option LinodeVolumeKey → M W (Unit {0})
  check_size vol size_gb (some key) = pure tt
  check_size vol size_gb none =
      if vol.size ==ℤ size_gb
      then pure tt
      else fail (
          err_already_exists "volume %d already exists with size %d"
            (number vol.id (number vol.size end)))

  abbrev poll_timeout : Option LinodeVolumeKey → ℤ
  poll_timeout none = wait_timeout
  poll_timeout (some key) = clone_timeout

  -- The error's text names `vol.ID` of the volume that the wait returned, which overwrote the first.
  pub waited : WaitReply → M W (Option Volume)
  waited (vol, none) = pure vol
  waited (vol, some e) = do
    v ← deref vol
    fail (
        err_internal "Timed out waiting for volume %d to be active: %v" (number v.id (cause e end)))

  unfoldable pub create_and_wait_for_volume :
      Text → Dict → Text → ℤ → Option LinodeVolumeKey → Text → M W (Option Volume)
  unfolding attempt_create_linode_volume check_size waited
  create_and_wait_for_volume name parameters encryption size_gb source region = do
    made ←
        attempt_create_linode_volume name (get volume_tags parameters) encryption size_gb source
          region
    vol ← deref made
    check_size vol size_gb source
    reply ← tell (client.wait_for_volume_status vol.id volume_active (poll_timeout source))
    waited reply

  unfoldable pub create_volume : Server → CreateVolumeRequest → M W CsiVolume
  unfolding validate_create_volume_request prepare_volume_params get_content_source_volume
      create_and_wait_for_volume create_volume_context prepare_create_volume_response
  create_volume server req = do
    or_record create_volume_op (lift (validate_create_volume_request req))
    params ← or_record create_volume_op (prepare_volume_params server req)
    source ←
        or_record create_volume_op
          (get_content_source_volume server req.content_source req.accessibility_requirements)
    made ← or_record create_volume_op (
        create_and_wait_for_volume params.volume_name req.parameters params.encryption_status
          params.target_size_gb source params.region)
    vol ← deref made
    record_metrics create_volume_op completed_status
    pure (
        prepare_create_volume_response vol params.size (create_volume_context req vol) source
          req.content_source)
