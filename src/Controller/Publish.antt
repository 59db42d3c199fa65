-- ===== src/Controller/Publish.antt =====
-- `ControllerPublishVolume`: a volume is attached to an instance.
pub mod Attachments
pub mod Metrics
pub mod Calm
pub mod Laws
pub mod Kept
pub mod Returns
pub mod Effects
use Prim.Native.String.{String}
use linode_blockstorage_csi.Common.{
  ℕ, ◌*◌, ◌%◌, ◌^◌, ℤ, pos, ◌-ℤ◌, ltb_ℤ, ◌==ℤ◌, wrap, to_word, Text, codes, contains, is_empty,
  Dict, insert, length, Option, none, some, List, [], ◌∷◌, Bool, true, false, if◌then◌else◌,
}
use linode_blockstorage_csi.Errors.{
  GoError, status, internal, unavailable, err_internal, err_no_volume_capability,
  err_invalid_volume_capability, err_nil_instance, err_max_attachments, err_max_volume_attachments,
  err_instance_not_found, err_volume_attached, err_volume_not_found, end, number, cause,
}
use linode_blockstorage_csi.Effect.{
  Result, ok, err, M, pure, fail, lift, deref, call, tell, ◌>>=◌, ◌>>◌, or_record, record_metrics,
  publish_volume_op, completed_status, failed_status,
}
use linode_blockstorage_csi.Volumes.{volume_id_as_int, node_id_as_int}
use linode_blockstorage_csi.Limits.{max_volume_attachments}
use linode_blockstorage_csi.Api.{LinodeClient, Volume, Instance}
use linode_blockstorage_csi.Csi.{VolumeCapability, PublishRequest}
use linode_blockstorage_csi.Controller.{valid_volume_capabilities, device_path_key, wait_timeout}

check_capability : Option VolumeCapability → Result (Unit {0})
check_capability none = err err_no_volume_capability
check_capability (some cap) =
    if valid_volume_capabilities (some cap ∷ []) then ok tt else err err_invalid_volume_capability

module _ {W : Type 0} (client : LinodeClient W) where
  -- The linode id and the volume id of a request.
  unfoldable pub validate_controller_publish_volume_request : PublishRequest → M W (ℤ × ℤ)
  unfolding check_capability
  validate_controller_publish_volume_request req = do
    linode_id ← lift (node_id_as_int (codes "ControllerPublishVolume") req.node_id)
    volume_id ← lift (volume_id_as_int (codes "ControllerPublishVolume") req.volume_id)
    lift (check_capability req.volume_capability)
    pure (linode_id, volume_id)

  got_instance : ℤ → Result (Option Instance) → M W (Option Instance)
  got_instance id (ok i) = pure i
  got_instance id (err e) =
      if client.is_not_found e
      then fail (err_instance_not_found id)
      else fail (err_internal "get linode instance %d: %v" (number id (cause e end)))

  unfoldable pub get_instance : ℤ → M W (Option Instance)
  unfolding got_instance
  get_instance id = do r ← tell (client.get_instance id); got_instance id r

  -- The device path if the volume is attached to the instance, and an error if to another one.
  unfoldable pub path_if_attached : ℤ → Volume → Instance → M W Text
  path_if_attached volume_id vol instance' = elim vol.linode_id [
    | none ↦ pure []
    | some node ↦
        if node ==ℤ instance'.id
        then pure vol.filesystem_path
        else fail (err_volume_attached volume_id instance'.id)
  ]

  validate_found : ℤ → Instance → Result (Option Volume) → M W Text
  unfolding path_if_attached
  validate_found id instance' (err e) =
      if client.is_not_found e
      then fail (err_volume_not_found id)
      else fail (err_internal "get volume %d: %v" (number id (cause e end)))
  validate_found id instance' (ok found) = do vol ← deref found; path_if_attached id vol instance'

  unfoldable pub get_and_validate_volume : ℤ → Instance → M W Text
  unfolding validate_found
  get_and_validate_volume id instance' = do
    r ← tell (client.get_volume id)
    validate_found id instance' r

  -- `uint(Memory) << 20` drops the bits above the 64th.
  abbrev pub memory_bytes : ℤ → ℕ
  memory_bytes mb = (to_word mb * 2 ^ 20) % 2 ^ 64

  -- An instance with no specs has no limit: that is an error.
  unfoldable pub max_allowed_volume_attachments : Instance → M W ℤ
  max_allowed_volume_attachments instance' = elim instance'.memory [
    | none ↦ fail err_nil_instance
    | some mb ↦ do
      disks ←
          call (λ e. err_internal "list instance disks: %v" (cause e end))
            (client.list_instance_disks instance'.id)
      pure (pos (max_volume_attachments (memory_bytes mb)) -ℤ pos (length disks))
  ]

  unfoldable pub can_attach : Instance → M W Bool
  unfolding max_allowed_volume_attachments
  can_attach instance' = do
    limit ← max_allowed_volume_attachments instance'
    volumes ←
        call (λ e. err_internal "list instance volumes: %v" (cause e end))
          (client.list_instance_volumes instance'.id)
    pure (ltb_ℤ (pos (length volumes)) limit)

  -- The limit is asked for again to name it in the error. `errors.Is(err, errNilInstance)` is the
  -- case with no specs.
  full : Instance → M W (Unit {0})
  full instance' = elim instance'.memory [
    | none ↦ fail (err_internal "cannot calculate max volume attachments for a nil instance" end)
    | some mb ↦ do
      disks ← call (λ e. err_max_attachments) (client.list_instance_disks instance'.id)
      fail (
          err_max_volume_attachments
            (pos (max_volume_attachments (memory_bytes mb)) -ℤ pos (length disks)))
  ]

  unfoldable pub check_attachment_capacity : Instance → M W (Unit {0})
  unfolding can_attach full
  check_attachment_capacity instance' = do
    room ← can_attach instance'
    if room then pure tt else full instance'

  -- An API error that says "is already attached" may be retried.
  attach_error : GoError → GoError
  attach_error e = elim (client.api_message e) [
    | none ↦ status internal "attach volume: %v" (cause e end)
    | some message ↦
        if contains message (codes "is already attached")
        then status unavailable "attach volume: %v" (cause e end)
        else status internal "attach volume: %v" (cause e end)
  ]

  unfoldable pub attach_volume : ℤ → ℤ → M W (Unit {0})
  unfolding attach_error
  attach_volume volume_id linode_id = do
    call attach_error (client.attach_volume volume_id linode_id false)
    pure tt

  abbrev pub context_of : Text → Dict
  context_of path = insert device_path_key path []

  -- The attachment of a volume that is not attached. The log line reads `*volume.LinodeID`.
  attach_and_wait : ℤ → ℤ → Instance → M W Dict
  unfolding check_attachment_capacity attach_volume
  attach_and_wait linode_id volume_id instance' = do
    or_record publish_volume_op (check_attachment_capacity instance')
    or_record publish_volume_op (attach_volume volume_id linode_id)
    found ←
        or_record publish_volume_op
          (call (λ e. e) (client.wait_for_volume_linode_id volume_id (some linode_id) wait_timeout))
    record_metrics publish_volume_op completed_status
    vol ← deref found
    deref vol.linode_id
    pure (context_of vol.filesystem_path)

  pub already_attached : Text → M W Dict
  already_attached path = record_metrics publish_volume_op failed_status >> pure (context_of path)

  unfoldable pub controller_publish_volume : PublishRequest → M W Dict
  unfolding validate_controller_publish_volume_request get_instance get_and_validate_volume
      attach_and_wait already_attached
  controller_publish_volume req = do
    (linode_id, volume_id) ←
        or_record publish_volume_op (validate_controller_publish_volume_request req)
    found ← or_record publish_volume_op (get_instance linode_id)
    instance' ← deref found
    path ← or_record publish_volume_op (get_and_validate_volume volume_id instance')
    if is_empty path then attach_and_wait linode_id volume_id instance' else already_attached path
