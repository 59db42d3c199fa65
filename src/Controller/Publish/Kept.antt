-- ===== src/Controller/Publish/Kept.antt =====
-- The steps of `ControllerPublishVolume` that change no volume.
use linode_blockstorage_csi.Common.{
  ℤ, ◌==ℤ◌, Text, Option, none, some, Bool-cases, Bool, true, false, ◌≡◌, refl, inl, inr,
  if◌then◌else◌,
}
use linode_blockstorage_csi.Effect.{Result, ok, err, pure}
use linode_blockstorage_csi.Effect.Kept.{IsKept, kept_rules, pure-IsKept, fail-IsKept}
use linode_blockstorage_csi.Api.{LinodeClient, Volume, Instance}
use linode_blockstorage_csi.Api.Frame.{ApiFrame}
use linode_blockstorage_csi.Csi.{PublishRequest}
use linode_blockstorage_csi.Controller.Publish.{
  validate_controller_publish_volume_request, got_instance, get_instance, path_if_attached,
  validate_found, get_and_validate_volume, max_allowed_volume_attachments, can_attach, full,
  check_attachment_capacity, already_attached,
}

module _ {W : Type 0} {client : LinodeClient W} (frame : ApiFrame client) where
  pub validate-IsKept :
      (req : PublishRequest)
      → IsKept frame.view (validate_controller_publish_volume_request client req)
  unfolding validate_controller_publish_volume_request
  validate-IsKept req = search kept_rules depth 9

  got_instance-IsKept :
      (id : ℤ) (r : Result (Option Instance)) → IsKept frame.view (got_instance client id r)
  unfolding got_instance
  got_instance-IsKept id (ok i) = pure-IsKept i
  got_instance-IsKept id (err e) = elim (Bool-cases (client.is_not_found e)) [
    | inl h ↦ rw h (fail-IsKept _)
    | inr h ↦ rw h (fail-IsKept _)
  ]

  pub get_instance-IsKept : (id : ℤ) → IsKept frame.view (get_instance client id)
  unfolding get_instance
  get_instance-IsKept id = search (kept_rules, got_instance-IsKept, frame.get_instance_keeps)

  path_if_attached-IsKept :
      (id : ℤ) (v : Volume) (i : Instance) → IsKept frame.view (path_if_attached client id v i)
  unfolding path_if_attached
  path_if_attached-IsKept id v i = at v.linode_id refl
    where
      at : (n : Option ℤ) → v.linode_id ≡ n → IsKept frame.view (path_if_attached client id v i)
      at none h = rw h (pure-IsKept _)
      at (some n) h = elim (Bool-cases (n ==ℤ i.id)) [
        | inl h' ↦ rw (h, h') (pure-IsKept _)
        | inr h' ↦ rw (h, h') (fail-IsKept _)
      ]

  validate_found-IsKept :
      (id : ℤ) (i : Instance) (r : Result (Option Volume))
      → IsKept frame.view (validate_found client id i r)
  unfolding validate_found
  validate_found-IsKept id i (ok o) = search (kept_rules, path_if_attached-IsKept)
  validate_found-IsKept id i (err e) = elim (Bool-cases (client.is_not_found e)) [
    | inl h ↦ rw h (fail-IsKept _)
    | inr h ↦ rw h (fail-IsKept _)
  ]

  pub get_and_validate_volume-IsKept :
      (id : ℤ) (i : Instance) → IsKept frame.view (get_and_validate_volume client id i)
  unfolding get_and_validate_volume
  get_and_validate_volume-IsKept id i =
      search (kept_rules, validate_found-IsKept, frame.get_volume_keeps)

  max_allowed-IsKept : (i : Instance) → IsKept frame.view (max_allowed_volume_attachments client i)
  unfolding max_allowed_volume_attachments
  max_allowed-IsKept i = at i.memory refl
    where
      at :
          (m : Option ℤ)
          → i.memory ≡ m
          → IsKept frame.view (max_allowed_volume_attachments client i)
      at none h = rw h (fail-IsKept _)
      at (some mb) h = rw h (search (kept_rules, frame.list_instance_disks_keeps))

  can_attach-IsKept : (i : Instance) → IsKept frame.view (can_attach client i)
  unfolding can_attach
  can_attach-IsKept i =
      search (kept_rules, max_allowed-IsKept, frame.list_instance_volumes_keeps) depth 9

  full-IsKept : (i : Instance) → IsKept frame.view (full client i)
  unfolding full
  full-IsKept i = at i.memory refl
    where
      at : (m : Option ℤ) → i.memory ≡ m → IsKept frame.view (full client i)
      at none h = rw h (fail-IsKept _)
      at (some mb) h = rw h (search (kept_rules, frame.list_instance_disks_keeps))

  room_or_full-IsKept :
      (i : Instance) (b : Bool) → IsKept frame.view (if b then pure tt else full client i)
  room_or_full-IsKept i true = pure-IsKept tt
  room_or_full-IsKept i false = full-IsKept i

  pub check_attachment_capacity-IsKept :
      (i : Instance) → IsKept frame.view (check_attachment_capacity client i)
  unfolding check_attachment_capacity
  check_attachment_capacity-IsKept i = search (kept_rules, can_attach-IsKept, room_or_full-IsKept)

  pub already_attached-IsKept : (path : Text) → IsKept frame.view (already_attached client path)
  unfolding already_attached
  already_attached-IsKept path = search kept_rules
