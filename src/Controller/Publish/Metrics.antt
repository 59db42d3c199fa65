-- ===== src/Controller/Publish/Metrics.antt =====
-- `ControllerPublishVolume` records one sample.
use linode_blockstorage_csi.Common.{
  ℤ, ◌==ℤ◌, Text, is_empty, Option, none, some, Bool-cases, Bool, true, false, [], ◌∷◌, inl, inr,
  if◌then◌else◌,
}
use linode_blockstorage_csi.Effect.{Result, ok, err, pure, publish_volume_op}
use linode_blockstorage_csi.Effect.Samples.{IsQuiet, RecordsOne, quiet_rules, sample_rules}
use linode_blockstorage_csi.Api.{LinodeClient, Volume, Instance}
use linode_blockstorage_csi.Csi.{PublishRequest}
use linode_blockstorage_csi.Controller.Publish.{
  validate_controller_publish_volume_request, got_instance, get_instance, path_if_attached,
  validate_found, get_and_validate_volume, max_allowed_volume_attachments, can_attach, full,
  check_attachment_capacity, attach_volume, attach_and_wait, already_attached,
  controller_publish_volume,
}

module _ {W : Type 0} (client : LinodeClient W) where
  validate_request-IsQuiet :
      (req : PublishRequest) → IsQuiet (validate_controller_publish_volume_request client req)
  unfolding validate_controller_publish_volume_request
  validate_request-IsQuiet req = search quiet_rules

  get_instance-IsQuiet : (id : ℤ) → IsQuiet (get_instance client id)
  unfolding get_instance
  get_instance-IsQuiet id = search (quiet_rules, got)
    where
      got : (r : Result (Option Instance)) → IsQuiet (got_instance client id r)
      got (ok o) = search quiet_rules
      got (err e) = elim (Bool-cases (client.is_not_found e)) [
        | inl h ↦ rw h (search quiet_rules)
        | inr h ↦ rw h (search quiet_rules)
      ]

  path_if_attached-IsQuiet :
      (id : ℤ) (v : Volume) (i : Instance) → IsQuiet (path_if_attached client id v i)
  unfolding path_if_attached
  path_if_attached-IsQuiet id v i = at v.linode_id
    where
      at : (o : Option ℤ) → IsQuiet (path_if_attached client id (record v { linode_id = o }) i)
      at none = search quiet_rules
      at (some n) = elim (Bool-cases (n ==ℤ i.id)) [
        | inl h ↦ rw h (search quiet_rules)
        | inr h ↦ rw h (search quiet_rules)
      ]

  validate_found-IsQuiet :
      (id : ℤ) (i : Instance) (r : Result (Option Volume)) → IsQuiet (validate_found client id i r)
  unfolding validate_found
  validate_found-IsQuiet id i (ok o) = search (quiet_rules, path_if_attached-IsQuiet)
  validate_found-IsQuiet id i (err e) = elim (Bool-cases (client.is_not_found e)) [
    | inl h ↦ rw h (search quiet_rules)
    | inr h ↦ rw h (search quiet_rules)
  ]

  get_and_validate_volume-IsQuiet :
      (id : ℤ) (i : Instance) → IsQuiet (get_and_validate_volume client id i)
  unfolding get_and_validate_volume
  get_and_validate_volume-IsQuiet id i = search (quiet_rules, validate_found-IsQuiet)

  max_allowed_volume_attachments-IsQuiet :
      (i : Instance) → IsQuiet (max_allowed_volume_attachments client i)
  unfolding max_allowed_volume_attachments
  max_allowed_volume_attachments-IsQuiet i = at i.memory
    where
      at :
          (o : Option ℤ) → IsQuiet (max_allowed_volume_attachments client (record i { memory = o }))
      at none = search quiet_rules
      at (some n) = search quiet_rules

  can_attach-IsQuiet : (i : Instance) → IsQuiet (can_attach client i)
  unfolding can_attach
  can_attach-IsQuiet i = search (quiet_rules, max_allowed_volume_attachments-IsQuiet)

  full-IsQuiet : (i : Instance) → IsQuiet (full client i)
  unfolding full
  full-IsQuiet i = at i.memory
    where
      at : (o : Option ℤ) → IsQuiet (full client (record i { memory = o }))
      at none = search quiet_rules
      at (some n) = search quiet_rules

  check_attachment_capacity-IsQuiet : (i : Instance) → IsQuiet (check_attachment_capacity client i)
  unfolding check_attachment_capacity
  check_attachment_capacity-IsQuiet i = search (quiet_rules, can_attach-IsQuiet, rest)
    where
      rest : (b : Bool) → IsQuiet (if b then pure tt else full client i)
      rest true = search quiet_rules
      rest false = full-IsQuiet i

  attach_volume-IsQuiet : (v n : ℤ) → IsQuiet (attach_volume client v n)
  unfolding attach_volume
  attach_volume-IsQuiet v n = search quiet_rules

  attach_and_wait-RecordsOne :
      (n v : ℤ) (i : Instance) → RecordsOne publish_volume_op (attach_and_wait client n v i)
  unfolding attach_and_wait
  attach_and_wait-RecordsOne n v i =
      search (sample_rules, check_attachment_capacity-IsQuiet, attach_volume-IsQuiet) depth 9

  already_attached-RecordsOne :
      (path : Text) → RecordsOne publish_volume_op (already_attached client path)
  unfolding already_attached
  already_attached-RecordsOne path = search sample_rules

  by_path-RecordsOne :
      (n v : ℤ) (i : Instance) (path : Text)
      → RecordsOne publish_volume_op
          (if is_empty path then attach_and_wait client n v i else already_attached client path)
  by_path-RecordsOne n v i [] = attach_and_wait-RecordsOne n v i
  by_path-RecordsOne n v i (c ∷ path) = already_attached-RecordsOne (c ∷ path)

  -- Unless it panics, `ControllerPublishVolume` records one sample, for its own operation, as
  -- completed or as failed.
  pub controller_publish_volume-RecordsOne :
      (req : PublishRequest) → RecordsOne publish_volume_op (controller_publish_volume client req)
  unfolding controller_publish_volume
  controller_publish_volume-RecordsOne req =
      search
        (
          sample_rules, validate_request-IsQuiet, get_instance-IsQuiet,
          get_and_validate_volume-IsQuiet, by_path-RecordsOne,
        )
        depth 9
