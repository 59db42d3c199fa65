-- ===== src/Controller/Create/Metrics.antt =====
-- `CreateVolume` records one sample.
use linode_blockstorage_csi.Common.{
  ℤ, ◌==ℤ◌, Text, Dict, get, text_eq, Option, none, some, Bool-cases, Bool, true, false, List, [],
  ◌∷◌, inl, inr,
}
use linode_blockstorage_csi.Effect.{create_volume_op}
use linode_blockstorage_csi.Effect.Samples.{IsQuiet, RecordsOne, quiet_rules, sample_rules}
use linode_blockstorage_csi.Volumes.{LinodeVolumeKey}
use linode_blockstorage_csi.Api.{LinodeClient, Volume, WaitReply}
use linode_blockstorage_csi.Csi.{CreateVolumeRequest, ContentSource, TopologyRequirement}
use linode_blockstorage_csi.Luks.{true_text}
use linode_blockstorage_csi.Controller.{Server, volume_encryption}
use linode_blockstorage_csi.Controller.Create.{
  is_encryption_supported, status_if, encryption_status_for, prepare_volume_params,
  get_content_source_volume, use_existing, attempt_create_linode_volume, check_size, waited,
  create_and_wait_for_volume, create_volume,
}

module _ {W : Type 0} (client : LinodeClient W) where
  is_encryption_supported-IsQuiet : (r : Text) → IsQuiet (is_encryption_supported client r)
  unfolding is_encryption_supported
  is_encryption_supported-IsQuiet r = search quiet_rules

  status_if-IsQuiet : (r : Text) (b : Bool) → IsQuiet (status_if client r b)
  unfolding status_if
  status_if-IsQuiet r true = search quiet_rules
  status_if-IsQuiet r false = search quiet_rules

  encryption_status_for-IsQuiet :
      (req : CreateVolumeRequest) (r : Text) → IsQuiet (encryption_status_for client req r)
  unfolding encryption_status_for
  encryption_status_for-IsQuiet req r =
      elim (Bool-cases (text_eq (get volume_encryption req.parameters) true_text)) [
        | inl h ↦ rw h (search (quiet_rules, is_encryption_supported-IsQuiet, status_if-IsQuiet))
        | inr h ↦ rw h (search quiet_rules)
      ]

  prepare_volume_params-IsQuiet :
      (server : Server) (req : CreateVolumeRequest)
      → IsQuiet (prepare_volume_params client server req)
  unfolding prepare_volume_params
  prepare_volume_params-IsQuiet server req = search (quiet_rules, encryption_status_for-IsQuiet)

  get_content_source_volume-IsQuiet :
      (server : Server) (c : Option ContentSource) (t : Option TopologyRequirement)
      → IsQuiet (get_content_source_volume client server c t)
  unfolding get_content_source_volume
  get_content_source_volume-IsQuiet server none t = search quiet_rules
  get_content_source_volume-IsQuiet server (some c) t = search quiet_rules depth 9

  use_existing-IsQuiet :
      (l t e : Text) (g : ℤ) (k : Option LinodeVolumeKey) (r : Text) (vs : List Volume)
      → IsQuiet (use_existing client l t e g k r vs)
  unfolding use_existing
  use_existing-IsQuiet l t e g none r [] = search quiet_rules
  use_existing-IsQuiet l t e g (some k) r [] = search quiet_rules
  use_existing-IsQuiet l t e g none r (v ∷ []) = search quiet_rules
  use_existing-IsQuiet l t e g (some k) r (v ∷ []) = search quiet_rules
  use_existing-IsQuiet l t e g none r (v ∷ u ∷ vs) = search quiet_rules
  use_existing-IsQuiet l t e g (some k) r (v ∷ u ∷ vs) = search quiet_rules

  attempt_create_linode_volume-IsQuiet :
      (l t e : Text) (g : ℤ) (k : Option LinodeVolumeKey) (r : Text)
      → IsQuiet (attempt_create_linode_volume client l t e g k r)
  unfolding attempt_create_linode_volume
  attempt_create_linode_volume-IsQuiet l t e g k r = search (quiet_rules, use_existing-IsQuiet)

  check_size-IsQuiet :
      (v : Volume) (g : ℤ) (k : Option LinodeVolumeKey) → IsQuiet (check_size client v g k)
  unfolding check_size
  check_size-IsQuiet v g (some k) = search quiet_rules
  check_size-IsQuiet v g none = elim (Bool-cases (v.size ==ℤ g)) [
    | inl h ↦ rw h (search quiet_rules)
    | inr h ↦ rw h (search quiet_rules)
  ]

  waited-IsQuiet : (r : WaitReply) → IsQuiet (waited client r)
  unfolding waited
  waited-IsQuiet (v, none) = search quiet_rules
  waited-IsQuiet (v, some e) = search quiet_rules

  create_and_wait_for_volume-IsQuiet :
      (n : Text) (p : Dict) (e : Text) (g : ℤ) (k : Option LinodeVolumeKey) (r : Text)
      → IsQuiet (create_and_wait_for_volume client n p e g k r)
  unfolding create_and_wait_for_volume
  create_and_wait_for_volume-IsQuiet n p e g k r =
      search (quiet_rules, attempt_create_linode_volume-IsQuiet, check_size-IsQuiet, waited-IsQuiet)
        depth 9

  -- Unless it panics, `CreateVolume` records one sample, for its own operation, as
  -- completed or as failed.
  pub create_volume-RecordsOne :
      (server : Server) (req : CreateVolumeRequest)
      → RecordsOne create_volume_op (create_volume client server req)
  unfolding create_volume
  create_volume-RecordsOne server req =
      search
        (
          sample_rules, prepare_volume_params-IsQuiet, get_content_source_volume-IsQuiet,
          create_and_wait_for_volume-IsQuiet,
        )
        depth 12
