-- ===== src/Controller/Create/Kept.antt =====
-- The steps of `CreateVolume` that change no volume.
use linode_blockstorage_csi.Common.{
  ℤ, ◌==ℤ◌, Text, Option, none, some, Bool-cases, Bool, true, false, inl, inr,
}
use linode_blockstorage_csi.Effect.Kept.{IsKept, kept_rules}
use linode_blockstorage_csi.Api.{LinodeClient, Volume}
use linode_blockstorage_csi.Api.Frame.{ApiFrame}
use linode_blockstorage_csi.Common.{get, text_eq}
use linode_blockstorage_csi.Volumes.{LinodeVolumeKey}
use linode_blockstorage_csi.Luks.{true_text}
use linode_blockstorage_csi.Api.{WaitReply}
use linode_blockstorage_csi.Csi.{CreateVolumeRequest, ContentSource, TopologyRequirement}
use linode_blockstorage_csi.Controller.{Server, volume_encryption}
use linode_blockstorage_csi.Controller.Create.{
  is_encryption_supported, status_if, encryption_status_for, prepare_volume_params,
  get_content_source_volume, check_size, waited,
}

module _ {W : Type 0} {client : LinodeClient W} (frame : ApiFrame client) where
  is_encryption_supported-IsKept : (r : Text) → IsKept frame.view (is_encryption_supported client r)
  unfolding is_encryption_supported
  is_encryption_supported-IsKept r =
      search (kept_rules, frame.get_region_capabilities_keeps) depth 9

  status_if-IsKept : (r : Text) (b : Bool) → IsKept frame.view (status_if client r b)
  unfolding status_if
  status_if-IsKept r true = search kept_rules
  status_if-IsKept r false = search kept_rules

  encryption_status_for-IsKept :
      (req : CreateVolumeRequest) (r : Text)
      → IsKept frame.view (encryption_status_for client req r)
  unfolding encryption_status_for
  encryption_status_for-IsKept req r =
      elim (Bool-cases (text_eq (get volume_encryption req.parameters) true_text)) [
        | inl h ↦ rw h (search (kept_rules, is_encryption_supported-IsKept, status_if-IsKept))
        | inr h ↦ rw h (search kept_rules)
      ]

  pub prepare_volume_params-IsKept :
      (server : Server) (req : CreateVolumeRequest)
      → IsKept frame.view (prepare_volume_params client server req)
  unfolding prepare_volume_params
  prepare_volume_params-IsKept server req =
      search (kept_rules, encryption_status_for-IsKept) depth 9

  pub get_content_source_volume-IsKept :
      (server : Server) (c : Option ContentSource) (t : Option TopologyRequirement)
      → IsKept frame.view (get_content_source_volume client server c t)
  unfolding get_content_source_volume
  get_content_source_volume-IsKept server none t = search kept_rules
  get_content_source_volume-IsKept server (some c) t =
      search (kept_rules, frame.get_volume_keeps) depth 12

  pub check_size-IsKept :
      (v : Volume) (g : ℤ) (k : Option LinodeVolumeKey)
      → IsKept frame.view (check_size client v g k)
  unfolding check_size
  check_size-IsKept v g (some k) = search kept_rules
  check_size-IsKept v g none = elim (Bool-cases (v.size ==ℤ g)) [
    | inl h ↦ rw h (search kept_rules)
    | inr h ↦ rw h (search kept_rules)
  ]

  pub waited-IsKept : (r : WaitReply) → IsKept frame.view (waited client r)
  unfolding waited
  waited-IsKept (v, none) = search kept_rules
  waited-IsKept (v, some e) = search kept_rules
