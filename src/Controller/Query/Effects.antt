-- ===== src/Controller/Query/Effects.antt =====
-- `ListVolumes` and `ValidateVolumeCapabilities` change no volume.
use linode_blockstorage_csi.Common.{ℤ, Text, Option, Bool-cases, List, [], ◌∷◌, inl, inr}
use linode_blockstorage_csi.Effect.{Result, ok, err}
use linode_blockstorage_csi.Effect.Kept.{IsKept, kept_rules, pure-IsKept, fail-IsKept}
use linode_blockstorage_csi.Api.{LinodeClient, Volume}
use linode_blockstorage_csi.Api.Frame.{ApiFrame}
use linode_blockstorage_csi.Csi.{ListVolumesRequest, VolumeCapability}
use linode_blockstorage_csi.Controller.Query.{list_volumes, confirm, validate_volume_capabilities}

module _ {W : Type 0} {client : LinodeClient W} (frame : ApiFrame client) where
  pub list_volumes-IsKept : (req : ListVolumesRequest) → IsKept frame.view (list_volumes client req)
  unfolding list_volumes
  list_volumes-IsKept req = search (kept_rules, frame.list_volumes_keeps) depth 9

  confirm-IsKept :
      (id : ℤ) (caps : List (Option VolumeCapability)) (r : Result (Option Volume))
      → IsKept frame.view (confirm client id caps r)
  unfolding confirm
  confirm-IsKept id caps (ok o) = pure-IsKept _
  confirm-IsKept id caps (err e) = elim (Bool-cases (client.is_not_found e)) [
    | inl h ↦ rw h (fail-IsKept _)
    | inr h ↦ rw h (fail-IsKept _)
  ]

  pub validate_volume_capabilities-IsKept :
      (volume_id : Text) (caps : List (Option VolumeCapability))
      → IsKept frame.view (validate_volume_capabilities client volume_id caps)
  unfolding validate_volume_capabilities
  validate_volume_capabilities-IsKept volume_id [] = search kept_rules
  validate_volume_capabilities-IsKept volume_id (c ∷ caps) =
      search (kept_rules, confirm-IsKept, frame.get_volume_keeps) depth 9
