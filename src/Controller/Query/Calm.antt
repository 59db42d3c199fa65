-- ===== src/Controller/Query/Calm.antt =====
-- `ListVolumes` and `ValidateVolumeCapabilities` do not panic.
use linode_blockstorage_csi.Common.{ℤ, Text, Option, List, [], ◌∷◌, Bool-cases, inl, inr}
use linode_blockstorage_csi.Effect.{Result, ok, err}
use linode_blockstorage_csi.Effect.Panics.{PanicsIf, calm_rules}
use linode_blockstorage_csi.Api.{LinodeClient, Volume}
use linode_blockstorage_csi.Csi.{VolumeCapability, ListVolumesRequest}
use linode_blockstorage_csi.Controller.Query.{confirm, list_volumes, validate_volume_capabilities}

module _ {W : Type 0} (client : LinodeClient W) (E : Type 0) where
  pub list_volumes-PanicsIf : (req : ListVolumesRequest) → PanicsIf E (list_volumes client req)
  unfolding list_volumes
  list_volumes-PanicsIf req = search calm_rules

  confirm-PanicsIf :
      (id : ℤ) (caps : List (Option VolumeCapability)) (r : Result (Option Volume))
      → PanicsIf E (confirm client id caps r)
  unfolding confirm
  confirm-PanicsIf id caps (ok found) = search calm_rules
  confirm-PanicsIf id caps (err e) = elim (Bool-cases (client.is_not_found e)) [
    | inl k ↦ rw k (search calm_rules)
    | inr k ↦ rw k (search calm_rules)
  ]

  pub validate_volume_capabilities-PanicsIf :
      (volume_id : Text) (caps : List (Option VolumeCapability))
      → PanicsIf E (validate_volume_capabilities client volume_id caps)
  unfolding validate_volume_capabilities
  validate_volume_capabilities-PanicsIf volume_id [] = search calm_rules
  validate_volume_capabilities-PanicsIf volume_id (cap ∷ caps) =
      search (calm_rules, confirm-PanicsIf)
