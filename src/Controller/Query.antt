-- ===== src/Controller/Query.antt =====
-- `ListVolumes` and `ValidateVolumeCapabilities`, which change nothing.
pub mod Calm
pub mod Laws
pub mod Effects
use linode_blockstorage_csi.Common.{
  ℤ, pos, ◌+ℤ◌, ltb_ℤ, wrap, itoa, atoi, Text, codes, insert, is_empty, Option, none, some, List,
  [], ◌∷◌, map, Bool, true, false, if◌then◌else◌,
}
use linode_blockstorage_csi.Errors.{
  GoError, status, aborted, err_internal, err_no_volume_capabilities, err_volume_not_found, end,
  text, number, cause,
}
use linode_blockstorage_csi.Effect.{Result, ok, err, M, pure, fail, lift, call, tell, ◌>>=◌, ◌>>◌}
use linode_blockstorage_csi.Volumes.{volume_id_as_int, create_linode_volume_key, get_volume_key}
use linode_blockstorage_csi.Capacity.{gb_to_bytes}
use linode_blockstorage_csi.Api.{LinodeClient, Volume, ListOptions}
use linode_blockstorage_csi.Csi.{
  VolumeCapability, ListVolumesRequest, ListVolumesResponse, ListEntry, CsiVolume,
}
use linode_blockstorage_csi.Controller.{valid_volume_capabilities, volume_topology_region}

-- The page that a starting token names, and the token after it. A token is the decimal of an int64,
-- so the test that it is in the range of `int` always passes.
unfoldable pub page_of_token : Text → Result (ℤ × Text)
page_of_token token = if is_empty token then ok (pos 0, []) else (elim (atoi token) [
  | none ↦ err (status aborted "invalid starting token: %q" (text token end))
  | some page ↦ ok (page, itoa (wrap (page +ℤ pos 1)))
])

published_node_ids_of : Option ℤ → List Text
published_node_ids_of none = []
published_node_ids_of (some id) = itoa id ∷ []

unfoldable pub entry_of : Volume → ListEntry
unfolding published_node_ids_of
entry_of v = record {
  volume = record {
    volume_id = get_volume_key (create_linode_volume_key v.id v.label);
    capacity_bytes = gb_to_bytes v.size;
    accessible_topology = insert volume_topology_region v.region [] ∷ [];
    volume_context = [];
    content_source = none;
  };
  published_node_ids = published_node_ids_of v.linode_id;
  abnormal = false;
}

page_size_of : ℤ → ℤ
page_size_of max_entries = if ltb_ℤ (pos 0) max_entries then max_entries else pos 0

module _ {W : Type 0} (client : LinodeClient W) where
  unfoldable pub list_volumes : ListVolumesRequest → M W ListVolumesResponse
  unfolding page_size_of
  list_volumes req = do
    (page, next_token) ← lift (page_of_token req.starting_token)
    volumes ←
        call (λ e. err_internal "list volumes: %v" (cause e end))
          (client.list_volumes
            (record { page = page; page_size = page_size_of req.max_entries; label_filter = none }))
    pure (record { entries = map entry_of volumes; next_token = next_token })

  confirm : ℤ → List (Option VolumeCapability) → Result (Option Volume) → M W Bool
  confirm id caps (ok found) = pure (valid_volume_capabilities caps)
  confirm id caps (err e) =
      if client.is_not_found e
      then fail (err_volume_not_found id)
      else fail (err_internal "get volume: %v" (cause e end))

  -- Whether the capabilities are confirmed.
  unfoldable pub validate_volume_capabilities : Text → List (Option VolumeCapability) → M W Bool
  unfolding confirm
  validate_volume_capabilities volume_id [] = do
    lift (volume_id_as_int (codes "ControllerValidateVolumeCapabilities") volume_id)
    fail err_no_volume_capabilities
  validate_volume_capabilities volume_id (cap ∷ caps) = do
    id ← lift (volume_id_as_int (codes "ControllerValidateVolumeCapabilities") volume_id)
    r ← tell (client.get_volume id)
    confirm id (cap ∷ caps) r
