-- ===== src/Controller/Provision.antt =====
-- The parts of `CreateVolume` that call nothing: the checks of the request and of the volume source,
-- the tags, the volume context and the response.
use linode_blockstorage_csi.Common.{
  ℤ, Text, codes, Dict, get, insert, split, text_eq, is_empty, Option, none, some, List, [], ◌∷◌,
  Bool, true, false, if◌then◌else◌,
}
use linode_blockstorage_csi.Errors.{
  err_internal, err_no_volume_name, err_no_volume_capabilities, err_invalid_volume_capability,
  err_unsupported_volume_content_source, err_no_source_volume, err_region_mismatch, end, cause,
}
use linode_blockstorage_csi.Effect.{Result, ok, err}
use linode_blockstorage_csi.Volumes.{
  LinodeVolumeKey, create_linode_volume_key, parse_linode_volume_key, get_volume_key,
}
use linode_blockstorage_csi.Api.{Volume}
use linode_blockstorage_csi.Csi.{
  CreateVolumeRequest, CsiVolume, ContentSource, volume_source, other_source,
}
use linode_blockstorage_csi.Luks.{
  true_text, publish_info_volume_name, luks_encrypted_attribute, luks_cipher_attribute,
  luks_key_size_attribute,
}
use linode_blockstorage_csi.Controller.{volume_topology_region, valid_volume_capabilities}

-- VolumeParams
pub record VolumeParams : Type 0 where
  pub volume_name : Text
  pub target_size_gb : ℤ
  pub size : ℤ
  pub encryption_status : Text
  pub region : Text

is_nil : {A : Type 0} → List A → Bool
is_nil [] = true
is_nil (x ∷ xs) = false

unfoldable pub validate_create_volume_request : CreateVolumeRequest → Result (Unit {0})
unfolding is_nil
validate_create_volume_request req =
    if is_empty req.name
    then err err_no_volume_name
    else if is_nil req.volume_capabilities
    then err err_no_volume_capabilities
    else if valid_volume_capabilities req.volume_capabilities
    then ok tt
    else err err_invalid_volume_capability

unfoldable pub has_encryption : List Text → Bool
has_encryption [] = false
has_encryption (c ∷ cs) =
    if text_eq c (codes "Block Storage Encryption") then true else has_encryption cs

-- The key that a volume source names; `none` is no source.
unfoldable pub source_key : ContentSource → Result LinodeVolumeKey
source_key other_source = err err_unsupported_volume_content_source
source_key (volume_source none) = err err_no_source_volume
source_key (volume_source (some id)) = elim (parse_linode_volume_key id) [
  | ok key ↦ ok key
  | err e ↦ err (err_internal "parse volume info from content source: %v" (cause e end))
]

-- `volumeData == nil`
unfoldable pub non_nil : Option Volume → Result Volume
non_nil none = err (err_internal "source volume *linodego.Volume is nil" end)
non_nil (some v) = ok v

unfoldable pub same_region : Text → Text → Result (Unit {0})
same_region got want = if text_eq got want then ok tt else err (err_region_mismatch got want)

abbrev pub split_tags : Text → List Text
split_tags tags = if is_empty tags then [] else split b',' tags

unfoldable pub create_volume_context : CreateVolumeRequest → Volume → Dict
create_volume_context req vol = insert volume_topology_region vol.region (
    if text_eq (get luks_encrypted_attribute req.parameters) true_text
    then insert luks_key_size_attribute (get luks_key_size_attribute req.parameters) (
        insert luks_cipher_attribute (get luks_cipher_attribute req.parameters)
          (insert publish_info_volume_name req.name (insert luks_encrypted_attribute true_text [])))
    else [])

-- `contentSource.GetVolume().GetVolumeId()`, which reads through nil pointers.
source_volume_id : Option ContentSource → Text
source_volume_id (some (volume_source (some id))) = id
source_volume_id _ = []

unfoldable pub prepare_create_volume_response :
    Volume → ℤ → Dict → Option LinodeVolumeKey → Option ContentSource → CsiVolume
unfolding source_volume_id
prepare_create_volume_response vol size context source content = record {
  volume_id = get_volume_key (create_linode_volume_key vol.id vol.label);
  capacity_bytes = size;
  accessible_topology = insert volume_topology_region vol.region [] ∷ [];
  volume_context = context;
  content_source = elim source [ none ↦ none | some key ↦ some (source_volume_id content) ];
}
