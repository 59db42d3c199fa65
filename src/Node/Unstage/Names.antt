-- ===== src/Node/Unstage/Names.antt =====
-- The name under which a LUKS device is opened when a volume is staged, and the name under which it
-- is closed when the volume is unstaged.
use linode_blockstorage_csi.Common.{
  ℕ, ◌+◌, ◌≤◌, pos, Text, text_eq, Dict, get, lookup, insert, length, take, take_all, length-append,
  [], ◌∷◌, ◌++◌, ◌≡◌, ◌↔◌, refl, ap, ◌∙◌, sym, arith, itoa, itoa-Lacks, split_pair_complete,
}
use linode_blockstorage_csi.Effect.{ok}
use linode_blockstorage_csi.Volumes.{
  create_linode_volume_key, get_normalized_label, get_normalized_label_with_prefix, get_volume_key,
}
use linode_blockstorage_csi.Api.{Volume}
use linode_blockstorage_csi.Csi.{CreateVolumeRequest}
use linode_blockstorage_csi.Luks.{true_text, luks_encrypted_attribute, get_luks_context}
use linode_blockstorage_csi.Controller.Provision.{create_volume_context}
use linode_blockstorage_csi.Node.{get_mount_source}

-- The name to open: that of the request, which the volume context carries.
opened_name :
    (req : CreateVolumeRequest) (v : Volume) (secrets : Dict)
    → get luks_encrypted_attribute req.parameters ≡ true_text
    → (get_luks_context secrets (create_volume_context req v)).volume_name ≡ req.name
unfolding get_luks_context create_volume_context get insert lookup text_eq
opened_name req v secrets h = rw h refl

-- The name to close: the volume's label cut to 32 bytes, from the volume's id.
closed_name :
    (n : ℕ) (label : Text)
    → get_mount_source (get_volume_key (create_linode_volume_key (pos n) label))
      ≡ ok (take 32 label)
unfolding get_mount_source get_volume_key create_linode_volume_key get_normalized_label
closed_name n label =
    ground (arith, split_pair_complete b'-' (itoa (pos n)) (take 32 label) (itoa-Lacks n))

-- A label that fits with its prefix is the prefix and the name.
label_fits :
    (prefix name : Text)
    → length prefix + length name ≤ 32
    → get_normalized_label_with_prefix prefix (create_linode_volume_key (pos 0) name)
      ≡ prefix ++ name
unfolding get_normalized_label_with_prefix create_linode_volume_key
label_fits prefix name h =
    rw (take_all 32 name (omega arith))
      (take_all 32 (prefix ++ name) (omega (arith, length-append prefix name)))

nil_of_append : (prefix name : Text) → prefix ++ name ≡ name → prefix ≡ []
nil_of_append [] name e = refl
nil_of_append (c ∷ prefix) name e = absurd (omega (arith, ap length e, length-append prefix name))

append_nil : (prefix name : Text) → prefix ≡ [] → prefix ++ name ≡ name
append_nil prefix name e = rw e refl

ok_injective : {s t : Text} → ok s ≡ ok t → s ≡ t
ok_injective e = cc

-- For an encrypted volume that the API made with the label that was asked for, and whose prefix and
-- name fit 32 bytes together: the node opens the device under the name of the request, and closes
-- it under the prefix and that name. So the two agree if the prefix is empty, and not otherwise.
pub luks_names_agree_iff :
    (req : CreateVolumeRequest) (v : Volume) (secrets : Dict) (prefix : Text) (n : ℕ)
    → get luks_encrypted_attribute req.parameters ≡ true_text
    → v.label ≡ get_normalized_label_with_prefix prefix (create_linode_volume_key (pos 0) req.name)
    → length prefix + length req.name ≤ 32
    → let opened = (get_luks_context secrets (create_volume_context req v)).volume_name in
      let closed = get_mount_source (get_volume_key (create_linode_volume_key (pos n) v.label)) in
      (opened ≡ req.name)
      × (closed ≡ ok (prefix ++ req.name))
      × ((closed ≡ ok opened) ↔ (prefix ≡ []))
luks_names_agree_iff req v secrets prefix n enc hl fits =
    let open_name = opened_name req v secrets enc in
    let close_name =
      closed_name n v.label
      ∙ ap (λ l. ok (take 32 l)) (hl ∙ label_fits prefix req.name fits)
      ∙ ap ok (take_all 32 (prefix ++ req.name) (omega (arith, length-append prefix req.name))) in
    (
      open_name,
      close_name,
      (
        λ e. nil_of_append prefix req.name (ok_injective (sym close_name ∙ e ∙ ap ok open_name)),
        λ e. close_name ∙ ap ok (append_nil prefix req.name e ∙ sym open_name),
      ),
    )
