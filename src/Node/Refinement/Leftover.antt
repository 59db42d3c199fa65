-- ===== src/Node/Refinement/Leftover.antt =====
-- What unstaging leaves of an encrypted volume.
use linode_blockstorage_csi.Common.{
  ℕ, pos, Text, Dict, get, length, ◌+◌, ◌≤◌, [], ◌≡◌, ◌≢◌, inl, inr,
}
use linode_blockstorage_csi.Effect.{State}
use linode_blockstorage_csi.Volumes.{
  create_linode_volume_key, get_volume_key, get_normalized_label_with_prefix,
}
use linode_blockstorage_csi.Api.{Volume}
use linode_blockstorage_csi.Csi.{CreateVolumeRequest}
use linode_blockstorage_csi.Luks.{get_luks_context, luks_encrypted_attribute, true_text}
use linode_blockstorage_csi.Controller.Provision.{create_volume_context}
use linode_blockstorage_csi.Host.{Host}
use linode_blockstorage_csi.Host.Frame.{NodeFrame, mapping}
use linode_blockstorage_csi.Node.Unstage.{node_unstage_volume}
use linode_blockstorage_csi.Node.Unstage.Names.{luks_names_agree_iff}
use linode_blockstorage_csi.Node.Unstage.Effects.{node_unstage_volume-Allowed}

-- For an encrypted volume that the API made with the label that was asked for, under a prefix that
-- is not empty and fits 32 bytes together with the name, where the calls of the machine change no
-- more than they document: unstaging leaves the device-mapper name that staging opens the volume
-- under as it was, whatever the machine answers and however it ends.
pub node_unstage_volume_leaves_mapping :
    {W : Type 0} {host : Host W} (frame : NodeFrame host) (req : CreateVolumeRequest) (v : Volume)
    (secrets : Dict) (prefix : Text) (n : ℕ) (path : Text) (s : State W)
    → get luks_encrypted_attribute req.parameters ≡ true_text
    → v.label ≡ get_normalized_label_with_prefix prefix (create_linode_volume_key (pos 0) req.name)
    → length prefix + length req.name ≤ 32
    → prefix ≢ []
    → let opened = (get_luks_context secrets (create_volume_context req v)).volume_name in
      let volume_id = get_volume_key (create_linode_volume_key (pos n) v.label) in
      frame.view (node_unstage_volume host volume_id path s).1.world (mapping opened)
      ≡ frame.view s.world (mapping opened)
node_unstage_volume_leaves_mapping frame req v secrets prefix n path s enc hl fits given =
    let opened = (get_luks_context secrets (create_volume_context req v)).volume_name in
    let volume_id = get_volume_key (create_linode_volume_key (pos n) v.label) in
    let (_, _, (agree, _)) = luks_names_agree_iff req v secrets prefix n enc hl fits in
    elim (node_unstage_volume-Allowed frame volume_id path s (mapping opened)) [
      | inl same ↦ same
      | inr (named, _) ↦ absurd (given (agree named))
    ]
