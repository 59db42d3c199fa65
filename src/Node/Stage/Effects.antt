-- ===== src/Node/Stage/Effects.antt =====
-- What `NodeStageVolume` does to the machine.
use linode_blockstorage_csi.Common.{
  ℕ, Text, Bool, true, false, Bool-cases, ◌∷◌, ◌≡◌, refl, inl, inr, arith, if◌then◌else◌,
}
use linode_blockstorage_csi.Errors.{err_internal, text, texts, cause, end}
use linode_blockstorage_csi.Effect.{ok, State, M, pure, node_stage_op, completed_status}
use linode_blockstorage_csi.Effect.Kept.{
  or_record-IsKept, lift-IsKept, pure-IsKept, record_metrics-IsKept,
}
use linode_blockstorage_csi.Effect.Leads.{
  Leads, kept-Leads, call-Leads, or_record-Leads, then-Leads, kept_then-Leads, then_kept-Leads,
}
use linode_blockstorage_csi.Effect.Runs.{or_record-done, or_record-lift-done}
use linode_blockstorage_csi.Effect.Gives.{Gives, pure-Gives}
use linode_blockstorage_csi.Volumes.{parse_linode_volume_key}
use linode_blockstorage_csi.Csi.{VolumeCapability}
use linode_blockstorage_csi.Host.{Host}
use linode_blockstorage_csi.Host.Frame.{NodeFrame, NodeView, target, mounted}
use linode_blockstorage_csi.Node.{
  StageRequest, is_block, get_fs_type_and_mount_options, validate_node_stage_volume_request,
}
use linode_blockstorage_csi.Node.Kept.{ensure_mount_point-IsKept}
use linode_blockstorage_csi.Node.Spec.{
  stage_request, IsDeviceOf, luks_of, staged_source, Stages, AllowedOnNode,
}
use linode_blockstorage_csi.Node.Changes.{unchanged, changed_so, unchanged_yet, put_next}
use linode_blockstorage_csi.Node.Stage.{
  partition_of, find_device_path, format_luks_volume, mount_volume, mount_if_needed,
  node_stage_volume,
}
use linode_blockstorage_csi.Node.Stage.Unlock.{
  kind, Below, grow, find_device_path-IsKept, find_device_path_done, format_luks_volume-Leads,
  format_luks_volume-Gives,
}

module _ {W : Type 0} {host : Host W} (frame : NodeFrame host) (req : StageRequest)
    (u : NodeView) where
  abbrev To : {A : Type 0} → ℕ → M W A → Type 0
  To n m = Leads frame.view (Below req u 0) (Below req u n) m

  module _ (cap : VolumeCapability) (valid : validate_node_stage_volume_request req ≡ ok cap)
      (file : is_block cap.access_type ≡ false) (device : Text)
      (found : IsDeviceOf req device) where
    -- The device is unlocked if it is encrypted.
    abbrev source_of : Bool → M W Text
    source_of b = if b then format_luks_volume host device (luks_of req) else pure device

    source-Leads : (b : Bool) → (luks_of req).encryption_enabled ≡ b → To 2 (source_of b)
    source-Leads true on = format_luks_volume-Leads frame req u device found on
    source-Leads false on = kept-Leads (grow req u 0 2 (omega arith)) (pure-IsKept device)

    source-Gives :
        (b : Bool)
        → (luks_of req).encryption_enabled ≡ b
        → Gives (λ p. p ≡ staged_source req device) (source_of b)
    source-Gives true on = simp on (format_luks_volume-Gives host (luks_of req) device)
    source-Gives false on = simp on (pure-Gives device refl)

    mounting :
        (source : Text)
        → source ≡ staged_source req device
        → (w : W) → Below req u 2 (frame.view w)
        → Below req u 3 (
            frame.view
              (host.mounter.format_and_mount source req.staging_target_path
                (get_fs_type_and_mount_options cap).0
                (get_fs_type_and_mount_options cap).1
                w).1)
    mounting source e w below =
        elim (frame.format_and_mount_mounts source req.staging_target_path
          (get_fs_type_and_mount_options cap).0 (get_fs_type_and_mount_options cap).1 w) [
            | inl same ↦ rw same (grow req u 2 3 (omega arith) _ below)
            | inr new ↦
                let here = target req.staging_target_path in
                rw new (
                  put_next kind (Stages req) u 2 (frame.view w) here
                    (mounted source (get_fs_type_and_mount_options cap).0
                        (get_fs_type_and_mount_options cap).1
                      ∷ frame.view w here)
                    below refl
                    (
                      refl,
                      (
                        cap,
                        device,
                        valid,
                        file,
                        found,
                        rw (e, unchanged_yet kind (Stages req) u 2 (frame.view w) below here refl)
                            refl,
                      ),
                    ))
          ]

    mount_volume-Leads : To 3 (mount_volume host device req cap)
    unfolding mount_volume
    mount_volume-Leads =
        then-Leads (source-Leads (luks_of req).encryption_enabled refl)
          (grow req u 2 3 (omega arith))
          (λ source s s' e.
            call-Leads
              (λ e.
                err_internal
                  "Failed to format and mount device from (%q)---(%q) to (%q) with fstype (%q) and options (%q): %v"
                  (text source (
                    text device (
                      text req.staging_target_path (
                        text (get_fs_type_and_mount_options cap).0
                          (texts (get_fs_type_and_mount_options cap).1 (cause e end)))))))
              (host.mounter.format_and_mount source req.staging_target_path
                (get_fs_type_and_mount_options cap).0 (get_fs_type_and_mount_options cap).1)
              (mounting source
                ((source-Gives (luks_of req).encryption_enabled refl).at s s' source e)))

  mount_if_needed-Leads :
      (cap : VolumeCapability) (device : Text) (not_mnt : Bool)
      → validate_node_stage_volume_request req ≡ ok cap
      → IsDeviceOf req device
      → To 3 (mount_if_needed host device req cap not_mnt)
  unfolding mount_if_needed
  mount_if_needed-Leads cap device false valid found =
      kept-Leads (grow req u 0 3 (omega arith)) (record_metrics-IsKept _ _)
  mount_if_needed-Leads cap device true valid found = elim (Bool-cases (is_block cap.access_type)) [
    | inl h ↦ rw h (kept-Leads (grow req u 0 3 (omega arith)) (record_metrics-IsKept _ _))
    | inr h ↦ rw h (
        then_kept-Leads
          (or_record-Leads node_stage_op (mount_volume-Leads cap valid h device found))
          (λ _. record_metrics-IsKept node_stage_op completed_status))
  ]

  node_stage_volume-Leads : To 3 (node_stage_volume host req)
  unfolding node_stage_volume
  node_stage_volume-Leads =
      let up = grow req u 0 3 (omega arith) in
      kept_then-Leads
        (or_record-IsKept node_stage_op (lift-IsKept (validate_node_stage_volume_request req))) up
        (λ cap s₁ s₁' e₁.
          kept_then-Leads
            (or_record-IsKept node_stage_op (lift-IsKept (parse_linode_volume_key req.volume_id)))
            up
            (λ key s₂ s₂' e₂.
              kept_then-Leads
                (or_record-IsKept node_stage_op
                  (find_device_path-IsKept frame key (partition_of req)))
                up
                (λ device s₃ s₃' e₃.
                  kept_then-Leads
                    (or_record-IsKept node_stage_op
                      (ensure_mount_point-IsKept frame req.staging_target_path))
                    up
                    (λ not_mnt _ _ _.
                      mount_if_needed-Leads cap device not_mnt
                        (or_record-lift-done node_stage_op _ s₁ s₁' cap e₁)
                        (
                          key,
                          or_record-lift-done node_stage_op _ s₂ s₂' key e₂,
                          find_device_path_done host key (partition_of req) device s₃ s₃' (
                              or_record-done node_stage_op
                                (find_device_path host key (partition_of req)) s₃ s₃' device e₃),
                        )))))

-- The places change as the request may change them, however it ends.
pub node_stage_volume-Allowed :
    {W : Type 0} {host : Host W} (frame : NodeFrame host) (req : StageRequest) (s : State W)
    → AllowedOnNode
        (stage_request req)
        (frame.view s.world)
        (frame.view (node_stage_volume host req s).1.world)
node_stage_volume-Allowed frame req s =
    let u = frame.view s.world in
    changed_so kind (Stages req) u 3 _
      ((node_stage_volume-Leads frame req u).at s (unchanged kind (Stages req) u 0))
