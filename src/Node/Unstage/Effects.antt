-- ===== src/Node/Unstage/Effects.antt =====
-- What `NodeUnstageVolume` and `NodeUnpublishVolume` do to the machine.
use linode_blockstorage_csi.Common.{ℕ, Text, ◌≤◌, List, [], ◌≡◌, refl, sym, ◌∙◌, inl, inr, arith}
use linode_blockstorage_csi.Errors.{GoError, plain, err_internal, end, text, cause}
use linode_blockstorage_csi.Effect.{
  Result, ok, err, done, State, M, lift, node_unstage_op, node_unpublish_op, completed_status,
}
use linode_blockstorage_csi.Effect.Kept.{
  IsKept, kept_rules, or_record-IsKept, lift-IsKept, record_metrics-IsKept,
}
use linode_blockstorage_csi.Effect.Leads.{
  Leads, call-Leads, or_record-Leads, recover-Leads, then-Leads, kept_then-Leads, then_kept-Leads,
}
use linode_blockstorage_csi.Effect.Runs.{or_record-lift-done}
use linode_blockstorage_csi.Host.{Host}
use linode_blockstorage_csi.Host.Frame.{
  NodeFrame, NodeView, Place, target, mapping, header, Content,
}
use linode_blockstorage_csi.Luks.Leads.{luks_close-Leads}
use linode_blockstorage_csi.Node.{
  get_mount_source, validate_node_unstage_volume_request, validate_node_unpublish_volume_request,
}
use linode_blockstorage_csi.Node.Spec.{
  unstage_request, unpublish_request, AllowedOnNode, Unstages, Unpublishes, Unmounts,
}
use linode_blockstorage_csi.Node.Changes.{
  unchanged, ChangedBelow, later, changed_so, unchanged_yet, put_next,
}
use linode_blockstorage_csi.Node.Unstage.{
  wrapped, close_luks_mount_source, node_unstage_volume, node_unpublish_volume,
}

-- Mounts change first, then mappings.
abbrev pub kind : Place → ℕ
kind (target p) = 0
kind (mapping n) = 1
kind (header d) = 2

-- Errors under another text.
module _ {W : Type 0} (host : Host W) {A : Type 0} (wrap : GoError → GoError) where
  wrapped-Leads :
      {V : Type 0} {view : W → V} {P Q : V → Type 0} {m : M W A}
      → Leads view P Q m
      → Leads view P Q (wrapped host wrap m)
  unfolding wrapped
  wrapped-Leads h = then_kept-Leads (recover-Leads h) (λ r. lift-IsKept _)

  wrapped-lift-IsKept :
      {V : Type 0} {view : W → V} (r : Result A) → IsKept view (wrapped host wrap (lift r))
  unfolding wrapped
  wrapped-lift-IsKept r = search kept_rules

  wrapped-lift-done :
      (r : Result A) (s s' : State W) (a : A)
      → wrapped host wrap (lift r) s ≡ (done a, s')
      → r ≡ ok a
  unfolding wrapped
  wrapped-lift-done (ok b) s s' a e = ground arith
  wrapped-lift-done (err x) s s' a e = absurd (ground arith)

module _ {W : Type 0} {host : Host W} (frame : NodeFrame host)
    (May : Place → List Content → List Content → Type 0) (u : NodeView) where
  abbrev pub Below : ℕ → NodeView → Type 0
  Below = ChangedBelow kind May u

  abbrev grow : (n m : ℕ) → n ≤ m → (v : NodeView) → Below n v → Below m v
  grow = later kind May u

  -- One mount less at the path, where that is allowed.
  module _ (path : Text)
      (may : (old new : List Content) → Unmounts old new → May (target path) old new) where
    unmounting :
        (w : W)
        → Below 0 (frame.view w)
        → Below 1 (frame.view (host.mounter.cleanup_mount_point path w).1)
    unmounting w below = elim (frame.cleanup_unmounts path w) [
      | inl same ↦ rw same (grow 0 1 (omega arith) _ below)
      | inr (x, l, there, new) ↦
          let here = target path in
          rw new (
            put_next kind May u 0 (frame.view w) here l below refl (
              may _ l (x, sym (unchanged_yet kind May u 0 (frame.view w) below here refl) ∙ there)))
    ]

module _ {W : Type 0} {host : Host W} (frame : NodeFrame host) (volume_id path : Text)
    (u : NodeView) where
  abbrev Unstaged : ℕ → NodeView → Type 0
  Unstaged = Below frame (Unstages volume_id path) u

  close_luks_mount_source-Leads :
      Leads frame.view (Unstaged 1) (Unstaged 2) (close_luks_mount_source host volume_id)
  unfolding close_luks_mount_source
  close_luks_mount_source-Leads =
      let up = grow frame (Unstages volume_id path) u 1 2 (omega arith) in
      kept_then-Leads (wrapped-lift-IsKept host _ (get_mount_source volume_id)) up (λ name s s' e.
        let named = wrapped-lift-done host _ (get_mount_source volume_id) s s' name e in
        wrapped-Leads host
          (λ e.
            err_internal "closeLuksMountSource failed to close luks mount %s: %v"
              (text name (cause e end)))
          (luks_close-Leads frame name up (λ v below.
            put_next kind (Unstages volume_id path) u 1 v (mapping name) [] below refl
              (named, refl))))

  node_unstage_volume-Leads :
      Leads frame.view (Unstaged 0) (Unstaged 2) (node_unstage_volume host volume_id path)
  unfolding node_unstage_volume
  node_unstage_volume-Leads =
      kept_then-Leads
        (or_record-IsKept node_unstage_op
          (lift-IsKept (validate_node_unstage_volume_request volume_id path)))
        (grow frame (Unstages volume_id path) u 0 2 (omega arith))
        (λ ok_tt s s' e.
          let valid = or_record-lift-done node_unstage_op _ s s' ok_tt e in
          then-Leads
            (or_record-Leads node_unstage_op (
              call-Leads
                (λ e.
                  err_internal "NodeUnstageVolume failed to unmount at path %s: %v"
                    (text path (cause e end)))
                (host.mounter.cleanup_mount_point path)
                (unmounting frame (Unstages volume_id path) u path
                  (λ old new h. (refl, valid, h)))))
            (grow frame (Unstages volume_id path) u 1 2 (omega arith))
            (λ _ _ _ _.
              then_kept-Leads
                (or_record-Leads node_unstage_op (
                  wrapped-Leads host
                    (λ e.
                      plain "closing luks to unstage volume %s: %w" (text volume_id (cause e end)))
                    close_luks_mount_source-Leads))
                (λ _. record_metrics-IsKept node_unstage_op completed_status)))

  abbrev Unpublished : ℕ → NodeView → Type 0
  Unpublished = Below frame (Unpublishes volume_id path) u

  node_unpublish_volume-Leads :
      Leads frame.view (Unpublished 0) (Unpublished 1) (node_unpublish_volume host volume_id path)
  unfolding node_unpublish_volume
  node_unpublish_volume-Leads =
      kept_then-Leads
        (or_record-IsKept node_unpublish_op
          (lift-IsKept (validate_node_unpublish_volume_request volume_id path)))
        (grow frame (Unpublishes volume_id path) u 0 1 (omega arith))
        (λ ok_tt s s' e.
          let valid = or_record-lift-done node_unpublish_op _ s s' ok_tt e in
          then_kept-Leads
            (or_record-Leads node_unpublish_op (
              call-Leads
                (λ e.
                  err_internal "NodeUnpublishVolume could not unmount %s: %v"
                    (text path (cause e end)))
                (host.mounter.cleanup_mount_point path)
                (unmounting frame (Unpublishes volume_id path) u path
                  (λ old new h. (refl, valid, h)))))
            (λ _. record_metrics-IsKept node_unpublish_op completed_status))

-- The places change as the requests may change them, however they end.
module _ {W : Type 0} {host : Host W} (frame : NodeFrame host) (volume_id path : Text)
    (s : State W) where
  pub node_unstage_volume-Allowed :
      AllowedOnNode
        (unstage_request volume_id path)
        (frame.view s.world)
        (frame.view (node_unstage_volume host volume_id path s).1.world)
  node_unstage_volume-Allowed =
      let u = frame.view s.world in
      changed_so kind (Unstages volume_id path) u 2 _ (
        (node_unstage_volume-Leads frame volume_id path u).at s
          (unchanged kind (Unstages volume_id path) u 0))

  pub node_unpublish_volume-Allowed :
      AllowedOnNode
        (unpublish_request volume_id path)
        (frame.view s.world)
        (frame.view (node_unpublish_volume host volume_id path s).1.world)
  node_unpublish_volume-Allowed =
      let u = frame.view s.world in
      changed_so kind (Unpublishes volume_id path) u 1 _ (
        (node_unpublish_volume-Leads frame volume_id path u).at s
          (unchanged kind (Unpublishes volume_id path) u 0))
