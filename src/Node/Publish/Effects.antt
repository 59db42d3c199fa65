-- ===== src/Node/Publish/Effects.antt =====
-- What `NodePublishVolume` does to the machine.
use linode_blockstorage_csi.Common.{
  ℕ, Text, codes, get, is_empty, Bool, true, false, Bool-cases, [], ◌∷◌, ◌≡◌, refl, ap, inl, inr,
  arith, if◌then◌else◌,
}
use linode_blockstorage_csi.Errors.{GoError}
use linode_blockstorage_csi.Effect.{
  Result, ok, err, State, M, node_publish_op, failed_status, completed_status,
}
use linode_blockstorage_csi.Effect.Kept.{
  IsKept, kept_rules, or_record-IsKept, lift-IsKept, call-IsKept, tell-IsKept,
  record_metrics-IsKept, fail-IsKept,
}
use linode_blockstorage_csi.Effect.Leads.{
  Leads, kept-Leads, call-Leads, tell-Leads, or_record-Leads, finally-Leads, kept_then-Leads,
  then_kept-Leads,
}
use linode_blockstorage_csi.Effect.Runs.{or_record-lift-done}
use linode_blockstorage_csi.Paths.{dir}
use linode_blockstorage_csi.Csi.{VolumeCapability}
use linode_blockstorage_csi.Host.{Host}
use linode_blockstorage_csi.Host.Frame.{NodeFrame, NodeView, Place, target, mounted}
use linode_blockstorage_csi.Node.{
  PublishRequest, is_block, rw_permission, owner_group_read_write_permissions,
  validate_node_publish_volume_request,
}
use linode_blockstorage_csi.Node.Kept.{ensure_mount_point-IsKept}
use linode_blockstorage_csi.Node.Spec.{
  publish_request, AllowedOnNode, Publishes, publish_options, published,
}
use linode_blockstorage_csi.Node.Changes.{
  unchanged, ChangedBelow, later, changed_so, unchanged_yet, put_next,
}
use linode_blockstorage_csi.Node.Publish.{
  options_of, remove_target, mounted_block, close_file, opened, with_device,
  node_publish_volume_block, publish_block, mount_staged, publish_mount, node_publish_volume,
}

pub options_of_lem : (req : PublishRequest) → options_of req ≡ publish_options req
unfolding options_of
options_of_lem req = elim (Bool-cases req.readonly) [ inl h ↦ rw h refl | inr h ↦ rw h refl ]

module _ {W : Type 0} {host : Host W} (frame : NodeFrame host) where
  remove_target-IsKept :
      (path : Text) (e both : GoError) (r : Result (Unit {0}))
      → IsKept frame.view (remove_target host path e both r)
  unfolding remove_target
  remove_target-IsKept path e both (ok u) = search kept_rules
  remove_target-IsKept path e both (err x) = search kept_rules

  mounted_block-IsKept :
      (device path : Text) (r : Result (Unit {0}))
      → IsKept frame.view (mounted_block host device path r)
  unfolding mounted_block
  mounted_block-IsKept device path (ok u) = search kept_rules
  mounted_block-IsKept device path (err e) =
      search (kept_rules, frame.remove_keeps, remove_target-IsKept)

  close_file-IsKept : (file : ℕ) → IsKept frame.view (close_file host file)
  unfolding close_file
  close_file-IsKept file = search (kept_rules, frame.close_keeps)

  module _ (req : PublishRequest) (u : NodeView) where
    -- There is one kind of place.
    abbrev kind : Place → ℕ
    kind q = 0

    abbrev Below : ℕ → NodeView → Type 0
    Below = ChangedBelow kind (Publishes req) u

    abbrev Publishing : {A : Type 0} → M W A → Type 0
    Publishing m = Leads frame.view (Below 0) (Below 1) m

    grow : (v : NodeView) → Below 0 v → Below 1 v
    grow = later kind (Publishes req) u 0 1 (omega arith)

    module _ (cap : VolumeCapability)
        (valid : validate_node_publish_volume_request req ≡ ok cap) where
      -- One mount of what is published, at the target path.
      mounting :
          (source fs_type : Text)
          → mounted source fs_type (options_of req) ≡ published req cap
          → (w : W) → Below 0 (frame.view w)
          → Below 1
              (frame.view (host.mounter.mount source req.target_path fs_type (options_of req) w).1)
      mounting source fs_type e w below =
          elim (frame.mount_mounts source req.target_path fs_type (options_of req) w) [
            | inl same ↦ rw same (grow _ below)
            | inr new ↦
                let here = target req.target_path in
                rw (new, e)
                  (put_next kind (Publishes req) u 0 (frame.view w) here
                    (published req cap ∷ frame.view w here) below refl
                    (
                      refl,
                      (
                        cap,
                        valid,
                        ap (λ l. published req cap ∷ l)
                            (unchanged_yet kind (Publishes req) u 0 (frame.view w) below here refl),
                      ),
                    ))
          ]

      module _ (block : is_block cap.access_type ≡ true) where
        abbrev device : Text
        device = get (codes "devicePath") req.publish_context

        opened-Publishing :
            (r : Result ℕ) → Publishing (opened host device req.target_path (options_of req) r)
        unfolding opened
        opened-Publishing (err e) =
            kept-Leads grow (search (kept_rules, frame.remove_keeps, remove_target-IsKept))
        opened-Publishing (ok file) = finally-Leads (close_file-IsKept file) (
            then_kept-Leads
              (tell-Leads (host.mounter.mount device req.target_path [] (options_of req))
                (mounting device [] (rw (options_of_lem req, block) refl)))
              (mounted_block-IsKept device req.target_path))

        with_device-Publishing :
            Publishing (with_device host device req.target_path (options_of req))
        unfolding with_device
        with_device-Publishing =
            kept_then-Leads
              (call-IsKept _ (host.fs.mkdir_all (dir req.target_path) rw_permission)
                (frame.mkdir_all_keeps (dir req.target_path) rw_permission))
              grow
              (λ _ _ _ _.
                kept_then-Leads
                  (tell-IsKept
                    (host.fs.open_file req.target_path owner_group_read_write_permissions)
                    (frame.open_file_keeps req.target_path owner_group_read_write_permissions))
                  grow (λ r _ _ _. opened-Publishing r))

        publish_block-Publishing : Publishing (publish_block host req)
        unfolding publish_block node_publish_volume_block
        publish_block-Publishing =
            finally-Leads (record_metrics-IsKept node_publish_op completed_status) (
              or_record-Leads node_publish_op (elim (Bool-cases (is_empty device)) [
                | inl h ↦ rw h (kept-Leads grow (fail-IsKept _))
                | inr h ↦ rw h with_device-Publishing
              ]))

      module _ (file : is_block cap.access_type ≡ false) where
        mount_staged-Publishing : (b : Bool) → Publishing (mount_staged host req b)
        unfolding mount_staged
        mount_staged-Publishing false =
            kept-Leads grow (record_metrics-IsKept node_publish_op failed_status)
        mount_staged-Publishing true =
            then_kept-Leads
              (or_record-Leads node_publish_op (
                call-Leads _
                  (host.mounter.mount req.staging_target_path req.target_path (codes "ext4")
                    (options_of req))
                  (mounting req.staging_target_path (codes "ext4")
                    (rw (options_of_lem req, file) refl))))
              (λ _. record_metrics-IsKept node_publish_op completed_status)

        publish_mount-Publishing : Publishing (publish_mount host req)
        unfolding publish_mount
        publish_mount-Publishing =
            kept_then-Leads
              (or_record-IsKept node_publish_op (ensure_mount_point-IsKept frame req.target_path))
              grow (λ b _ _ _. mount_staged-Publishing b)

      by_access-Publishing :
          (b : Bool)
          → is_block cap.access_type ≡ b
          → Publishing (if b then publish_block host req else publish_mount host req)
      by_access-Publishing true block = publish_block-Publishing block
      by_access-Publishing false file = publish_mount-Publishing file

    node_publish_volume-Publishing : Publishing (node_publish_volume host req)
    unfolding node_publish_volume
    node_publish_volume-Publishing =
        kept_then-Leads
          (or_record-IsKept node_publish_op
            (lift-IsKept (validate_node_publish_volume_request req)))
          grow
          (λ cap s s' e.
            let valid = or_record-lift-done node_publish_op _ s s' cap e in
            by_access-Publishing cap valid (is_block cap.access_type) refl)

  -- The places change as the request may change them, however it ends.
  pub node_publish_volume-Allowed :
      (req : PublishRequest) (s : State W)
      → AllowedOnNode
          (publish_request req)
          (frame.view s.world)
          (frame.view (node_publish_volume host req s).1.world)
  node_publish_volume-Allowed req s =
      let u = frame.view s.world in
      changed_so (kind req u) (Publishes req) u 1 _
        ((node_publish_volume-Publishing req u).at s (unchanged (kind req u) (Publishes req) u 0))
