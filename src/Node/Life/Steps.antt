-- ===== src/Node/Life/Steps.antt =====
-- The operations of the node service on a machine that works.
use linode_blockstorage_csi.Common.{
  Text, codes, List, [], ◌∷◌, All, Bool, Bool-cases, true, false, ◌≡◌, refl, sym, ap, ◌∙◌, inl, inr,
  arith,
}
use mathlib.Core.List.{Memᴰ}
use mathlib.Core.List.Memᴰ
use linode_blockstorage_csi.Effect.{
  ok, done, State, node_stage_op, node_publish_op, node_unstage_op, node_unpublish_op,
  completed_status,
}
use linode_blockstorage_csi.Volumes.{LinodeVolumeKey, parse_linode_volume_key, get_normalized_label}
use linode_blockstorage_csi.Csi.{VolumeCapability}
use linode_blockstorage_csi.Devices.{get_disk_by_id_paths, verify_device_path}
use linode_blockstorage_csi.Devices.Laws.{IsFirst, verify_device_path-IsFirst}
use linode_blockstorage_csi.Devices.Kept.{verify_device_path-IsKept}
use linode_blockstorage_csi.Host.{Host}
use linode_blockstorage_csi.Host.Frame.{NodeFrame, target, mapping, Content, mounted, put}
use linode_blockstorage_csi.Luks.{luks_close}
use linode_blockstorage_csi.Node.{
  rw_permission, StageRequest, PublishRequest, is_block, ensure_mount_point, get_mount_source,
  get_fs_type_and_mount_options, validate_node_stage_volume_request,
  validate_node_publish_volume_request, validate_node_unstage_volume_request,
  validate_node_unpublish_volume_request,
}
use linode_blockstorage_csi.Node.Spec.{luks_of}
use linode_blockstorage_csi.Node.Stage.{
  partition_of, find_device_path, mount_volume, node_stage_volume,
}
use linode_blockstorage_csi.Node.Publish.{options_of, node_publish_volume}
use linode_blockstorage_csi.Node.Unstage.{node_unstage_volume, node_unpublish_volume}
use linode_blockstorage_csi.Node.Life.{Works, Links, IsFree, directory, missing, IsBind}

some_there :
    (exists : Text → Bool) (device : Text) (ps : List Text)
    → All (λ p. exists p ≡ false) ps
    → Memᴰ device ps
    → exists device ≡ true
    → ⊥
some_there exists device (p ∷ ps) (h, hs) (Memᴰ.head e) there = absurd (ground arith)
some_there exists device (p ∷ ps) (h, hs) (Memᴰ.tail m) there =
    some_there exists device ps hs m there
some_there exists device [] h m there = Memᴰ.not-nil m

options_of-IsBind : (req : PublishRequest) → IsBind (options_of req)
unfolding options_of
options_of-IsBind req = elim (Bool-cases req.readonly) [
  | inl h ↦ rw h (inr refl)
  | inr h ↦ rw h (inl refl)
]

module _ {W : Type 0} {host : Host W} {frame : NodeFrame host} (works : Works frame) where
  -- A usable path with no mount is a free mount point, and then a directory.
  ensure_mount_point_free :
      (p : Text) (s : State W)
      → works.usable p
      → frame.view s.world (target p) ≡ []
      → (s' : State W) × (ensure_mount_point host p s ≡ (done true, s'))
        × (frame.view s'.world ≡ frame.view s.world)
        × works.there s'.world p
  unfolding ensure_mount_point
  ensure_mount_point_free p s takes free = at (works.not_mounted p s.world takes free)
    where
      at :
          IsFree host works.there p s.world
          → (s' : State W) × (ensure_mount_point host p s ≡ (done true, s'))
            × (frame.view s'.world ≡ frame.view s.world)
            × works.there s'.world p
      at (directory w' e h) = (
        record s { world = w' },
        ground arith,
        ap (λ r. frame.view r.1) (sym e) ∙ frame.is_likely_not_mount_point_keeps p s.world,
        h,
      )
      at (missing x w' w'' e absent made h) = (
        record s { world = w'' },
        ground arith,
        ap (λ r. frame.view r.1) (sym made)
            ∙ frame.mkdir_all_keeps p rw_permission w'
            ∙ ap (λ r. frame.view r.1) (sym e)
            ∙ frame.is_likely_not_mount_point_keeps p s.world,
        h,
      )

  pub node_publish_volume_done :
      (req : PublishRequest) (cap : VolumeCapability) (x : Content) (l : List Content) (s : State W)
      → validate_node_publish_volume_request req ≡ ok cap
      → is_block cap.access_type ≡ false
      → works.usable req.target_path
      → frame.view s.world (target req.staging_target_path) ≡ x ∷ l
      → frame.view s.world (target req.target_path) ≡ []
      → (s' : State W) × (node_publish_volume host req s ≡ (done tt, s'))
        × (frame.view s'.world
            ≡ put
                (target req.target_path)
                (mounted req.staging_target_path (codes "ext4") (options_of req) ∷ [])
                (frame.view s.world))
  unfolding node_publish_volume
  node_publish_volume_done req cap x l s valid file takes staged free =
      let (s₁, e₁, k₁, h₁) = ensure_mount_point_free req.target_path s takes free in
      let (w, e, k) =
        works.bind_works req.staging_target_path req.target_path (codes "ext4") (options_of req) x l
          s₁.world (ap (λ u. u (target req.staging_target_path)) k₁ ∙ staged)
          (options_of-IsBind req) h₁ in
      (
        record { world = w; samples = (node_publish_op, completed_status) ∷ s₁.samples },
        ground arith,
        k ∙ rw (k₁, free) refl,
      )

  pub node_unpublish_volume_done :
      (volume_id p : Text) (x : Content) (s : State W)
      → validate_node_unpublish_volume_request volume_id p ≡ ok tt
      → works.usable p
      → frame.view s.world (target p) ≡ x ∷ []
      → (s' : State W) × (node_unpublish_volume host volume_id p s ≡ (done tt, s'))
        × (frame.view s'.world ≡ put (target p) [] (frame.view s.world))
  unfolding node_unpublish_volume
  node_unpublish_volume_done volume_id p x s valid takes there =
      let (w, e, k) = works.cleanup_works p x s.world takes there in
      (
        record { world = w; samples = (node_unpublish_op, completed_status) ∷ s.samples },
        ground arith,
        k,
      )

  pub node_unstage_volume_done :
      (volume_id p name : Text) (x : Content) (s : State W)
      → validate_node_unstage_volume_request volume_id p ≡ ok tt
      → get_mount_source volume_id ≡ ok name
      → frame.view s.world (mapping name) ≡ []
      → works.usable p
      → frame.view s.world (target p) ≡ x ∷ []
      → (s' : State W) × (node_unstage_volume host volume_id p s ≡ (done tt, s'))
        × (frame.view s'.world ≡ put (target p) [] (frame.view s.world))
  unfolding node_unstage_volume luks_close
  node_unstage_volume_done volume_id p name x s valid named closed takes there =
      let (w, e, k) = works.cleanup_works p x s.world takes there in
      let (err', w', e') = works.unknown_mapping name w (ap (λ u. u (mapping name)) k ∙ closed) in
      (
        record { world = w'; samples = (node_unstage_op, completed_status) ∷ s.samples },
        ground arith,
        ap (λ r. frame.view r.1) (sym e') ∙ frame.init_by_name_keeps name w ∙ k,
      )

  -- One of the paths is there, so one is found.
  find_device_path_found :
      (key : LinodeVolumeKey) (partition device : Text) (s : State W)
      (links : Links host (get_disk_by_id_paths (get_normalized_label key) partition))
      → Memᴰ device (get_disk_by_id_paths (get_normalized_label key) partition)
      → links.exists device ≡ true
      → (path : Text) × (s' : State W) × (find_device_path host key partition s ≡ (done path, s'))
        × (frame.view s'.world ≡ frame.view s.world)
        × (links.exists path ≡ true)
  unfolding find_device_path
  find_device_path_found key partition device s links among there =
      let ps = get_disk_by_id_paths (get_normalized_label key) partition in
      let (path, run, first) =
        verify_device_path-IsFirst host links.exists links.stat_reply ps s links.stats links.says in
      (
        path,
        (verify_device_path host ps s).1,
        given path run (found path first),
        (verify_device_path-IsKept frame ps).at s,
        found path first,
      )
    where
      found :
          (path : Text)
          → IsFirst links.exists (get_disk_by_id_paths (get_normalized_label key) partition) path
          → links.exists path ≡ true
      found path (inl (nowhere, _)) = absurd (some_there links.exists device _ nowhere among there)
      found path (inr (before, after, _, _, h)) = h

      given :
          (path : Text)
          → (verify_device_path host
              (get_disk_by_id_paths (get_normalized_label key) partition)
              s).0
            ≡ done path
          → links.exists path ≡ true
          → find_device_path host key partition s ≡ (
            done path,
            (verify_device_path host
                (get_disk_by_id_paths (get_normalized_label key) partition)
                s).1,
          )
      given [] run h = absurd (ground (arith, links.no_empty_path))
      given (c ∷ path) run h = ground arith

  pub node_stage_volume_done :
      (req : StageRequest) (cap : VolumeCapability) (key : LinodeVolumeKey) (device : Text)
      (links : Links host (get_disk_by_id_paths (get_normalized_label key) (partition_of req)))
      (s : State W)
      → validate_node_stage_volume_request req ≡ ok cap
      → parse_linode_volume_key req.volume_id ≡ ok key
      → is_block cap.access_type ≡ false
      → (luks_of req).encryption_enabled ≡ false
      → Memᴰ device (get_disk_by_id_paths (get_normalized_label key) (partition_of req))
      → links.exists device ≡ true
      → ((p : Text)
          → links.exists p ≡ true
          → works.mountable p
              (get_fs_type_and_mount_options cap).0
              (get_fs_type_and_mount_options cap).1)
      → works.usable req.staging_target_path
      → frame.view s.world (target req.staging_target_path) ≡ []
      → (path : Text) × (s' : State W) × (node_stage_volume host req s ≡ (done tt, s'))
        × (frame.view s'.world
            ≡ put
                (target req.staging_target_path)
                (mounted path
                    (get_fs_type_and_mount_options cap).0
                    (get_fs_type_and_mount_options cap).1
                  ∷ [])
                (frame.view s.world))
  unfolding node_stage_volume mount_volume
  node_stage_volume_done req cap key device links s valid parsed file plain_text among there fits
        takes free =
      let (path, s₁, e₁, k₁, h₁) =
        find_device_path_found key (partition_of req) device s links among there in
      let (s₂, e₂, k₂, h₂) =
        ensure_mount_point_free req.staging_target_path s₁ takes
          (ap (λ u. u (target req.staging_target_path)) k₁ ∙ free) in
      let (w, e, k) =
        works.format_and_mount_works path req.staging_target_path
          (get_fs_type_and_mount_options cap).0 (get_fs_type_and_mount_options cap).1 s₂.world
          (fits path h₁) h₂ in
      (
        path,
        record { world = w; samples = (node_stage_op, completed_status) ∷ s₂.samples },
        ground arith,
        k ∙ rw (k₂, k₁, free) refl,
      )
