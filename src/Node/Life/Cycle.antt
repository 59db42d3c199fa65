-- ===== src/Node/Life/Cycle.antt =====
-- A volume is staged, published, unpublished and unstaged on a machine that works.
use linode_blockstorage_csi.Common.{
  Text, codes, List, [], ◌∷◌, true, false, Bool-cases, ◌≡◌, ◌≢◌, refl, sym, ap, ◌∙◌, inl, inr,
  arith,
}
use mathlib.Core.List.{Memᴰ}
use linode_blockstorage_csi.Effect.{ok, done, State}
use linode_blockstorage_csi.Volumes.{LinodeVolumeKey, parse_linode_volume_key, get_normalized_label}
use linode_blockstorage_csi.Csi.{VolumeCapability}
use linode_blockstorage_csi.Devices.{get_disk_by_id_paths}
use linode_blockstorage_csi.Host.{Host}
use linode_blockstorage_csi.Host.Frame.{
  NodeFrame, NodeView, Place, target, mapping, Content, mounted, put, place_eq, place_eq_sound,
  place_eq_refl,
}
use linode_blockstorage_csi.Node.{
  StageRequest, PublishRequest, is_block, get_mount_source, validate_node_stage_volume_request,
  validate_node_publish_volume_request, validate_node_unstage_volume_request,
  validate_node_unpublish_volume_request, get_fs_type_and_mount_options,
}
use linode_blockstorage_csi.Node.Spec.{luks_of, publish_options}
use linode_blockstorage_csi.Node.Stage.{partition_of, node_stage_volume}
use linode_blockstorage_csi.Node.Publish.{node_publish_volume}
use linode_blockstorage_csi.Node.Publish.Effects.{options_of_lem}
use linode_blockstorage_csi.Node.Unstage.{node_unstage_volume, node_unpublish_volume}
use linode_blockstorage_csi.Node.Life.{Works, Links}
use linode_blockstorage_csi.Node.Life.Steps.{
  node_stage_volume_done, node_publish_volume_done, node_unpublish_volume_done,
  node_unstage_volume_done,
}

-- What was staged or published can be unstaged or unpublished.
unstage_valid :
    (req : StageRequest) (cap : VolumeCapability)
    → validate_node_stage_volume_request req ≡ ok cap
    → validate_node_unstage_volume_request req.volume_id req.staging_target_path ≡ ok tt
unfolding validate_node_stage_volume_request validate_node_unstage_volume_request
unstage_valid req cap h = ground arith

unpublish_valid :
    (req : PublishRequest) (cap : VolumeCapability)
    → validate_node_publish_volume_request req ≡ ok cap
    → validate_node_unpublish_volume_request req.volume_id req.target_path ≡ ok tt
unfolding validate_node_publish_volume_request validate_node_unpublish_volume_request
unpublish_valid req cap h = ground arith

put_here : (p : Place) (l : List Content) (u : NodeView) → put p l u p ≡ l
put_here p l u = rw (place_eq_refl p) refl

put_elsewhere : (p q : Place) (l : List Content) (u : NodeView) → q ≢ p → put p l u q ≡ u q
put_elsewhere p q l u h = elim (Bool-cases (place_eq q p)) [
  | inl e ↦ absurd (h (place_eq_sound q p e))
  | inr e ↦ rw e refl
]

target_injective : (p q : Text) → target p ≡ target q → p ≡ q
target_injective p q e = cc

-- Two places that are filled and emptied again are as they were.
emptied :
    (p q r : Place) (l m : List Content) (u : NodeView)
    → u p ≡ []
    → u q ≡ []
    → put p [] (put q [] (put q m (put p l u))) r ≡ u r
emptied p q r l m u hp hq = elim (Bool-cases (place_eq r p)) [
  | inl e ↦ rw e (sym (ap u (place_eq_sound r p e) ∙ hp))
  | inr e ↦ elim (Bool-cases (place_eq r q)) [
    | inl f ↦ rw (e, f) (sym (ap u (place_eq_sound r q f) ∙ hq))
    | inr f ↦ rw (e, f) refl
  ]
]

module _ {W : Type 0} {host : Host W} {frame : NodeFrame host} (works : Works frame) where
  -- Publishing and unpublishing, from any state with nothing at the target path.
  publish_unpublish :
      (req : PublishRequest) (cap : VolumeCapability) (x : Content) (m : List Content) (s : State W)
      → validate_node_publish_volume_request req ≡ ok cap
      → is_block cap.access_type ≡ false
      → works.usable req.target_path
      → frame.view s.world (target req.staging_target_path) ≡ x ∷ m
      → frame.view s.world (target req.target_path) ≡ []
      → let q = target req.target_path in
        let l : List Content =
          mounted req.staging_target_path (codes "ext4") (publish_options req) ∷ [] in
        (s₂ : State W) × (s₃ : State W) × (node_publish_volume host req s ≡ (done tt, s₂))
        × (node_unpublish_volume host req.volume_id req.target_path s₂ ≡ (done tt, s₃))
        × (frame.view s₂.world q ≡ l)
        × (frame.view s₃.world ≡ put q [] (put q l (frame.view s.world)))
  publish_unpublish req cap y m s valid file takes staged free =
      let q = target req.target_path in
      let x = mounted req.staging_target_path (codes "ext4") (publish_options req) in
      let (s₂, e₂, k₂) =
        node_publish_volume_done works req cap y m s valid file takes staged free in
      let view₂ : frame.view s₂.world ≡ put q (x ∷ []) (frame.view s.world) =
        k₂
        ∙ ap
            (λ o.
              put q (mounted req.staging_target_path (codes "ext4") o ∷ []) (frame.view s.world))
            (options_of_lem req) in
      let there = ap (λ v. v q) view₂ ∙ put_here q (x ∷ []) (frame.view s.world) in
      let (s₃, e₃, k₃) =
        node_unpublish_volume_done works req.volume_id req.target_path x s₂
          (unpublish_valid req cap valid) takes there in
      (s₂, s₃, e₂, e₃, there, k₃ ∙ ap (put q []) view₂)

  -- On a machine that works and whose calls change no more than they document, where a path of the
  -- volume's device exists and the paths of it that exist can be mounted as the request asks, the
  -- volume is neither encrypted nor a block volume, its name is not mapped, and the staging path and
  -- another target path, at which nothing is mounted, can be mounted on, being empty directories or
  -- missing: staging the volume, publishing it from its staging path, unpublishing and unstaging it
  -- succeed one after the other. Once it is published, the target path has the one mount of the
  -- staging path, read-only if that is asked; at the end every mount, mapping and LUKS header is as
  -- it was.
  pub stage_publish_unpublish_unstage :
      (req : StageRequest) (pub_req : PublishRequest) (cap cap' : VolumeCapability)
      (key : LinodeVolumeKey) (device name : Text)
      (links : Links host (get_disk_by_id_paths (get_normalized_label key) (partition_of req)))
      (s : State W)
      → validate_node_stage_volume_request req ≡ ok cap
      → parse_linode_volume_key req.volume_id ≡ ok key
      → get_mount_source req.volume_id ≡ ok name
      → is_block cap.access_type ≡ false
      → (luks_of req).encryption_enabled ≡ false
      → Memᴰ device (get_disk_by_id_paths (get_normalized_label key) (partition_of req))
      → links.exists device ≡ true
      → ((path : Text)
          → links.exists path ≡ true
          → works.mountable path
              (get_fs_type_and_mount_options cap).0
              (get_fs_type_and_mount_options cap).1)
      → works.usable req.staging_target_path
      → validate_node_publish_volume_request pub_req ≡ ok cap'
      → is_block cap'.access_type ≡ false
      → works.usable pub_req.target_path
      → pub_req.staging_target_path ≡ req.staging_target_path
      → pub_req.target_path ≢ req.staging_target_path
      → frame.view s.world (target req.staging_target_path) ≡ []
      → frame.view s.world (target pub_req.target_path) ≡ []
      → frame.view s.world (mapping name) ≡ []
      → let (o₁, s₁) = node_stage_volume host req s in
        let (o₂, s₂) = node_publish_volume host pub_req s₁ in
        let (o₃, s₃) = node_unpublish_volume host pub_req.volume_id pub_req.target_path s₂ in
        let (o₄, s₄) = node_unstage_volume host req.volume_id req.staging_target_path s₃ in
        (o₁ ≡ done tt)
        × (o₂ ≡ done tt)
        × (o₃ ≡ done tt)
        × (o₄ ≡ done tt)
        × (frame.view s₂.world (target pub_req.target_path)
            ≡ mounted req.staging_target_path (codes "ext4") (publish_options pub_req) ∷ [])
        × ((q : Place) → frame.view s₄.world q ≡ frame.view s.world q)
  stage_publish_unpublish_unstage req pub_req cap cap' key device name links s valid parsed named
        file plain_text among there fits takes valid' file' takes' same apart free free' unmapped =
      let u = frame.view s.world in
      let p = target req.staging_target_path in
      let q = target pub_req.target_path in
      let other : q ≢ p = λ e. apart (target_injective _ _ e) in
      let (path, s₁, e₁, k₁) =
        node_stage_volume_done works req cap key device links s valid parsed file plain_text among
          there fits takes free in
      let l : List Content =
        mounted path (get_fs_type_and_mount_options cap).0 (get_fs_type_and_mount_options cap).1
        ∷ [] in
      let (s₂, s₃, e₂, e₃, there₂, k₃) =
        publish_unpublish pub_req cap'
          (mounted path (get_fs_type_and_mount_options cap).0 (get_fs_type_and_mount_options cap).1)
          [] s₁ valid' file' takes'
          (ap (λ r. frame.view s₁.world (target r)) same ∙ ap (λ v. v p) k₁ ∙ put_here p l u)
          (ap (λ v. v q) k₁ ∙ put_elsewhere p q l u other ∙ free') in
      let m : List Content =
        mounted pub_req.staging_target_path (codes "ext4") (publish_options pub_req) ∷ [] in
      let view₃ : frame.view s₃.world ≡ put q [] (put q m (put p l u)) =
        k₃ ∙ ap (λ v. put q [] (put q m v)) k₁ in
      let staged : frame.view s₃.world p ≡ l =
        ap (λ v. v p) view₃
        ∙ put_elsewhere q p [] (put q m (put p l u)) (λ e. other (sym e))
        ∙ put_elsewhere q p m (put p l u) (λ e. other (sym e))
        ∙ put_here p l u in
      let (s₄, e₄, k₄) =
        node_unstage_volume_done works req.volume_id req.staging_target_path name
          (mounted path (get_fs_type_and_mount_options cap).0 (get_fs_type_and_mount_options cap).1)
          s₃ (unstage_valid req cap valid) named (ap (λ v. v (mapping name)) view₃ ∙ unmapped) takes
          staged in
      rw (e₁, e₂, e₃, e₄)
        (
          refl,
          refl,
          refl,
          refl,
          there₂ ∙ ap (λ r. mounted r (codes "ext4") (publish_options pub_req) ∷ []) same,
          λ r. ap (λ v. v r) (k₄ ∙ ap (put p []) view₃) ∙ emptied p q r l m u free free',
        )
