-- ===== src/Controller/Create/Done.antt =====
-- What a `CreateVolume` that succeeds came through, whatever the API answers.
use linode_blockstorage_csi.Common.{ℤ, Option, none, some, get, ◌≡◌, refl, sym, ap, ◌∙◌, arith}
use mathlib.Core.Path.{subst}
use linode_blockstorage_csi.Effect.{
  ok, done, State, M, lift, deref, pure, ◌>>=◌, ◌>>◌, or_record, record_metrics, create_volume_op,
  completed_status,
}
use linode_blockstorage_csi.Effect.Runs.{>>=-done, or_record-done}
use linode_blockstorage_csi.Volumes.{LinodeVolumeKey}
use linode_blockstorage_csi.Capacity.{get_request_capacity_size, bytes_to_gb}
use linode_blockstorage_csi.Api.{LinodeClient, Volume, VolumeCreateOptions, volume_active}
use linode_blockstorage_csi.Csi.{CreateVolumeRequest, ContentSource, CsiVolume}
use linode_blockstorage_csi.Controller.{
  Server, volume_tags, wait_timeout, clone_timeout, required_region,
}
use linode_blockstorage_csi.Controller.Create.{
  prepare_volume_params, get_content_source_volume, poll_timeout, create_and_wait_for_volume,
  create_volume,
}
use linode_blockstorage_csi.Controller.Create.Outcomes.{label_of}
use linode_blockstorage_csi.Controller.Provision.{
  VolumeParams, validate_create_volume_request, create_volume_context,
  prepare_create_volume_response, source_key,
}
use linode_blockstorage_csi.Controller.Create.Steps.{
  Obtained, IsOfSize, asked, create_and_wait-done,
}
use linode_blockstorage_csi.Controller.Create.Sources.{
  params_of, status_of, params-done, no_source-done, source-done,
}

module _ {W : Type 0} (client : LinodeClient W) (server : Server) (req : CreateVolumeRequest) where
  -- The options of a volume of `size` bytes that is created for the request.
  abbrev pub options_for : ℤ → VolumeCreateOptions
  options_for size =
      asked client (label_of server req) (get volume_tags req.parameters) (status_of req)
        (bytes_to_gb size) (required_region server req.accessibility_requirements)

  -- The parts of `CreateVolume` that follow each of its steps.
  abbrev reply_for : VolumeParams → Option LinodeVolumeKey → Volume → M W CsiVolume
  reply_for p k vol =
      record_metrics create_volume_op completed_status
      >> pure (
          prepare_create_volume_response vol p.size (create_volume_context req vol) k
            req.content_source)

  abbrev after_source : VolumeParams → Option LinodeVolumeKey → M W CsiVolume
  after_source p k =
      or_record create_volume_op (
        create_and_wait_for_volume client p.volume_name req.parameters p.encryption_status
          p.target_size_gb k p.region)
      >>= λ made. deref made >>= reply_for p k

  abbrev after_params : VolumeParams → M W CsiVolume
  after_params p =
      or_record create_volume_op
        (get_content_source_volume client server req.content_source req.accessibility_requirements)
      >>= after_source p

  replied :
      (p : VolumeParams) (k : Option LinodeVolumeKey) (made : Option Volume) (s s' : State W)
      (vol : CsiVolume)
      → (deref made >>= reply_for p k) s ≡ (done vol, s')
      → (v' : Volume) × (made ≡ some v')
        × (vol
            ≡ prepare_create_volume_response v' p.size
                (create_volume_context req v')
                k
                req.content_source)
        × (s.world ≡ s'.world)
  replied p k none s s' vol h = absurd (ground arith)
  replied p k (some v') s s' vol h = (v', refl, ground arith, ap (λ r. r.1.world) h)

  -- The volume that parameters and a source lead to from a world, and the reply for it.
  abbrev Came : Option LinodeVolumeKey → W → W → CsiVolume → VolumeParams → Type 0
  Came k w₂ w₃ vol p =
      (v : Volume) × (v' : Volume) × (w : W) × Obtained client p.volume_name k
        (asked client p.volume_name (get volume_tags req.parameters) p.encryption_status
          p.target_size_gb p.region)
        v w₂ w
      × IsOfSize v p.target_size_gb k
      × (client.wait_for_volume_status v.id volume_active (poll_timeout client k) w
          ≡ ((some v', none), w₃))
      × (vol
          ≡ prepare_create_volume_response v' p.size (create_volume_context req v') k
              req.content_source)

  -- What every success came through: the size, the source, the volume and the wait for it.
  create_volume-done :
      (s s' : State W) (vol : CsiVolume)
      → create_volume client server req s ≡ (done vol, s')
      → (size : ℤ) × (k : Option LinodeVolumeKey) × (s₁ : State W) × (s₂ : State W)
        × (get_request_capacity_size req.capacity_range ≡ ok size)
        × (get_content_source_volume client server req.content_source req.accessibility_requirements
              s₁
            ≡ (done k, s₂))
        × Came k s₂.world s'.world vol (params_of server req size)
  unfolding create_volume
  create_volume-done s s' vol h =
      let check = or_record create_volume_op (lift {W = W} (validate_create_volume_request req)) in
      let prepare = prepare_volume_params client server req in
      let look =
        get_content_source_volume client server req.content_source req.accessibility_requirements in
      let (u, t₁, e₁, h₁) =
        >>=-done check (λ _. or_record create_volume_op prepare >>= after_params) s s' vol h in
      let (p, t₂, e₂, h₂) =
        >>=-done (or_record create_volume_op prepare) after_params t₁ s' vol h₁ in
      let (k, t₃, e₃, h₃) =
        >>=-done (or_record create_volume_op look) (after_source p) t₂ s' vol h₂ in
      let make =
        create_and_wait_for_volume client p.volume_name req.parameters p.encryption_status
          p.target_size_gb k p.region in
      let (made, t₄, e₄, h₄) =
        >>=-done (or_record create_volume_op make) (λ made. deref made >>= reply_for p k) t₃ s' vol
          h₃ in
      let (size, sized, same) =
        params-done client server req p t₁ t₂
          (or_record-done create_volume_op prepare t₁ t₂ p e₂) in
      let (v', there, answer, last) = replied p k made t₄ s' vol h₄ in
      let ran = or_record-done create_volume_op make t₃ t₄ made e₄ in
      let (v, w, obtained, fits, waited) =
        create_and_wait-done client p.volume_name req.parameters p.encryption_status
          p.target_size_gb k p.region v' t₃ t₄ (ran ∙ ap (λ o. (done o, t₄)) there) in
      (
        size,
        k,
        t₂,
        t₃,
        sized,
        or_record-done create_volume_op look t₂ t₃ k e₃,
        subst (Came k t₃.world s'.world vol) same
            (v, v', w, obtained, fits, waited ∙ ap (λ w'. ((some v', none), w')) last, answer),
      )

  -- If a request that names no source succeeds, whatever the API answers, then the volume was the
  -- only one listed under the request's label, or none was and it was created with the request's
  -- options; it had the size that is asked for, cut to whole gigabytes; the wait for it ended the
  -- run; and the reply is for the volume that the wait returned, with the size that is asked for in
  -- bytes.
  pub create_volume_sourceless :
      (s s' : State W) (vol : CsiVolume)
      → req.content_source ≡ none
      → create_volume client server req s ≡ (done vol, s')
      → (size : ℤ) × (v : Volume) × (v' : Volume) × (w : W) × (w' : W) × (get_request_capacity_size
            req.capacity_range
          ≡ ok size)
        × Obtained client (label_of server req) none (options_for size) v w w'
        × (v.size ≡ bytes_to_gb size)
        × (client.wait_for_volume_status v.id volume_active wait_timeout w'
            ≡ ((some v', none), s'.world))
        × (vol ≡ prepare_create_volume_response v' size (create_volume_context req v') none none)
  create_volume_sourceless s s' vol plain h =
      let (size, k, s₁, s₂, sized, looked, came) = create_volume-done s s' vol h in
      let (nil, still) = no_source-done client server req.accessibility_requirements k s₁ s₂ (
        ap (λ o. get_content_source_volume client server o req.accessibility_requirements s₁)
          (sym plain)
        ∙ looked) in
      let (v, v', w, obtained, fits, waited, answer) =
        subst (λ k. Came k s₂.world s'.world vol (params_of server req size)) nil came in
      (
        size,
        v,
        v',
        s₂.world,
        w,
        sized,
        obtained,
        fits,
        waited,
        answer
            ∙ ap (prepare_create_volume_response v' size (create_volume_context req v') none) plain,
      )

  -- If a request that names a source succeeds, whatever the API answers, then the source is a volume
  -- key, and the API looked up a volume for it that is in the region of the request; the volume was
  -- the only one listed under the request's label, or none was and it was cloned from the source
  -- under the label; the longer wait for it ended the run; and the reply is for the volume that the
  -- wait returned, with the size that is asked for in bytes, of whatever size it is.
  pub create_volume_sourced :
      (source : ContentSource) (s s' : State W) (vol : CsiVolume)
      → req.content_source ≡ some source
      → create_volume client server req s ≡ (done vol, s')
      → (size : ℤ) × (key : LinodeVolumeKey) × (src : Volume) × (v : Volume) × (v' : Volume)
        × (w : W) × (w₁ : W) × (w₂ : W) × (get_request_capacity_size req.capacity_range ≡ ok size)
        × (source_key source ≡ ok key)
        × (client.get_volume key.volume_id w ≡ (ok (some src), w₁))
        × (src.region ≡ required_region server req.accessibility_requirements)
        × Obtained client (label_of server req) (some key) (options_for size) v w₁ w₂
        × (client.wait_for_volume_status v.id volume_active clone_timeout w₂
            ≡ ((some v', none), s'.world))
        × (vol
            ≡ prepare_create_volume_response v' size
                (create_volume_context req v')
                (some key)
                (some source))
  create_volume_sourced source s s' vol named h =
      let (size, k, s₁, s₂, sized, looked, came) = create_volume-done s s' vol h in
      let (key, src, keyed, same, got, near) =
        source-done client server source req.accessibility_requirements k s₁ s₂ (
          ap (λ o. get_content_source_volume client server o req.accessibility_requirements s₁)
            (sym named)
          ∙ looked) in
      let (v, v', w, obtained, fits, waited, answer) =
        subst (λ k. Came k s₂.world s'.world vol (params_of server req size)) same came in
      (
        size,
        key,
        src,
        v,
        v',
        s₁.world,
        s₂.world,
        w,
        sized,
        keyed,
        got,
        near,
        obtained,
        waited,
        answer
            ∙ ap (prepare_create_volume_response v' size (create_volume_context req v') (some key))
                named,
      )
