-- ===== src/Controller/Create/Steps.antt =====
-- What the steps of `CreateVolume` that return came through, whatever the API answers.
use linode_blockstorage_csi.Common.{
  ℤ, pos, ==ℤ_iff, Text, get, Option, none, some, List, [], ◌∷◌, ◌≡◌, refl, ap, ◌∙◌, arith, Dict,
}
use linode_blockstorage_csi.Errors.{err_internal, cause, end, number}
use linode_blockstorage_csi.Effect.{M, call, deref, tell, ◌>>=◌, ◌>>◌, ok, done, State}
use linode_blockstorage_csi.Effect.Runs.{>>=-done, call-done}
use linode_blockstorage_csi.Volumes.{LinodeVolumeKey}
use linode_blockstorage_csi.Api.{
  LinodeClient, Volume, VolumeCreateOptions, ListOptions, WaitReply, volume_active,
}
use linode_blockstorage_csi.Controller.{volume_tags}
use linode_blockstorage_csi.Controller.Create.{
  clone_linode_volume, create_linode_volume, use_existing, attempt_create_linode_volume, check_size,
  poll_timeout, waited, create_and_wait_for_volume,
}
use linode_blockstorage_csi.Controller.Provision.{split_tags}

abbrev pub with_label : Text → ListOptions
with_label label = record { page = pos 0; page_size = pos 0; label_filter = some label }

-- How a request comes to its volume: it is the only one with the label, or there is none, and it is
-- cloned from the source under the label or created with the options.
pub data Obtained {W : Type 0} (client : LinodeClient W) (label : Text)
    (key : Option LinodeVolumeKey) (new : VolumeCreateOptions) (v : Volume) (w w' : W)
    : Type 0 where
  found :
      client.list_volumes (with_label label) w ≡ (ok (v ∷ []), w')
      → Obtained client label key new v w w'
  cloned :
      (k : LinodeVolumeKey) (w₁ : W)
      → key ≡ some k
      → client.list_volumes (with_label label) w ≡ (ok [], w₁)
      → client.clone_volume k.volume_id label w₁ ≡ (ok (some v), w')
      → Obtained client label key new v w w'
  created :
      (w₁ : W)
      → key ≡ none
      → client.list_volumes (with_label label) w ≡ (ok [], w₁)
      → client.create_volume new w₁ ≡ (ok (some v), w')
      → Obtained client label key new v w w'

-- An existing volume is compared with the request only where no source is named.
abbrev pub IsOfSize : Volume → ℤ → Option LinodeVolumeKey → Type 0
IsOfSize v gb none = v.size ≡ gb
IsOfSize v gb (some key) = Unit

module _ {W : Type 0} (client : LinodeClient W) where
  abbrev pub asked : Text → Text → Text → ℤ → Text → VolumeCreateOptions
  asked label tags enc gb region = record {
    region = region;
    label = label;
    size = gb;
    encryption = enc;
    tags = split_tags tags;
  }

  use_existing-done :
      (l t e : Text) (g : ℤ) (k : Option LinodeVolumeKey) (r : Text) (vs : List Volume) (v : Volume)
      (w : W) (s s' : State W)
      → client.list_volumes (with_label l) w ≡ (ok vs, s.world)
      → use_existing client l t e g k r vs s ≡ (done (some v), s')
      → Obtained client l k (asked l t e g r) v w s'.world
  unfolding use_existing clone_linode_volume create_linode_volume
  use_existing-done l t e g none r [] v w s s' hl h = created s.world refl hl (
      call-done (λ e'. err_internal "create volume: %v" (cause e' end))
        (client.create_volume (asked l t e g r)) s s' (some v) h)
  use_existing-done l t e g (some k) r [] v w s s' hl h = cloned k s.world refl hl (
      call-done (λ e'. err_internal "clone volume %d: %v" (number k.volume_id (cause e' end)))
        (client.clone_volume k.volume_id l) s s' (some v) h)
  use_existing-done l t e g none r (x ∷ []) v w s s' hl h = found (ground arith)
  use_existing-done l t e g (some k) r (x ∷ []) v w s s' hl h = found (ground arith)
  use_existing-done l t e g none r (x ∷ y ∷ vs) v w s s' hl h = absurd (ground arith)
  use_existing-done l t e g (some k) r (x ∷ y ∷ vs) v w s s' hl h = absurd (ground arith)

  attempt-done :
      (l t e : Text) (g : ℤ) (k : Option LinodeVolumeKey) (r : Text) (v : Volume) (s s' : State W)
      → attempt_create_linode_volume client l t e g k r s ≡ (done (some v), s')
      → Obtained client l k (asked l t e g r) v s.world s'.world
  unfolding attempt_create_linode_volume
  attempt-done l t e g k r v s s' h =
      let ask =
        call (λ e'. err_internal "list volumes: %v" (cause e' end))
          (client.list_volumes (with_label l)) in
      let (vs, s₁, e₁, h₁) = >>=-done ask (use_existing client l t e g k r) s s' (some v) h in
      use_existing-done l t e g k r vs v s.world s₁ s'
        (call-done (λ e'. err_internal "list volumes: %v" (cause e' end))
          (client.list_volumes (with_label l)) s s₁ vs e₁)
        h₁

  check_size-done :
      (v : Volume) (g : ℤ) (k : Option LinodeVolumeKey) (s s' : State W)
      → check_size client v g k s ≡ (done tt, s')
      → IsOfSize v g k × (s ≡ s')
  unfolding check_size
  check_size-done v g none s s' h = ground (arith, ==ℤ_iff v.size g)
  check_size-done v g (some k) s s' h = (tt, ap (λ r. r.1) h)

  waited-done :
      (r : WaitReply) (v : Volume) (s s' : State W)
      → waited client r s ≡ (done (some v), s')
      → (r ≡ (some v, none)) × (s ≡ s')
  unfolding waited
  waited-done (o, none) v s s' h = ground arith
  waited-done (none, some e) v s s' h = absurd (ground arith)
  waited-done (some u, some e) v s s' h = absurd (ground arith)

  deref-same :
      (o : Option Volume) (v : Volume) (s s' : State W)
      → deref o s ≡ (done v, s')
      → (o ≡ some v) × (s ≡ s')
  deref-same none v s s' h = absurd (ground arith)
  deref-same (some u) v s s' h = (ground arith, ap (λ r. r.1) h)

  abbrev poll : ℤ → Option LinodeVolumeKey → Volume → M W (Option Volume)
  poll g k vol =
      check_size client vol g k
      >> (tell (client.wait_for_volume_status vol.id volume_active (poll_timeout client k))
          >>= waited client)

  pub create_and_wait-done :
      (l : Text) (p : Dict) (e : Text) (g : ℤ) (k : Option LinodeVolumeKey) (r : Text) (v' : Volume)
      (s s' : State W)
      → create_and_wait_for_volume client l p e g k r s ≡ (done (some v'), s')
      → (v : Volume) × (w : W) × Obtained client l k (asked l (get volume_tags p) e g r) v s.world w
        × IsOfSize v g k
        × (client.wait_for_volume_status v.id volume_active (poll_timeout client k) w
            ≡ ((some v', none), s'.world))
  unfolding create_and_wait_for_volume
  create_and_wait-done l p e g k r v' s s' h =
      let make = attempt_create_linode_volume client l (get volume_tags p) e g k r in
      let (made, s₁, e₁, h₁) = >>=-done make (λ made. deref made >>= poll g k) s s' (some v') h in
      let (v, s₂, e₂, h₂) = >>=-done (deref made) (poll g k) s₁ s' (some v') h₁ in
      let (u, s₃, e₃, h₃) =
        >>=-done (check_size client v g k)
          (λ _.
            tell (client.wait_for_volume_status v.id volume_active (poll_timeout client k))
            >>= waited client)
          s₂ s' (some v') h₂ in
      let (sized, same) = check_size-done v g k s₂ s₃ e₃ in
      let (there, still) = deref-same made v s₁ s₂ e₂ in
      let reply =
        client.wait_for_volume_status v.id volume_active (poll_timeout client k) s₃.world in
      let (answered, last) = waited-done reply.0 v' (record s₃ { world = reply.1 }) s' h₃ in
      (
        v,
        s₃.world,
        rw (← same, ← still)
            (attempt-done l (get volume_tags p) e g k r v s s₁ (e₁ ∙ ap (λ o. (done o, s₁)) there)),
        sized,
        ground arith,
      )
