-- ===== src/Controller/Refinement/Labels.antt =====
-- The labels of the volumes through any sequence of requests.
use linode_blockstorage_csi.Common.{
  ◌≤◌, ℤ, ◌==ℤ◌, ==ℤ_iff, Text, length, Option, none, some, Bool-cases, List, [], ◌∷◌, ◌++◌, ◌≡◌,
  refl, sym, ap, ◌∙◌, ◌⊎◌, inl, inr,
}
use linode_blockstorage_csi.Effect.{ok, State}
use linode_blockstorage_csi.Volumes.{LinodeVolumeKey, get_normalized_label_with_prefix}
use linode_blockstorage_csi.Api.{LinodeClient, Volume}
use linode_blockstorage_csi.Api.Frame.{ApiFrame, View, change, change_here, change_elsewhere}
use linode_blockstorage_csi.Driver.{check_volume_label_prefix}
use linode_blockstorage_csi.Driver.Prefixes.{label_with_prefix}
use linode_blockstorage_csi.Controller.{Server}
use linode_blockstorage_csi.Controller.Spec.{
  Request, create_request, delete_request, publish_request, unpublish_request, expand_request,
  list_request, validate_request, Allowed,
}
use linode_blockstorage_csi.Controller.Refinement.{Run, stop, then, after_all, after_all-Run}

-- A label that is made with the prefix.
abbrev pub IsPrefixed : Text → Text → Type 0
IsPrefixed prefix label = ((rest : Text) × (label ≡ prefix ++ rest)) × (length label ≤ 32)

-- The volume with the id was there, under the label that it has, or was given one with the prefix.
abbrev pub IsOld : ℤ → Volume → View → Type 0
IsOld id v u = (w : Volume) × (u id ≡ some w) × (w.label ≡ v.label)

abbrev pub HasOrigin : Text → ℤ → Volume → View → Type 0
HasOrigin prefix id v u = IsOld id v u ⊎ IsPrefixed prefix v.label

-- A volume after a change is what the change put there, or was there.
put_or_old :
    (i id : ℤ) (o : Option Volume) (u u' : View) (v : Volume)
    → u' ≡ change i o u
    → u' id ≡ some v
    → ((id ≡ i) × (o ≡ some v)) ⊎ (u id ≡ some v)
put_or_old i id o u u' v e h =
    let now : change i o u id ≡ some v = sym (ap (λ f. f id) e) ∙ h in
    elim (Bool-cases (id ==ℤ i)) [
      | inl here ↦
          let same = (==ℤ_iff id i).0 here in
          inl (same, sym (change_here i o u) ∙ ap (λ j. change i o u j) (sym same) ∙ now)
      | inr there ↦ inr (sym (change_elsewhere i id o u there) ∙ now)
    ]

kept_label :
    (i id : ℤ) (x x' : Volume) (u u' : View) (v : Volume)
    → u i ≡ some x
    → x'.label ≡ x.label
    → u' ≡ change i (some x') u
    → u' id ≡ some v
    → IsOld id v u
kept_label i id x x' u u' v hx hl e h = elim (put_or_old i id (some x') u u' v e h) [
  | inl (same, put) ↦ let is : x' ≡ v = cc in (x, ap u same ∙ hx, sym hl ∙ ap (λ y. y.label) is)
  | inr old ↦ (v, old, refl)
]

unchanged : (id : ℤ) (u u' : View) (v : Volume) → u' ≡ u → u' id ≡ some v → IsOld id v u
unchanged id u u' v e h = (v, sym (ap (λ f. f id) e) ∙ h, refl)

module _ (server : Server)
    (accepted : check_volume_label_prefix server.volume_label_prefix ≡ ok tt) where
  prefixed :
      (key : LinodeVolumeKey)
      → IsPrefixed server.volume_label_prefix
          (get_normalized_label_with_prefix server.volume_label_prefix key)
  prefixed key =
      let (label, bounds) = label_with_prefix server.volume_label_prefix key accepted in
      ((_, label), bounds.1)

  Allowed-HasOrigin :
      (r : Request) (id : ℤ) (v : Volume) (u u' : View)
      → Allowed server r u u'
      → u' id ≡ some v
      → HasOrigin server.volume_label_prefix id v u
  Allowed-HasOrigin (create_request req) id v u u' (inl e) h = inl (unchanged id u u' v e h)
  Allowed-HasOrigin (create_request req) id v u u' (inr (i, x, free, loose, named, e)) h =
      elim (put_or_old i id (some x) u u' v e h) [
        | inl (same, put) ↦ let is : x ≡ v = cc in inr (rw (← is, named) (prefixed _))
        | inr old ↦ inl (v, old, refl)
      ]
  Allowed-HasOrigin (delete_request vid) id v u u' (inl e) h = inl (unchanged id u u' v e h)
  Allowed-HasOrigin (delete_request vid) id v u u' (inr (i, hi, (x, hx, loose, e))) h =
      elim (put_or_old i id none u u' v e h) [
        | inl (same, put) ↦ absurd cc
        | inr old ↦ inl (v, old, refl)
      ]
  Allowed-HasOrigin (publish_request req) id v u u' (inl e) h = inl (unchanged id u u' v e h)
  Allowed-HasOrigin (publish_request req) id v u u' (inr (i, n, hi, hn, (x, hx, loose, e))) h =
      inl (kept_label i id x (record x { linode_id = some n }) u u' v hx refl e h)
  Allowed-HasOrigin (unpublish_request vid nid) id v u u' (inl e) h = inl (unchanged id u u' v e h)
  Allowed-HasOrigin (unpublish_request vid nid) id v u u' (inr (i, n, hi, hn, (x, hx, loose, e)))
        h =
      inl (kept_label i id x (record x { linode_id = none }) u u' v hx refl e h)
  Allowed-HasOrigin (expand_request vid range) id v u u' (inl e) h = inl (unchanged id u u' v e h)
  Allowed-HasOrigin (expand_request vid range) id v u u' (inr (i, hi, (x, size, hx, grows, e))) h =
      inl (kept_label i id x (record x { size = size }) u u' v hx refl e h)
  Allowed-HasOrigin (list_request req) id v u u' e h = inl (unchanged id u u' v e h)
  Allowed-HasOrigin (validate_request vid caps) id v u u' e h = inl (unchanged id u u' v e h)

  Run-HasOrigin :
      (rs : List Request) (id : ℤ) (v : Volume) (u u' : View)
      → Run server rs u u'
      → u' id ≡ some v
      → HasOrigin server.volume_label_prefix id v u
  Run-HasOrigin [] id v u u' stop h = inl (v, h, refl)
  Run-HasOrigin (r ∷ rs) id v u u' (then {v = m} a run) h =
      elim (Run-HasOrigin rs id v m u' run h) [
        | inr made ↦ inr made
        | inl (w, there, label) ↦ elim (Allowed-HasOrigin r id w u m a there) [
          | inl (w', before, same) ↦ inl (w', before, same ∙ label)
          | inr made ↦ inr (rw (← label) made)
        ]
      ]

  -- Where the calls of the API change no more than they document and the driver accepts the label
  -- prefix, every volume that is there after a sequence of
  -- requests, whatever the API answers, was there before with the label that it has, or has a label
  -- of at most 32 bytes that begins with the whole prefix.
  pub after_all-HasOrigin :
      {W : Type 0} {client : LinodeClient W} (frame : ApiFrame client) (rs : List Request)
      (s : State W) (id : ℤ) (v : Volume)
      → frame.view (after_all client server rs s).world id ≡ some v
      → HasOrigin server.volume_label_prefix id v (frame.view s.world)
  after_all-HasOrigin frame rs s id v h =
      Run-HasOrigin rs id v (frame.view s.world) _ (after_all-Run frame server rs s) h
