-- ===== src/Controller/Refinement/Lasting.antt =====
-- What lasts through any sequence of requests: a volume until it is deleted.
use linode_blockstorage_csi.Common.{
  ℤ, ◌≤ℤ◌, codes, Option, none, some, List, [], ◌∷◌, All, ◌≡◌, ◌≢◌, refl, sym, ap, ◌∙◌, inl, inr,
  arith,
}
use linode_blockstorage_csi.Effect.{ok, State}
use linode_blockstorage_csi.Volumes.{volume_id_as_int}
use linode_blockstorage_csi.Api.{LinodeClient, Volume}
use linode_blockstorage_csi.Api.Frame.{ApiFrame, View, change}
use linode_blockstorage_csi.Controller.{Server}
use linode_blockstorage_csi.Controller.Spec.{
  Request, create_request, delete_request, publish_request, unpublish_request, expand_request,
  list_request, validate_request, Allowed,
}
use linode_blockstorage_csi.Controller.Refinement.{Run, stop, then, after_all, after_all-Run}
use linode_blockstorage_csi.Controller.Refinement.Changes.{
  changed, one_volume, no_volume, unchanged,
}

-- The request does not delete the volume.
abbrev pub Spares : ℤ → Request → Type 0
Spares id (delete_request volume_id) = volume_id_as_int (codes "DeleteVolume") volume_id ≢ ok id
Spares id _ = Unit {0}

-- The volume is there, with the label and at least the size.
abbrev pub Lasts : ℤ → Volume → View → Type 0
Lasts id v u = (v' : Volume) × (u id ≡ some v') × (v'.label ≡ v.label) × (v.size ≤ℤ v'.size)

le_refl : (a : ℤ) → a ≤ℤ a
le_refl a = omega arith

Lasts-trans :
    (id : ℤ) (v v' : Volume) (u : View)
    → v'.label ≡ v.label
    → v.size ≤ℤ v'.size
    → Lasts id v' u
    → Lasts id v u
Lasts-trans id v v' u hl hs (v'', there, label, size) = (v'', there, label ∙ hl, omega arith)

still : (id : ℤ) (v : Volume) (u : View) → u id ≡ some v → Lasts id v u
still id v u h = (v, h, refl, le_refl v.size)

-- A change of the attachment only.
moved-Lasts :
    (id j : ℤ) (n : Option ℤ) (x v : Volume) (u u' : View)
    → u id ≡ some x
    → u' ≡ change id (some (record x { linode_id = n })) u
    → u j ≡ some v
    → Lasts j v u'
moved-Lasts id j n x v u u' hx e hv =
    changed (Lasts j v) id j (some (record x { linode_id = n })) u u' v e hv
      (λ h now.
        let same = one_volume u id j v x hv h hx in
        (record x { linode_id = n }, now, ap (λ y. y.label) same, rw same (le_refl v.size)))
      (still j v u')

-- A volume lasts through a request that does not delete it.
Allowed-Lasts :
    (server : Server) (r : Request) (id : ℤ) (v : Volume) (u u' : View)
    → Allowed server r u u'
    → Spares id r
    → u id ≡ some v
    → Lasts id v u'
Allowed-Lasts server (create_request req) id v u u' (inl e) h hv =
    still id v u' (unchanged id v u u' hv e)
Allowed-Lasts server (create_request req) id v u u' (inr (i, x, free, loose, named, e)) h hv =
    changed (Lasts id v) i id (some x) u u' v e hv
      (λ same now. absurd (no_volume u i id v hv same free)) (still id v u')
Allowed-Lasts server (delete_request vid) id v u u' (inl e) h hv =
    still id v u' (unchanged id v u u' hv e)
Allowed-Lasts server (delete_request vid) id v u u' (inr (i, hi, (x, hx, loose, e))) h hv =
    changed (Lasts id v) i id none u u' v e hv (λ same now. absurd (h (hi ∙ ap ok (sym same))))
      (still id v u')
Allowed-Lasts server (publish_request req) id v u u' (inl e) h hv =
    still id v u' (unchanged id v u u' hv e)
Allowed-Lasts server (publish_request req) id v u u' (inr (i, node, hi, hn, (x, hx, loose, e))) h
      hv =
    moved-Lasts i id (some node) x v u u' hx e hv
Allowed-Lasts server (unpublish_request vid nid) id v u u' (inl e) h hv =
    still id v u' (unchanged id v u u' hv e)
Allowed-Lasts server (unpublish_request vid nid) id v u u'
      (inr (i, node, hi, hn, (x, hx, loose, e))) h hv =
    moved-Lasts i id none x v u u' hx e hv
Allowed-Lasts server (expand_request vid range) id v u u' (inl e) h hv =
    still id v u' (unchanged id v u u' hv e)
Allowed-Lasts server (expand_request vid range) id v u u' (inr (i, hi, (x, size, hx, grows, e))) h
      hv =
    changed (Lasts id v) i id (some (record x { size = size })) u u' v e hv
      (λ h now.
        let same = one_volume u i id v x hv h hx in
        (record x { size = size }, now, ap (λ y. y.label) same, rw (← same) grows))
      (still id v u')
Allowed-Lasts server (list_request req) id v u u' e h hv = still id v u' (unchanged id v u u' hv e)
Allowed-Lasts server (validate_request vid caps) id v u u' e h hv =
    still id v u' (unchanged id v u u' hv e)

Run-Lasts :
    (server : Server) (rs : List Request) (id : ℤ) (v : Volume) (u u' : View)
    → Run server rs u u'
    → All (Spares id) rs
    → u id ≡ some v
    → Lasts id v u'
Run-Lasts server [] id v u u' stop h hv = still id v u hv
Run-Lasts server (r ∷ rs) id v u u' (then {v = m} a run) (h, hs) hv =
    let (v', there, label, size) = Allowed-Lasts server r id v u m a h hv in
    Lasts-trans id v v' u' label size (Run-Lasts server rs id v' m u' run hs there)

module _ {W : Type 0} {client : LinodeClient W} (frame : ApiFrame client) (server : Server) where
  -- Where the calls of the API change no more than they document:
  -- through any sequence of requests of which none deletes it, and whatever the API answers, a volume
  -- is there with its label, and no smaller than it was.
  pub after_all-Lasts :
      (rs : List Request) (s : State W) (id : ℤ) (v : Volume)
      → frame.view s.world id ≡ some v
      → All (Spares id) rs
      → Lasts id v (frame.view (after_all client server rs s).world)
  after_all-Lasts rs s id v hv h =
      Run-Lasts server rs id v (frame.view s.world) _ (after_all-Run frame server rs s) h hv
