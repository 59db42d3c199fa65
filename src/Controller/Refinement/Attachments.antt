-- ===== src/Controller/Refinement/Attachments.antt =====
-- What lasts through any sequence of requests: an attachment until it is unpublished.
use linode_blockstorage_csi.Common.{
  ℤ, codes, none, some, List, [], ◌∷◌, All, ◌≡◌, ◌≢◌, sym, ap, ◌∙◌, inl, inr,
}
use linode_blockstorage_csi.Effect.{ok, State}
use linode_blockstorage_csi.Volumes.{volume_id_as_int, node_id_as_int}
use linode_blockstorage_csi.Api.{LinodeClient, Volume}
use linode_blockstorage_csi.Api.Frame.{ApiFrame, View}
use linode_blockstorage_csi.Controller.{Server}
use linode_blockstorage_csi.Controller.Spec.{
  Request, create_request, delete_request, publish_request, unpublish_request, expand_request,
  list_request, validate_request, Allowed,
}
use linode_blockstorage_csi.Controller.Refinement.{Run, stop, then, after_all, after_all-Run}
use linode_blockstorage_csi.Controller.Refinement.Changes.{
  changed, one_volume, no_volume, unchanged, some_not_none,
}

-- The request does not unpublish the volume from the node.
abbrev pub Leaves : ℤ → ℤ → Request → Type 0
Leaves id node (unpublish_request volume_id node_id) =
    volume_id_as_int (codes "ControllerUnpublishVolume") volume_id ≡ ok id
    → node_id_as_int (codes "ControllerUnpublishVolume") node_id ≢ ok node
Leaves id node _ = Unit {0}

-- A volume is attached to the node.
abbrev pub IsAttached : ℤ → ℤ → View → Type 0
IsAttached id node u = (v : Volume) × (u id ≡ some v) × (v.linode_id ≡ some node)

-- An attachment lasts through a request that does not unpublish it.
Allowed-IsAttached :
    (server : Server) (r : Request) (id node : ℤ) (u u' : View)
    → Allowed server r u u'
    → Leaves id node r
    → IsAttached id node u
    → IsAttached id node u'
Allowed-IsAttached server (create_request req) id node u u' (inl e) h (v, hv, hn) =
    (v, unchanged id v u u' hv e, hn)
Allowed-IsAttached server (create_request req) id node u u' (inr (i, x, free, loose, named, e)) h
      (v, hv, hn) =
    changed (IsAttached id node) i id (some x) u u' v e hv
      (λ same now. absurd (no_volume u i id v hv same free)) (λ now. (v, now, hn))
Allowed-IsAttached server (delete_request vid) id node u u' (inl e) h (v, hv, hn) =
    (v, unchanged id v u u' hv e, hn)
Allowed-IsAttached server (delete_request vid) id node u u' (inr (i, hi, (x, hx, loose, e))) h
      (v, hv, hn) =
    changed (IsAttached id node) i id none u u' v e hv
      (λ same now. absurd (some_not_none hn (rw (← one_volume u i id v x hv same hx) loose)))
      (λ now. (v, now, hn))
Allowed-IsAttached server (publish_request req) id node u u' (inl e) h (v, hv, hn) =
    (v, unchanged id v u u' hv e, hn)
Allowed-IsAttached server (publish_request req) id node u u' (inr (i, m, hi, hm, (x, hx, free, e)))
      h (v, hv, hn) =
    changed (IsAttached id node) i id (some (record x { linode_id = some m })) u u' v e hv
      (λ same now.
        let before : x.linode_id ≡ some node = rw (one_volume u i id v x hv same hx) hn in
        elim free [
          | inl none' ↦ absurd (some_not_none before none')
          | inr some' ↦ (record x { linode_id = some m }, now, sym some' ∙ before)
        ])
      (λ now. (v, now, hn))
Allowed-IsAttached server (unpublish_request vid nid) id node u u' (inl e) h (v, hv, hn) =
    (v, unchanged id v u u' hv e, hn)
Allowed-IsAttached server (unpublish_request vid nid) id node u u'
      (inr (i, m, hi, hm, (x, hx, free, e))) h (v, hv, hn) =
    changed (IsAttached id node) i id (some (record x { linode_id = none })) u u' v e hv
      (λ same now.
        let before : x.linode_id ≡ some node = rw (one_volume u i id v x hv same hx) hn in
        elim free [
          | inl none' ↦ absurd (some_not_none before none')
          | inr some' ↦
              let e' : some m ≡ some node = sym some' ∙ before in
              let nodes : m ≡ node = cc in absurd (h (hi ∙ ap ok (sym same)) (hm ∙ ap ok nodes))
        ])
      (λ now. (v, now, hn))
Allowed-IsAttached server (expand_request vid range) id node u u' (inl e) h (v, hv, hn) =
    (v, unchanged id v u u' hv e, hn)
Allowed-IsAttached server (expand_request vid range) id node u u'
      (inr (i, hi, (x, size, hx, grows, e))) h (v, hv, hn) =
    changed (IsAttached id node) i id (some (record x { size = size })) u u' v e hv
      (λ same now. (record x { size = size }, now, rw (one_volume u i id v x hv same hx) hn))
      (λ now. (v, now, hn))
Allowed-IsAttached server (list_request req) id node u u' e h (v, hv, hn) =
    (v, unchanged id v u u' hv e, hn)
Allowed-IsAttached server (validate_request vid caps) id node u u' e h (v, hv, hn) =
    (v, unchanged id v u u' hv e, hn)

Run-IsAttached :
    (server : Server) (rs : List Request) (id node : ℤ) (u u' : View)
    → Run server rs u u'
    → All (Leaves id node) rs
    → IsAttached id node u
    → IsAttached id node u'
Run-IsAttached server [] id node u u' stop h now = now
Run-IsAttached server (r ∷ rs) id node u u' (then {v = m} a run) (h, hs) now =
    Run-IsAttached server rs id node m u' run hs (Allowed-IsAttached server r id node u m a h now)

module _ {W : Type 0} {client : LinodeClient W} (frame : ApiFrame client) (server : Server) where
  -- Where the calls of the API change no more than they document:
  -- through any sequence of requests of which none unpublishes it from the node, and whatever the API
  -- answers, a volume that is attached to a node is there and attached to that node.
  pub after_all-IsAttached :
      (rs : List Request) (s : State W) (id node : ℤ)
      → IsAttached id node (frame.view s.world)
      → All (Leaves id node) rs
      → IsAttached id node (frame.view (after_all client server rs s).world)
  after_all-IsAttached rs s id node now h =
      Run-IsAttached server rs id node (frame.view s.world) _ (after_all-Run frame server rs s) h
        now
