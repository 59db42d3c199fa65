-- ===== src/Node/Refinement/Origins.antt =====
-- Where what is mounted, mapped and written on a node comes from, after any sequence of requests.
use linode_blockstorage_csi.Common.{
  Text, codes, List, [], ◌∷◌, true, false, Bool-cases, All, ◌≡◌, ◌≢◌, refl, sym, ◌⊎◌, inl, inr,
}
use mathlib.Core.List.{Memᴰ}
use mathlib.Core.List.Memᴰ
use linode_blockstorage_csi.Effect.{ok, State}
use linode_blockstorage_csi.Csi.{VolumeCapability}
use linode_blockstorage_csi.Host.{Host, GenericParams}
use linode_blockstorage_csi.Host.Frame.{
  NodeFrame, NodeView, Place, target, mapping, header, Content, mounted, mapped, luks_header,
}
use linode_blockstorage_csi.Luks.Leads.{IsHeaderOf}
use linode_blockstorage_csi.Node.{
  PublishRequest, is_block, get_fs_type_and_mount_options, validate_node_stage_volume_request,
  validate_node_publish_volume_request,
}
use linode_blockstorage_csi.Node.Spec.{
  NodeRequest, stage_request, unstage_request, publish_request, unpublish_request, IsDeviceOf,
  luks_of, staged_source, published, publish_options, MayChange, AllowedOnNode, NodeRun, stop, then,
}
use linode_blockstorage_csi.Node.Refinement.{serve_node_all, serve_node_all-NodeRun}

-- What a request may put in a place.
abbrev pub Puts : NodeRequest → Place → Content → Type 0
Puts (stage_request req) (target path) x =
    (path ≡ req.staging_target_path)
    × ((cap : VolumeCapability) × (device : Text) × (validate_node_stage_volume_request req
          ≡ ok cap)
        × (is_block cap.access_type ≡ false)
        × IsDeviceOf req device
        × (x
            ≡ mounted (staged_source req device) (get_fs_type_and_mount_options cap).0
                (get_fs_type_and_mount_options cap).1))
Puts (stage_request req) (mapping name) x =
    ((luks_of req).encryption_enabled ≡ true)
    × (name ≡ (luks_of req).volume_name)
    × ((device : Text) × IsDeviceOf req device × (x ≡ mapped device))
Puts (stage_request req) (header device) x =
    ((luks_of req).encryption_enabled ≡ true)
    × IsDeviceOf req device
    × ((params : GenericParams) × IsHeaderOf (luks_of req) params × (x ≡ luks_header params))
Puts (publish_request req) (target path) x =
    (path ≡ req.target_path)
    × ((cap : VolumeCapability) × (validate_node_publish_volume_request req ≡ ok cap)
        × (x ≡ published req cap))
Puts _ _ x = ⊥

only : (x y : Content) → Memᴰ x (y ∷ []) → x ≡ y
only x y (Memᴰ.head e) = e
only x y (Memᴰ.tail m) = absurd (Memᴰ.not-nil m)

-- What a place holds behind a request was there, or the request put it there.
MayChange-Puts :
    (r : NodeRequest) (q : Place) (old new : List Content) (x : Content)
    → MayChange r q old new
    → Memᴰ x new
    → Memᴰ x old ⊎ Puts r q x
MayChange-Puts (stage_request req) (target p) old new x (here, (cap, d, v, b, f, e)) m =
    elim (Memᴰ.cases_cons (rw e at m)) [ inl k ↦ inr (here, (cap, d, v, b, f, k)) | inr k ↦ inl k ]
MayChange-Puts (stage_request req) (mapping n) old new x (on, named, (d, f, e)) m =
    inr (on, named, (d, f, only x _ (rw e at m)))
MayChange-Puts (stage_request req) (header d) old new x (on, f, (params, h, e)) m =
    inr (on, f, (params, h, only x _ (rw e at m)))
MayChange-Puts (unstage_request v p) (target q) old new x (here, valid, (y, e)) m =
    inl (rw e (Memᴰ.tail m))
MayChange-Puts (unstage_request v p) (mapping n) old new x (named, e) m =
    absurd (Memᴰ.not-nil (rw e at m))
MayChange-Puts (unstage_request v p) (header d) old new x h m = absurd h
MayChange-Puts (publish_request req) (target p) old new x (here, (cap, v, e)) m =
    elim (Memᴰ.cases_cons (rw e at m)) [ inl k ↦ inr (here, (cap, v, k)) | inr k ↦ inl k ]
MayChange-Puts (publish_request req) (mapping n) old new x h m = absurd h
MayChange-Puts (publish_request req) (header d) old new x h m = absurd h
MayChange-Puts (unpublish_request v p) (target q) old new x (here, valid, (y, e)) m =
    inl (rw e (Memᴰ.tail m))
MayChange-Puts (unpublish_request v p) (mapping n) old new x h m = absurd h
MayChange-Puts (unpublish_request v p) (header d) old new x h m = absurd h

-- The content was there, or one of the requests put it there.
abbrev pub ComesFrom : List NodeRequest → NodeView → Place → Content → Type 0
ComesFrom rs u q x = Memᴰ x (u q) ⊎ ((r : NodeRequest) × Memᴰ r rs × Puts r q x)

Allowed-Puts :
    (r : NodeRequest) (u v : NodeView) (q : Place) (x : Content)
    → AllowedOnNode r u v
    → Memᴰ x (v q)
    → Memᴰ x (u q) ⊎ Puts r q x
Allowed-Puts r u v q x may m = elim (may q) [
  | inl same ↦ inl (rw (sym same) m)
  | inr change ↦ MayChange-Puts r q (u q) (v q) x change m
]

NodeRun-ComesFrom :
    (rs : List NodeRequest) (u v : NodeView)
    → NodeRun rs u v
    → (q : Place) (x : Content) → Memᴰ x (v q)
    → ComesFrom rs u q x
NodeRun-ComesFrom _ u _ stop q x m = inl m
NodeRun-ComesFrom _ u v (then {r = r} {rs = rs} {v = w} may rest) q x m =
    elim (NodeRun-ComesFrom rs w v rest q x m) [
      | inr (r', among, puts) ↦ inr (r', Memᴰ.tail among, puts)
      | inl there ↦ elim (Allowed-Puts r u w q x may there) [
        | inl before ↦ inl before
        | inr puts ↦ inr (r, Memᴰ.head refl, puts)
      ]
    ]

-- At a path, only reading is asked for.
abbrev pub OnlyReads : Text → NodeRequest → Type 0
OnlyReads path (stage_request req) = path ≢ req.staging_target_path
OnlyReads path (publish_request req) = path ≡ req.target_path → req.readonly ≡ true
OnlyReads path _ = Unit {0}

abbrev pub IsReadonly : Content → Type 0
IsReadonly x =
    (source : Text) × (fs_type : Text) × (options : List Text) × (x
      ≡ mounted source fs_type options)
    × Memᴰ (codes "ro") options

All-member : {A : Type 0} (P : A → Type 0) (xs : List A) (x : A) → All P xs → Memᴰ x xs → P x
All-member P [] x h m = absurd (Memᴰ.not-nil m)
All-member P (y ∷ ys) x (h, hs) (Memᴰ.head e) = rw e h
All-member P (y ∷ ys) x (h, hs) (Memᴰ.tail m) = All-member P ys x hs m

published-IsReadonly :
    (req : PublishRequest) (cap : VolumeCapability)
    → req.readonly ≡ true
    → IsReadonly (published req cap)
published-IsReadonly req cap h = elim (Bool-cases (is_block cap.access_type)) [
  | inl b ↦ rw b (_, _, publish_options req, refl, Memᴰ.tail (rw h (Memᴰ.head refl)))
  | inr b ↦ rw b (_, _, publish_options req, refl, Memᴰ.tail (rw h (Memᴰ.head refl)))
]

Puts-IsReadonly :
    (r : NodeRequest) (path : Text) (x : Content)
    → OnlyReads path r
    → Puts r (target path) x
    → IsReadonly x
Puts-IsReadonly (stage_request req) path x h (here, _) = absurd (h here)
Puts-IsReadonly (publish_request req) path x h (here, (cap, _, e)) =
    rw e (published-IsReadonly req cap (h here))
Puts-IsReadonly (unstage_request v p) path x h k = absurd k
Puts-IsReadonly (unpublish_request v p) path x h k = absurd k

module _ {W : Type 0} {host : Host W} (frame : NodeFrame host) (rs : List NodeRequest)
    (s : State W) where
  -- Where the calls of the machine change no more than they document: every mount, mapping and LUKS
  -- header behind a sequence of requests was there before them, or is one that one of the requests
  -- may put in that place, whatever the machine answers and however each request ends.
  pub serve_node_all-ComesFrom :
      (q : Place) (x : Content)
      → Memᴰ x (frame.view (serve_node_all host rs s).world q)
      → ComesFrom rs (frame.view s.world) q x
  serve_node_all-ComesFrom = NodeRun-ComesFrom rs _ _ (serve_node_all-NodeRun frame rs s)

  -- Where the calls of the machine change no more than they document, nothing was mounted at a path,
  -- and the requests neither stage at it nor publish at it other than for reading only: everything
  -- mounted at it behind them has the option `ro`.
  pub serve_node_all-IsReadonly :
      (path : Text)
      → frame.view s.world (target path) ≡ []
      → All (OnlyReads path) rs
      → (x : Content) → Memᴰ x (frame.view (serve_node_all host rs s).world (target path))
      → IsReadonly x
  serve_node_all-IsReadonly path free reads x m =
      elim (serve_node_all-ComesFrom (target path) x m) [
        | inl there ↦ absurd (Memᴰ.not-nil (rw free at there))
        | inr (r, among, puts) ↦
            Puts-IsReadonly r path x (All-member (OnlyReads path) rs r reads among) puts
      ]
