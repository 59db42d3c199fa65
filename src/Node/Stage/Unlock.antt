-- ===== src/Node/Stage/Unlock.antt =====
-- Finding and unlocking a device in `NodeStageVolume`: what it does to the machine, and what it
-- returns.
use linode_blockstorage_csi.Common.{
  ℕ, Text, is_empty, ◌≤◌, Bool, true, false, Bool-cases, List, [], ◌∷◌, ◌≡◌, ◌≢◌, refl, sym, ap,
  ◌∙◌, inl, inr, arith,
}
use mathlib.Core.List.{Memᴰ}
use linode_blockstorage_csi.Errors.{GoError, err_internal, text, cause, end}
use linode_blockstorage_csi.Effect.{Result, ok, err, done, State, M, lift, recover}
use linode_blockstorage_csi.Effect.Kept.{IsKept, kept_rules, lift-IsKept}
use linode_blockstorage_csi.Effect.Leads.{Leads, recover-Leads, kept_then-Leads, then_kept-Leads}
use linode_blockstorage_csi.Effect.Runs.{>>=-done, recover-done}
use linode_blockstorage_csi.Effect.Gives.{Gives, last-Gives}
use linode_blockstorage_csi.Volumes.{LinodeVolumeKey, get_normalized_label}
use linode_blockstorage_csi.Devices.{get_disk_by_id_paths, verify_device_path}
use linode_blockstorage_csi.Devices.Kept.{verify_device_path-IsKept, verify_device_path_done}
use linode_blockstorage_csi.Host.{Host}
use linode_blockstorage_csi.Host.Frame.{
  NodeFrame, NodeView, Place, target, mapping, header, put, mapped, luks_header,
}
use linode_blockstorage_csi.Luks.{LuksContext, validate, mapper_path}
use linode_blockstorage_csi.Luks.Leads.{blkid_valid-IsKept, luks_format-Leads, luks_open-Leads}
use linode_blockstorage_csi.Luks.Returns.{luks_open-Gives, luks_format-Gives}
use linode_blockstorage_csi.Node.{StageRequest}
use linode_blockstorage_csi.Node.Spec.{IsDeviceOf, luks_of, Stages}
use linode_blockstorage_csi.Node.Changes.{ChangedBelow, later, put_next}
use linode_blockstorage_csi.Node.Stage.{
  wrapped, found_path, find_device_path, luks_source, format_luks_volume,
}

-- Errors under another text.
module _ {W : Type 0} (host : Host W) {A : Type 0} (wrap : GoError → GoError) where
  wrapped_lift-done :
      (r : Result A) (s s' : State W) (a : A)
      → lift (elim r [ ok a ↦ ok a | err e ↦ err (wrap e) ]) s ≡ (done a, s')
      → (r ≡ ok a) × (s ≡ s')
  wrapped_lift-done (ok b) s s' a e = (ground arith, ground arith)
  wrapped_lift-done (err x) s s' a e = absurd (ground arith)

  wrapped-done :
      (m : M W A) (s s' : State W) (a : A)
      → wrapped host wrap m s ≡ (done a, s')
      → m s ≡ (done a, s')
  unfolding wrapped
  wrapped-done m s s' a e =
      let (r, t, e', e'') =
        >>=-done (recover m) (λ r. lift (elim r [ ok a ↦ ok a | err e ↦ err (wrap e) ])) s s' a e in
      let (hr, ht) = wrapped_lift-done r t s' a e'' in
      recover-done m s s' a (e' ∙ ap (λ r. (done r, t)) hr ∙ ap (λ t. (done (ok a), t)) ht)

module _ {W : Type 0} (host : Host W) {A : Type 0} (wrap : GoError → GoError) {m : M W A} where
  wrapped-Gives : {P : A → Type 0} → Gives P m → Gives P (wrapped host wrap m)
  wrapped-Gives h = record { at = λ s s' a e. h.at s s' a (wrapped-done host wrap m s s' a e) }

  wrapped-IsKept : {V : Type 0} {view : W → V} → IsKept view m → IsKept view (wrapped host wrap m)
  unfolding wrapped
  wrapped-IsKept h = search kept_rules

  wrapped-Leads :
      {V : Type 0} {view : W → V} {P Q : V → Type 0}
      → Leads view P Q m
      → Leads view P Q (wrapped host wrap m)
  unfolding wrapped
  wrapped-Leads h = then_kept-Leads (recover-Leads h) (λ r. lift-IsKept _)

-- The device that is found.
module _ {W : Type 0} {host : Host W} (frame : NodeFrame host) where
  found_path-IsKept : (ps : List Text) (p : Text) → IsKept frame.view (found_path host ps p)
  unfolding found_path
  found_path-IsKept ps p = elim (Bool-cases (is_empty p)) [
    | inl h ↦ rw h (search kept_rules)
    | inr h ↦ rw h (search kept_rules)
  ]

  pub find_device_path-IsKept :
      (key : LinodeVolumeKey) (p : Text) → IsKept frame.view (find_device_path host key p)
  unfolding find_device_path
  find_device_path-IsKept key p =
      search (kept_rules, wrapped-IsKept, found_path-IsKept, verify_device_path-IsKept)

module _ {W : Type 0} (host : Host W) where
  found_path_done :
      (ps : List Text) (p path : Text) (s s' : State W)
      → found_path host ps p s ≡ (done path, s')
      → (p ≡ path) × (p ≢ [])
  unfolding found_path
  found_path_done ps [] path s s' e = absurd (ground arith)
  found_path_done ps (c ∷ p) path s s' e = (ground arith, λ k. cc)

  pub find_device_path_done :
      (key : LinodeVolumeKey) (partition path : Text) (s s' : State W)
      → find_device_path host key partition s ≡ (done path, s')
      → Memᴰ path (get_disk_by_id_paths (get_normalized_label key) partition)
  unfolding find_device_path
  find_device_path_done key partition path s s' e =
      let ps = get_disk_by_id_paths (get_normalized_label key) partition in
      let wrap : GoError → GoError = λ e.
        err_internal "Error verifying Linode Volume (%q) is attached: %v"
          (text key.label (cause e end)) in
      let (p, t, e', e'') =
        >>=-done (wrapped host wrap (verify_device_path host ps)) (found_path host ps) s s' path
          e in
      let (same, given) = found_path_done ps p path t s' e'' in
      rw (sym same)
        (elim (verify_device_path_done host ps p s t
          (wrapped-done host wrap (verify_device_path host ps) s t p e')) [
            | inl empty ↦ absurd (given empty)
            | inr found ↦ found
          ])

-- Headers change first, then mappings, then mounts.
abbrev pub kind : Place → ℕ
kind (header d) = 0
kind (mapping n) = 1
kind (target p) = 2

module _ (req : StageRequest) (u : NodeView) where
  abbrev pub Below : ℕ → NodeView → Type 0
  Below = ChangedBelow kind (Stages req) u

  abbrev pub grow : (n m : ℕ) → n ≤ m → (v : NodeView) → Below n v → Below m v
  grow = later kind (Stages req) u

-- From the device on.
module _ {W : Type 0} {host : Host W} (frame : NodeFrame host) (req : StageRequest)
    (u : NodeView) where
  module _ (device : Text) (found : IsDeviceOf req device)
      (on : (luks_of req).encryption_enabled ≡ true) where
    maps :
        (v : NodeView)
        → Below req u 1 v
        → Below req u 2 (put (mapping (luks_of req).volume_name) (mapped device ∷ []) v)
    maps v below =
        put_next kind (Stages req) u 1 v (mapping (luks_of req).volume_name) (mapped device ∷ [])
          below refl (on, refl, (device, found, refl))

    luks_source-Leads :
        (b : Bool)
        → Leads frame.view (Below req u 0) (Below req u 2) (luks_source host (luks_of req) device b)
    unfolding luks_source
    luks_source-Leads true = wrapped-Leads host _ (
        luks_open-Leads frame (luks_of req) device (grow req u 0 2 (omega arith))
          (λ v below. maps v (grow req u 0 1 (omega arith) v below)))
    luks_source-Leads false = wrapped-Leads host _ (
        luks_format-Leads frame (luks_of req) device (grow req u 0 1 (omega arith))
          (λ params v h below.
            put_next kind (Stages req) u 0 v (header device) (luks_header params ∷ []) below refl
              (on, found, (params, h, refl)))
          (grow req u 1 2 (omega arith)) maps)

    pub format_luks_volume-Leads :
        Leads frame.view
          (Below req u 0)
          (Below req u 2)
          (format_luks_volume host device (luks_of req))
    unfolding format_luks_volume
    format_luks_volume-Leads =
        kept_then-Leads (wrapped-IsKept host _ (blkid_valid-IsKept frame device))
          (grow req u 0 2 (omega arith))
          (λ b _ _ _.
            kept_then-Leads
              (wrapped-IsKept host
                (λ e.
                  err_internal "Failed to luks format validation (%q): %v"
                    (text device (cause e end)))
                (lift-IsKept (validate (luks_of req))))
              (grow req u 0 2 (omega arith)) (λ _ _ _ _. luks_source-Leads b))

module _ {W : Type 0} (host : Host W) where
  luks_source-Gives :
      (c : LuksContext) (device : Text) (b : Bool)
      → Gives (λ p. p ≡ mapper_path c.volume_name) (luks_source host c device b)
  unfolding luks_source
  luks_source-Gives c device true = wrapped-Gives host _ (luks_open-Gives host c device)
  luks_source-Gives c device false = wrapped-Gives host _ (luks_format-Gives host c device)

  pub format_luks_volume-Gives :
      (c : LuksContext) (device : Text)
      → Gives (λ p. p ≡ mapper_path c.volume_name) (format_luks_volume host device c)
  unfolding format_luks_volume
  format_luks_volume-Gives c device = search (last-Gives, luks_source-Gives)
