-- ===== src/Devices/Laws.antt =====
-- Which device path is chosen.
use linode_blockstorage_csi.Common.{
  Text, List, [], ◌∷◌, ◌++◌, All, Bool, true, false, Bool-cases, ◌≡◌, ◌⊎◌, ◌∙◌, refl, ap, inl, inr,
  arith,
}
use linode_blockstorage_csi.Effect.{Result, ok, Outcome, done, failed, panicked, State}
use linode_blockstorage_csi.Host.{Host}
use linode_blockstorage_csi.Devices.Calm.{new_drives-PanicsIf}
use linode_blockstorage_csi.Devices.{
  disk_sd_pattern, stat_result, udevadm_change_to_new_drives, path_exists, first_existing,
  glob_or_nil, verify_device_path,
}

-- `path` is the first of the list that exists, or it is empty and none does.
abbrev pub IsFirst : (Text → Bool) → List Text → Text → Type 0
IsFirst exists ps path =
    (All (λ p. exists p ≡ false) ps × (path ≡ []))
    ⊎ ((before : List Text) × (after : List Text) × (ps ≡ before ++ path ∷ after)
        × All (λ p. exists p ≡ false) before
        × (exists path ≡ true))

behind :
    (exists : Text → Bool) (p : Text) (ps : List Text) (path : Text)
    → exists p ≡ false
    → IsFirst exists ps path
    → IsFirst exists (p ∷ ps) path
behind exists p ps path h (inl (nowhere, empty)) = inl ((h, nowhere), empty)
behind exists p ps path h (inr (before, after, split, absent, there)) =
    inr (p ∷ before, after, ap (λ l. p ∷ l) split, (h, absent), there)

-- The handling of new drives ends with or without an error, and the paths are looked at.
module _ {W : Type 0} (host : Host W) where
  -- What a verification comes to once the new drives are handled.
  verify_after :
      (ps : List Text) (s : State W)
      → (s' : State W) × (verify_device_path host ps s ≡ first_existing host ps s')
  unfolding verify_device_path
  verify_after ps s = at (host.fs.glob disk_sd_pattern s.world) refl
    where
      after_glob :
          (r : Result (List Text)) (w : W)
          → host.fs.glob disk_sd_pattern s.world ≡ (r, w)
          → (o : Outcome (Unit {0}) × State W)
          → udevadm_change_to_new_drives host (glob_or_nil host r) (record s { world = w }) ≡ o
          → (s' : State W) × (verify_device_path host ps s ≡ first_existing host ps s')
      after_glob r w e (done u, s') k = (s', ground arith)
      after_glob r w e (failed x, s') k = (s', ground arith)
      after_glob r w e (panicked, s') k = absurd (
          (new_drives-PanicsIf host ⊥ (glob_or_nil host r)).at (record s { world = w })
            (ap (λ o. o.0) k))

      at :
          (r : Result (List Text) × W)
          → host.fs.glob disk_sd_pattern s.world ≡ r
          → (s' : State W) × (verify_device_path host ps s ≡ first_existing host ps s')
      at (r, w) e = after_glob r w e _ refl

-- A stat of each of the paths changes nothing and says whether the path exists.
module _ {W : Type 0} (host : Host W) (exists : Text → Bool)
    (reply : Text → Result (Unit {0})) where
  abbrev Stats : Text → Type 0
  Stats p = (w : W) → host.fs.stat p w ≡ (reply p, w)

  abbrev Says : Text → Type 0
  Says p = stat_result host (reply p) ≡ ok (exists p)

  path_exists_lem :
      (p : Text) (s : State W) → Stats p → Says p → path_exists host p s ≡ (done (exists p), s)
  unfolding path_exists
  path_exists_lem p s stats says = rw (stats s.world, says) refl

  first_existing_here :
      (p : Text) (ps : List Text) (s : State W)
      → Stats p
      → Says p
      → exists p ≡ true
      → first_existing host (p ∷ ps) s ≡ (done p, s)
  unfolding first_existing
  first_existing_here p ps s stats says h = ground (arith, path_exists_lem p s stats says)

  first_existing_later :
      (p : Text) (ps : List Text) (s : State W)
      → Stats p
      → Says p
      → exists p ≡ false
      → first_existing host (p ∷ ps) s ≡ first_existing host ps s
  unfolding first_existing
  first_existing_later p ps s stats says h = ground (arith, path_exists_lem p s stats says)

  first_existing-nil : (s : State W) → first_existing host [] s ≡ (done [], s)
  unfolding first_existing
  first_existing-nil s = refl

  -- The scan of a list of paths ends with the first one that exists, or with the empty path if none
  -- does, and changes nothing.
  first_existing-IsFirst :
      (ps : List Text) (s : State W)
      → All Stats ps
      → All Says ps
      → (path : Text) × (first_existing host ps s ≡ (done path, s)) × IsFirst exists ps path
  first_existing-IsFirst [] s stats says = ([], first_existing-nil s, inl (tt, refl))
  first_existing-IsFirst (p ∷ ps) s stats says = elim (Bool-cases (exists p)) [
    | inl h ↦ (p, first_existing_here p ps s stats.0 says.0 h, inr ([], ps, refl, tt, h))
    | inr h ↦
        let (path, e, rest) = first_existing-IsFirst ps s stats.1 says.1 in
        (path, first_existing_later p ps s stats.0 says.0 h ∙ e, behind exists p ps path h rest)
  ]

  -- Whatever the globs and udevadm say, the device path that is verified is the first of the given
  -- paths that exists, or the empty path if none does.
  pub verify_device_path-IsFirst :
      (ps : List Text) (s : State W)
      → All (λ p. (w : W) → host.fs.stat p w ≡ (reply p, w)) ps
      → All (λ p. stat_result host (reply p) ≡ ok (exists p)) ps
      → (path : Text) × ((verify_device_path host ps s).0 ≡ done path) × IsFirst exists ps path
  verify_device_path-IsFirst ps s stats says =
      let (s', e) = verify_after host ps s in
      let (path, f, first) = first_existing-IsFirst ps s' stats says in
      (path, ap (λ o. o.0) (e ∙ f), first)
