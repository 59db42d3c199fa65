-- ===== src/Devices/Kept.antt =====
-- Looking for a device mounts and maps nothing, and what is found is one of the paths.
use linode_blockstorage_csi.Common.{
  Text, Option, none, some, Bool, true, false, List, [], ◌∷◌, ◌≡◌, ◌⊎◌, inl, inr, arith,
}
use mathlib.Core.List.{Memᴰ}
use linode_blockstorage_csi.Effect.{Result, done, State, M, recover, tell, ◌>>◌}
use linode_blockstorage_csi.Effect.Runs.{>>=-done}
use linode_blockstorage_csi.Effect.Kept.{IsKept, kept_rules, >>=-IsKept}
use linode_blockstorage_csi.Host.{Host}
use linode_blockstorage_csi.Host.Frame.{NodeFrame}
use linode_blockstorage_csi.Devices.{
  disk_sd_pattern, udevadm_change_to_drive, trigger, udevadm_change_to_new_drives, path_exists,
  found_or, checked, first_existing, glob_or_nil, verify_device_path,
}

module _ {W : Type 0} {host : Host W} (frame : NodeFrame host) where
  drive-IsKept : (p : Text) → IsKept frame.view (udevadm_change_to_drive host p)
  unfolding udevadm_change_to_drive
  drive-IsKept p = search (kept_rules, frame.eval_symlinks_keeps, frame.udevadm_keeps)

  trigger-IsKept : (o : Option Text) → IsKept frame.view (trigger host o)
  unfolding trigger
  trigger-IsKept none = search kept_rules
  trigger-IsKept (some p) = drive-IsKept p

  new_drives-IsKept : (l : List Text) → IsKept frame.view (udevadm_change_to_new_drives host l)
  unfolding udevadm_change_to_new_drives
  new_drives-IsKept l = search (kept_rules, trigger-IsKept, frame.glob_keeps)

  path_exists-IsKept : (p : Text) → IsKept frame.view (path_exists host p)
  unfolding path_exists
  path_exists-IsKept p = search (kept_rules, frame.stat_keeps)

  checked-IsKept : (p : Text) → IsKept frame.view (checked host p)
  unfolding checked
  checked-IsKept p = search (kept_rules, path_exists-IsKept)

  found_or-IsKept :
      (p : Text) (m : M W Text)
      → IsKept frame.view m
      → (b : Bool) → IsKept frame.view (found_or host p m b)
  unfolding found_or
  found_or-IsKept p m h true = search kept_rules
  found_or-IsKept p m h false = h

  first_existing-IsKept : (ps : List Text) → IsKept frame.view (first_existing host ps)
  unfolding first_existing
  first_existing-IsKept [] = search kept_rules
  first_existing-IsKept (p ∷ ps) =
      >>=-IsKept (checked-IsKept p)
        (found_or-IsKept p (first_existing host ps) (first_existing-IsKept ps))

  pub verify_device_path-IsKept : (ps : List Text) → IsKept frame.view (verify_device_path host ps)
  unfolding verify_device_path
  verify_device_path-IsKept ps =
      search (kept_rules, new_drives-IsKept, first_existing-IsKept, frame.glob_keeps)

-- What is found.
module _ {W : Type 0} (host : Host W) where
  found_or_done :
      (p path : Text) (ps : List Text) (m : M W Text) (b : Bool) (s s' : State W)
      → found_or host p m b s ≡ (done path, s')
      → (m s ≡ (done path, s') → (path ≡ []) ⊎ Memᴰ path ps)
      → (path ≡ []) ⊎ Memᴰ path (p ∷ ps)
  unfolding found_or
  found_or_done p path ps m true s s' e rest = inr (Memᴰ.head (ground arith))
  found_or_done p path ps m false s s' e rest = elim (rest e) [
    | inl empty ↦ inl empty
    | inr found ↦ inr (Memᴰ.tail found)
  ]

  first_existing_done :
      (ps : List Text) (path : Text) (s s' : State W)
      → first_existing host ps s ≡ (done path, s')
      → (path ≡ []) ⊎ Memᴰ path ps
  unfolding first_existing
  first_existing_done [] path s s' e = inl (ground arith)
  first_existing_done (p ∷ ps) path s s' e =
      let (b, t, _, h) =
        >>=-done (checked host p) (found_or host p (first_existing host ps)) s s' path e in
      found_or_done p path ps (first_existing host ps) b t s' h (first_existing_done ps path t s')

  -- A path that is found is empty or one of those given.
  pub verify_device_path_done :
      (ps : List Text) (path : Text) (s s' : State W)
      → verify_device_path host ps s ≡ (done path, s')
      → (path ≡ []) ⊎ Memᴰ path ps
  unfolding verify_device_path
  verify_device_path_done ps path s s' e =
      let scan : Result (List Text) → M W Text = λ r.
        recover (udevadm_change_to_new_drives host (glob_or_nil host r))
        >> first_existing host ps in
      let (r, t, _, h) = >>=-done (tell (host.fs.glob disk_sd_pattern)) scan s s' path e in
      let (_, t', _, h') =
        >>=-done (recover (udevadm_change_to_new_drives host (glob_or_nil host r)))
          (λ _. first_existing host ps) t s' path h in
      first_existing_done ps path t' s' h'
