-- ===== src/Luks/Leads.antt =====
-- What the LUKS steps do to the mounts, the mappings and the headers of a node.
use linode_blockstorage_csi.Common.{
  ℕ, ℤ, Text, split_pair, atoi, Bool-cases, Bool, true, false, some, [], ◌∷◌, ◌≡◌, refl, inl, inr,
  arith,
}
use linode_blockstorage_csi.Errors.{plain, end, cause}
use linode_blockstorage_csi.Effect.{Result, ok, err}
use linode_blockstorage_csi.Effect.Kept.{
  IsKept, kept_rules, call-IsKept, tell-IsKept, lift-IsKept, deref-IsKept, pure-IsKept, >>=-IsKept,
}
use linode_blockstorage_csi.Effect.Leads.{
  Leads, kept-Leads, call-Leads, tell-Leads, finally-Leads, then-Leads, kept_then-Leads,
  then_kept-Leads,
}
use linode_blockstorage_csi.Effect.Runs.{lift-done, deref-done, call-done}
use linode_blockstorage_csi.Host.{Host, GenericParams}
use linode_blockstorage_csi.Host.Frame.{
  NodeFrame, NodeView, put, header, mapping, luks_header, mapped,
}
use linode_blockstorage_csi.Luks.{
  LuksContext, mapper_path, free, activate, bytes_of_bits, key_size_of, format_with, luks_format,
  is_active, activated, load_and_activate, luks_open, released, close_found, luks_close,
  blkid_valid,
}

-- The header that a volume's settings ask for: the cipher and the mode on the two sides of the
-- dash, the key, and the key size in bytes.
abbrev pub IsHeaderOf : LuksContext → GenericParams → Type 0
IsHeaderOf c params =
    (n : ℤ) × (atoi c.encryption_key_size ≡ some n)
    × (params.volume_key_size ≡ bytes_of_bits n)
    × (split_pair b'-' c.encryption_cipher ≡ some (params.cipher, params.cipher_mode))
    × (params.volume_key ≡ c.encryption_key)

key_size_of-ok : (s : Text) (n : ℤ) → key_size_of s ≡ ok n → atoi s ≡ some n
unfolding key_size_of
key_size_of-ok s n h = ground arith

module _ {W : Type 0} {host : Host W} (frame : NodeFrame host) where
  free-IsKept : (dev : ℕ) → IsKept frame.view (free host dev)
  unfolding free
  free-IsKept dev = search (kept_rules, frame.free_keeps)

  activated-IsKept :
      (c : LuksContext) (source : Text) (r : Result (Unit {0}))
      → IsKept frame.view (activated host c source r)
  unfolding activated
  activated-IsKept c source (ok u) = search kept_rules
  activated-IsKept c source (err e) = elim (Bool-cases (is_active host e)) [
    | inl h ↦ rw h (search kept_rules)
    | inr h ↦ rw h (search kept_rules)
  ]

  released-IsKept : (b : Bool) → IsKept frame.view (released host b)
  unfolding released
  released-IsKept true = search kept_rules
  released-IsKept false = search kept_rules

  pub blkid_valid-IsKept : (source : Text) → IsKept frame.view (blkid_valid host source)
  unfolding blkid_valid
  blkid_valid-IsKept [] = search kept_rules
  blkid_valid-IsKept (c ∷ source) = search (kept_rules, frame.look_path_keeps, frame.blkid_keeps)

  -- Activating the device makes at most its mapping.
  module _ (c : LuksContext) (source : Text) {P Q : NodeView → Type 0} (dev : ℕ)
      (device : frame.device_of dev ≡ source) (weaker : (v : NodeView) → P v → Q v)
      (maps : (v : NodeView) → P v → Q (put (mapping c.volume_name) (mapped source ∷ []) v)) where
    activation :
        (w : W)
        → P (frame.view w)
        → Q (frame.view (host.crypt.activate_by_passphrase dev c.volume_name c.encryption_key w).1)
    activation w p = elim (frame.activate_maps dev c.volume_name c.encryption_key w) [
      | inl same ↦ rw same (weaker _ p)
      | inr new ↦ rw (new, device) (maps _ p)
    ]

    activate-Leads : Leads frame.view P Q (activate host c source dev)
    unfolding activate
    activate-Leads = call-Leads _ _ activation

    load_and_activate-Leads : Leads frame.view P Q (load_and_activate host c source dev)
    unfolding load_and_activate
    load_and_activate-Leads =
        kept_then-Leads (call-IsKept _ (host.crypt.load dev) (frame.load_keeps dev)) weaker
          (λ _ _ _ _.
            then_kept-Leads
              (tell-Leads (host.crypt.activate_by_passphrase dev c.volume_name c.encryption_key)
                activation)
              (activated-IsKept c source))

  -- Opening a device makes at most its mapping.
  pub luks_open-Leads :
      (c : LuksContext) (source : Text) {P Q : NodeView → Type 0}
      → ((v : NodeView) → P v → Q v)
      → ((v : NodeView) → P v → Q (put (mapping c.volume_name) (mapped source ∷ []) v))
      → Leads frame.view P Q (luks_open host c source)
  unfolding luks_open
  luks_open-Leads c source weaker maps =
      kept_then-Leads (call-IsKept _ (host.crypt.init source) (frame.init_keeps source)) weaker
        (λ dev s s' e. finally-Leads (free-IsKept dev) (
          load_and_activate-Leads c source dev
            (frame.init_sound source s.world s'.world dev
              (call-done _ (host.crypt.init source) s s' dev e))
            weaker maps))

  -- Formatting a device makes at most its header, and then its mapping.
  module _ (c : LuksContext) (source : Text) {P Q R : NodeView → Type 0}
      (start : (v : NodeView) → P v → Q v)
      (writes : (params : GenericParams) (v : NodeView)
        → IsHeaderOf c params
        → P v
        → Q (put (header source) (luks_header params ∷ []) v))
      (weaker : (v : NodeView) → Q v → R v)
      (maps : (v : NodeView) → Q v → R (put (mapping c.volume_name) (mapped source ∷ []) v)) where
    writing :
        (params : GenericParams) (dev : ℕ) (w : W)
        → frame.device_of dev ≡ source
        → IsHeaderOf c params
        → P (frame.view w)
        → Q (frame.view (host.crypt.format dev params w).1)
    writing params dev w device h p = elim (frame.format_writes dev params w) [
      | inl same ↦ rw same (start _ p)
      | inr new ↦ rw (new, device) (writes params _ h p)
    ]

    format_with-Leads :
        (params : GenericParams)
        → IsHeaderOf c params
        → Leads frame.view P R (format_with host c source params)
    unfolding format_with
    format_with-Leads params h =
        kept_then-Leads (call-IsKept _ (host.crypt.init source) (frame.init_keeps source))
          (λ v p. weaker v (start v p))
          (λ dev s s' e.
            let device =
              frame.init_sound source s.world s'.world dev
                (call-done _ (host.crypt.init source) s s' dev e) in
            then-Leads
              (call-Leads (λ e. plain "formatting luks device: %w" (cause e end))
                (host.crypt.format dev params) (λ w. writing params dev w device h))
              weaker
              (λ _ _ _ _.
                kept_then-Leads
                  (call-IsKept (λ e. plain "adding keysot by volumekey: %w" (cause e end))
                    (host.crypt.keyslot_add_by_volume_key dev c.encryption_key)
                    (frame.keyslot_add_keeps dev c.encryption_key))
                  weaker
                  (λ _ _ _ _. finally-Leads (free-IsKept dev) (
                    then_kept-Leads (activate-Leads c source dev device weaker maps)
                      (λ _. pure-IsKept (mapper_path c.volume_name))))))

    pub luks_format-Leads : Leads frame.view P R (luks_format host c source)
    unfolding luks_format
    luks_format-Leads =
        kept_then-Leads (lift-IsKept _) (λ v p. weaker v (start v p))
          (λ n s s' e.
            kept_then-Leads (deref-IsKept _) (λ v p. weaker v (start v p))
              (λ pair t t' e'. format_with-Leads _ (
                n,
                key_size_of-ok _ n (lift-done _ s s' n e),
                refl,
                deref-done _ t t' pair e',
                refl,
              )))

  -- Closing removes at most the mapping of the name.
  pub luks_close-Leads :
      (name : Text) {P Q : NodeView → Type 0}
      → ((v : NodeView) → P v → Q v)
      → ((v : NodeView) → P v → Q (put (mapping name) [] v))
      → Leads frame.view P Q (luks_close host name)
  unfolding luks_close close_found
  luks_close-Leads name {P} {Q} weaker unmaps =
      kept_then-Leads (tell-IsKept (host.crypt.init_by_name name) (frame.init_by_name_keeps name))
        weaker (λ r _ _ _. found-Leads r)
    where
      unmapping :
          (dev : ℕ) (w : W) → P (frame.view w) → Q (frame.view (host.crypt.deactivate dev name w).1)
      unmapping dev w p = elim (frame.deactivate_unmaps dev name w) [
        | inl same ↦ rw same (weaker _ p)
        | inr new ↦ rw new (unmaps _ p)
      ]

      found-Leads : (r : Result ℕ) → Leads frame.view P Q (close_found host name r)
      found-Leads (err e) = kept-Leads weaker (pure-IsKept _)
      found-Leads (ok dev) =
          then_kept-Leads (call-Leads _ (host.crypt.deactivate dev name) (unmapping dev)) (λ _.
            >>=-IsKept (tell-IsKept (host.crypt.free dev) (frame.free_keeps dev)) released-IsKept)
