-- ===== src/Luks/Laws.antt =====
-- When a crypt device is freed, and what a cipher with no dash does.
use linode_blockstorage_csi.Common.{
  ℕ, ℤ, Text, Lacks, split_pair, atoi, none, some, [], ◌∷◌, ◌≡◌, refl, sym, ap, ◌∙◌, arith, Option,
}
use linode_blockstorage_csi.Effect.{Result, ok, err, done, panicked, State}
use linode_blockstorage_csi.Host.{Host, GenericParams}
use linode_blockstorage_csi.Luks.{
  LuksContext, bytes_of_bits, key_size_of, format_with, luks_format, load_and_activate, luks_open,
}

split_pair-none : (sep : ℕ) (s : Text) → Lacks sep s → split_pair sep s ≡ none
unfolding split_pair
split_pair-none sep [] h = refl
split_pair-none sep (c ∷ s) h = ground (arith, split_pair-none sep s h.1)

module _ {W : Type 0} (host : Host W) (c : LuksContext) (source : Text) (s : State W) where
  -- Formatting with a cipher that has no dash in it panics before any device is touched, if the key
  -- size is a number.
  pub luks_format_no_dash :
      (n : ℤ)
      → atoi c.encryption_key_size ≡ some n
      → Lacks b'-' c.encryption_cipher
      → luks_format host c source s ≡ (panicked, s)
  unfolding luks_format
  luks_format_no_dash n hn h = ground (arith, split_pair-none b'-' c.encryption_cipher h)

  -- Opening a device that could be initialised ends by freeing it, whatever the steps between do.
  pub luks_open_frees :
      (dev : ℕ) (w : W)
      → host.crypt.init source s.world ≡ (ok dev, w)
      → (w' : W) × ((luks_open host c source s).1.world ≡ (host.crypt.free dev w').1)
  unfolding luks_open
  luks_open_frees dev w h =
      ((load_and_activate host c source dev (record s { world = w })).1.world, ground arith)

  format_with_frees :
      (params : GenericParams) (dev : ℕ) (w : W) (path : Text)
      → host.crypt.init source s.world ≡ (ok dev, w)
      → (format_with host c source params s).0 ≡ done path
      → (w' : W) × ((format_with host c source params s).1.world ≡ (host.crypt.free dev w').1)
  unfolding format_with
  format_with_frees params dev w path hi h = formatted (host.crypt.format dev params w) refl
    where
      keyed :
          (w₁ : W) (r : Result (Unit {0}) × W)
          → host.crypt.format dev params w ≡ (ok tt, w₁)
          → host.crypt.keyslot_add_by_volume_key dev c.encryption_key w₁ ≡ r
          → (w' : W) × ((format_with host c source params s).1.world ≡ (host.crypt.free dev w').1)
      keyed w₁ (ok u, w₂) e k = (
        (host.crypt.activate_by_passphrase dev c.volume_name c.encryption_key w₂).1,
        ground arith,
      )
      keyed w₁ (err x, w₂) e k = absurd (ground arith)

      formatted :
          (r : Result (Unit {0}) × W)
          → host.crypt.format dev params w ≡ r
          → (w' : W) × ((format_with host c source params s).1.world ≡ (host.crypt.free dev w').1)
      formatted (ok u, w₁) e =
          keyed w₁ (host.crypt.keyslot_add_by_volume_key dev c.encryption_key w₁) e refl
      formatted (err x, w₁) e = absurd (ground arith)

  -- A success of `format_with` initialised a device, and ended by freeing it.
  format_with-done :
      (params : GenericParams) (path : Text)
      → (format_with host c source params s).0 ≡ done path
      → (dev : ℕ) × (w : W) × (w' : W) × (host.crypt.init source s.world ≡ (ok dev, w))
        × ((format_with host c source params s).1.world ≡ (host.crypt.free dev w').1)
  unfolding format_with
  format_with-done params path h = at (host.crypt.init source s.world) refl
    where
      at :
          (r : Result ℕ × W)
          → host.crypt.init source s.world ≡ r
          → (dev : ℕ) × (w : W) × (w' : W) × (host.crypt.init source s.world ≡ (ok dev, w))
            × ((format_with host c source params s).1.world ≡ (host.crypt.free dev w').1)
      at (ok dev, w) e = (
        dev,
        w,
        (format_with_frees params dev w path e h).0,
        e,
        (format_with_frees params dev w path e h).1,
      )
      at (err x, w) e = absurd (ground arith)

  -- Whatever the settings are and whatever libcryptsetup answers: if luksFormat succeeds, then it
  -- could initialise a device, and the last that it did is to free it.
  pub luks_format_frees :
      (path : Text) (s' : State W)
      → luks_format host c source s ≡ (done path, s')
      → (dev : ℕ) × (w : W) × (w' : W) × (host.crypt.init source s.world ≡ (ok dev, w))
        × (s'.world ≡ (host.crypt.free dev w').1)
  unfolding luks_format
  luks_format_frees path s' h =
      at (key_size_of c.encryption_key_size) refl (split_pair b'-' c.encryption_cipher) refl
    where
      at :
          (k : Result ℤ)
          → key_size_of c.encryption_key_size ≡ k
          → (o : Option (Text × Text)) → split_pair b'-' c.encryption_cipher ≡ o
          → (dev : ℕ) × (w : W) × (w' : W) × (host.crypt.init source s.world ≡ (ok dev, w))
            × (s'.world ≡ (host.crypt.free dev w').1)
      at (ok n) hk (some (cipher, mode)) ho =
          let params : GenericParams = record {
            cipher = cipher;
            cipher_mode = mode;
            volume_key = c.encryption_key;
            volume_key_size = bytes_of_bits n;
          } in
          let run : luks_format host c source s ≡ format_with host c source params s =
            ground arith in
          let ended : format_with host c source params s ≡ (done path, s') = sym run ∙ h in
          let (dev, w, w', e, freed) = format_with-done params path (ap (λ r. r.0) ended) in
          (dev, w, w', e, ap (λ r. r.1.world) (sym ended) ∙ freed)
      at (ok n) hk none ho = absurd (ground arith)
      at (err x) hk o ho = absurd (ground arith)
