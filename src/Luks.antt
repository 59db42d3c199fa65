-- ===== src/Luks.antt =====
-- internal/driver/luks.go: the LUKS settings of a volume, and how its device is formatted, opened
-- and closed.
pub mod Calm
pub mod Leads
pub mod Returns
pub mod Laws
pub mod Metrics
use linode_blockstorage_csi.Common.{
  ℕ, zero, suc, ◌+◌, ◌/◌, ℤ, pos, negsuc, ◌==ℤ◌, Text, codes, text_eq, is_empty, split_pair, atoi,
  Dict, get, Option, none, some, List, [], ◌∷◌, ◌++◌, Bool, true, false, if◌then◌else◌,
}
use linode_blockstorage_csi.Errors.{GoError, plain, end, text, texts, cause}
use linode_blockstorage_csi.Effect.{
  Result, ok, err, Outcome, panicked, M, pure, fail, lift, deref, call, tell, ◌>>=◌, ◌>>◌, finally,
}
use linode_blockstorage_csi.Host.{Host, GenericParams}

abbrev pub luks_encrypted_attribute : Text
luks_encrypted_attribute = codes "linodebs.csi.linode.com/luks-encrypted"

abbrev pub luks_cipher_attribute : Text
luks_cipher_attribute = codes "linodebs.csi.linode.com/luks-cipher"

abbrev pub luks_key_size_attribute : Text
luks_key_size_attribute = codes "linodebs.csi.linode.com/luks-key-size"

abbrev pub luks_key_attribute : Text
luks_key_attribute = codes "luksKey"

-- PublishInfoVolumeName and True, which the controller service uses too.
abbrev pub publish_info_volume_name : Text
publish_info_volume_name = codes "linodebs.csi.linode.com/volume-name"

abbrev pub true_text : Text
true_text = codes "true"

-- LuksContext; the life cycle is only logged, and left out.
pub record LuksContext : Type 0 where
  pub encryption_enabled : Bool
  pub encryption_key : Text
  pub encryption_cipher : Text
  pub encryption_key_size : Text
  pub volume_name : Text

-- The messages that are joined, in order.
unfoldable pub luks_problems : LuksContext → List Text
luks_problems c =
    (if is_empty c.volume_name then codes "no volume name provided" ∷ [] else [])
    ++ ((if is_empty c.encryption_key then codes "no encryption key provided" ∷ [] else [])
        ++ ((if is_empty c.encryption_cipher
              then codes "no encryption cipher provided" ∷ []
              else [])
            ++ (if is_empty c.encryption_key_size
                then codes "no encryption key size provided" ∷ []
                else [])))

-- `errors.Join`: no message is no error.
joined : List Text → Result (Unit {0})
joined [] = ok tt
joined (p ∷ ps) = err (plain "errors.Join" (texts (p ∷ ps) end))

unfoldable pub validate : LuksContext → Result (Unit {0})
unfolding luks_problems joined
validate c = if c.encryption_enabled then joined (luks_problems c) else ok tt

unfoldable pub get_luks_context : Dict → Dict → LuksContext
get_luks_context secrets context =
    if text_eq (get luks_encrypted_attribute context) true_text
    then record {
      encryption_enabled = true;
      encryption_key = get luks_key_attribute secrets;
      encryption_cipher = get luks_cipher_attribute context;
      encryption_key_size = get luks_key_size_attribute context;
      volume_name = get publish_info_volume_name context;
    }
    else record {
      encryption_enabled = false;
      encryption_key = [];
      encryption_cipher = [];
      encryption_key_size = [];
      volume_name = [];
    }

unfoldable pub mapper_path : Text → Text
mapper_path name = codes "/dev/mapper/" ++ name

-- Go's division by 8 rounds towards zero.
negated : ℕ → ℤ
negated zero = pos 0
negated (suc n) = negsuc n

unfoldable pub bytes_of_bits : ℤ → ℤ
unfolding negated
bytes_of_bits (pos n) = pos (n / 8)
bytes_of_bits (negsuc n) = negated (suc n / 8)

key_size_of : Text → Result ℤ
key_size_of s = elim (atoi s) [
  | none ↦ err (plain "keysize str to int coversion: %w" (text s end))
  | some n ↦ ok n
]

module _ {W : Type 0} (host : Host W) where
  -- `device.Free()`, whose result is not looked at.
  free : ℕ → M W (Unit {0})
  free dev = tell (host.crypt.free dev) >> pure tt

  activate : LuksContext → Text → ℕ → M W (Unit {0})
  activate c source dev =
      call
        (λ e.
          plain "activating %s luks device %s volumekey %s: %w"
            (text source (text c.volume_name (text c.encryption_key (cause e end)))))
        (host.crypt.activate_by_passphrase dev c.volume_name c.encryption_key)

  -- From the parameters on. The device is freed at the end only once its key slot is added.
  format_with : LuksContext → Text → GenericParams → M W Text
  unfolding free activate
  format_with c source params = do
    dev ←
        call (λ e. plain "initializing luks device to format: %w" (cause e end))
          (host.crypt.init source)
    call (λ e. plain "formatting luks device: %w" (cause e end)) (host.crypt.format dev params)
    call (λ e. plain "adding keysot by volumekey: %w" (cause e end))
        (host.crypt.keyslot_add_by_volume_key dev c.encryption_key)
    finally (free dev) (activate c source dev >> pure (mapper_path c.volume_name))

  -- `cipherString[1]` is out of range where the cipher has no dash.
  unfoldable pub luks_format : LuksContext → Text → M W Text
  unfolding key_size_of format_with bytes_of_bits
  luks_format c source = do
    key_size ← lift (key_size_of c.encryption_key_size)
    (cipher, mode) ← deref (split_pair b'-' c.encryption_cipher)
    format_with c source (record {
      cipher = cipher;
      cipher_mode = mode;
      volume_key = c.encryption_key;
      volume_key_size = bytes_of_bits key_size;
    })

  -- A device that is active already (code -17) counts as opened.
  is_active : GoError → Bool
  is_active e = elim (host.crypt.error_code e) [ none ↦ false | some n ↦ n ==ℤ negsuc 16 ]

  activated : LuksContext → Text → Result (Unit {0}) → M W Text
  unfolding is_active
  activated c source (ok _) = pure (mapper_path c.volume_name)
  activated c source (err e) =
      if is_active e
      then pure (mapper_path c.volume_name)
      else fail (
          plain "activating %s luks device %s volumekey %s: %w"
            (text source (text c.volume_name (text c.encryption_key (cause e end)))))

  load_and_activate : LuksContext → Text → ℕ → M W Text
  unfolding activated
  load_and_activate c source dev = do
    call
        (λ e.
          plain "Loading %s luks device %s volumekey %s: %w"
            (text source (text c.volume_name (text c.encryption_key (cause e end)))))
        (host.crypt.load dev)
    r ← tell (host.crypt.activate_by_passphrase dev c.volume_name c.encryption_key)
    activated c source r

  unfoldable pub luks_open : LuksContext → Text → M W Text
  unfolding free load_and_activate
  luks_open c source = do
    dev ←
        call (λ e. plain "initializing luks device to open: %w" (cause e end))
          (host.crypt.init source)
    finally (free dev) (load_and_activate c source dev)

  released : Bool → M W (Unit {0})
  released true = pure tt
  released false = fail (plain "could not release/free the luks device" end)

  -- A name that no active device has is passed over.
  close_found : Text → Result ℕ → M W (Unit {0})
  unfolding released
  close_found name (err e) = pure tt
  close_found name (ok dev) = do
    call (λ e. plain "deactivating %s luks device: %w" (text name (cause e end)))
        (host.crypt.deactivate dev name)
    r ← tell (host.crypt.free dev)
    released r

  unfoldable pub luks_close : Text → M W (Unit {0})
  unfolding close_found
  luks_close name = do r ← tell (host.crypt.init_by_name name); close_found name r

  blkid_result : Text → Result (Unit {0}) → Result Bool
  blkid_result source (ok _) = ok true
  blkid_result source (err e) = elim (host.exec.exit_status e) [
    | none ↦ err (plain "checking blkdid failed: %w cmd: %q, args: %q" (cause e (text source end)))
    | some n ↦ if n ==ℤ pos 2 then ok false else err (plain "checking blkdid failed" end)
  ]

  blkid_missing : GoError → GoError
  blkid_missing e =
      if host.exec.is_exec_not_found e
      then plain "%q executable invalid" (text (codes "blkid") end)
      else e

  -- Whether the device is formatted already.
  unfoldable pub blkid_valid : Text → M W Bool
  unfolding blkid_result blkid_missing
  blkid_valid [] = fail (plain "invalid source" end)
  blkid_valid (c ∷ source) = do
    call blkid_missing (host.exec.look_path (codes "blkid"))
    r ← tell (host.exec.run (codes "blkid") ((c ∷ source) ∷ []))
    lift (blkid_result (c ∷ source) r)
