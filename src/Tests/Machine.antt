-- ===== src/Tests/Machine.antt =====
-- A node in memory: its world is the number of crypt devices that are held.
use linode_blockstorage_csi.Common.{
  ℕ, suc, ◌-◌, pos, ◌==ℤ◌, Text, codes, text_eq, none, Bool, true, false, [], ◌≡◌, refl, Bool-cases,
  inl, inr, if◌then◌else◌,
}
use linode_blockstorage_csi.Errors.{GoError, foreign}
use linode_blockstorage_csi.Effect.{Result, ok, err, State}
use linode_blockstorage_csi.Host.{Host, FileSystem, Mounter, Executor, CryptSetup}
use linode_blockstorage_csi.Devices.{stat_result}
use linode_blockstorage_csi.Luks.{LuksContext}

abbrev is_missing : GoError → Bool
is_missing (foreign n) = n ==ℤ pos 2
is_missing _ = false

-- The one path that exists.
abbrev pub disk : Text
disk = codes "/dev/disk/by-id/scsi-0Linode_Volume_pvc"

abbrev pub on_node : Text → Bool
on_node p = text_eq p disk

abbrev pub stat_reply : Text → Result (Unit {0})
stat_reply p = if on_node p then ok tt else err (foreign (pos 2))

abbrev file_system : FileSystem ℕ
file_system = record {
  mkdir_all = λ p m w. (ok tt, w);
  stat = λ p w. (stat_reply p, w);
  remove = λ p w. (ok tt, w);
  open_file = λ p m w. (err (foreign (pos 13)), w);
  open_for_reading = λ p w. (ok 8, w);
  read = λ f n w. (ok (codes "5"), w);
  close = λ f w. (ok tt, w);
  glob = λ p w. (ok [], w);
  eval_symlinks = λ p w. (ok p, w);
  is_not_exist = is_missing;
}

abbrev mounter : Mounter ℕ
mounter = record {
  is_likely_not_mount_point = λ p w. ((true, none), w);
  mount = λ d p t o w. (ok tt, w);
  format_and_mount = λ d p t o w. (ok tt, w);
  cleanup_mount_point = λ p w. (ok tt, w);
}

abbrev executor : Executor ℕ
executor = record {
  look_path = λ p w. (ok tt, w);
  run = λ p a w. (ok tt, w);
  is_exec_not_found = λ e. false;
  exit_status = λ e. none;
}

-- Formatting fails, and no device is active.
abbrev crypt_setup : CryptSetup ℕ
crypt_setup = record {
  init = λ p w. (ok 4, suc w);
  init_by_name = λ n w. (err (foreign (pos 19)), w);
  format = λ d p w. (err (foreign (pos 22)), w);
  keyslot_add_by_volume_key = λ d k w. (ok tt, w);
  activate_by_passphrase = λ d n k w. (ok tt, w);
  load = λ d w. (ok tt, w);
  deactivate = λ d n w. (ok tt, w);
  free = λ d w. (true, w - 1);
  error_code = λ e. none;
}

abbrev pub machine : Host ℕ
machine = record { fs = file_system; mounter = mounter; exec = executor; crypt = crypt_setup }

abbrev pub idle : State ℕ
idle = record { world = 0; samples = [] }

pub stat_says : (p : Text) → stat_result machine (stat_reply p) ≡ ok (on_node p)
unfolding stat_result
stat_says p = elim (Bool-cases (on_node p)) [ inl h ↦ rw h refl | inr h ↦ rw h refl ]

-- The settings of an encrypted volume.
abbrev pub luks : Text → LuksContext
luks cipher = record {
  encryption_enabled = true;
  encryption_key = codes "secret";
  encryption_cipher = cipher;
  encryption_key_size = codes "512";
  volume_name = codes "pvc";
}
