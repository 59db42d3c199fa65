-- ===== src/Host.antt =====
-- The node that the driver runs on, as the driver sees it: the file system (pkg/filesystem, which
-- hands each call to Go's os package), the mounter of k8s.io/mount-utils, the commands that it runs
-- and libcryptsetup (pkg/cryptsetup-client). None of these is part of the repository, so each is a
-- parameter over an outside world `W`. An open file and a crypt device are given by a handle.
pub mod Frame
use linode_blockstorage_csi.Common.{ℕ, ℤ, Text, Option, List, Bool}
use linode_blockstorage_csi.Errors.{GoError}
use linode_blockstorage_csi.Effect.{Result}

-- filesystem.FileSystem; `open_file` is a call with os.O_CREATE, `open_for_reading` is Open, a permission is
-- its bits, and `read` is io.ReadAll of a file with a limit of bytes.
pub record FileSystem (W : Type 0) : Type 0 where
  pub mkdir_all : Text → ℕ → W → Result (Unit {0}) × W
  pub stat : Text → W → Result (Unit {0}) × W
  pub remove : Text → W → Result (Unit {0}) × W
  pub open_file : Text → ℕ → W → Result ℕ × W
  pub open_for_reading : Text → W → Result ℕ × W
  pub read : ℕ → ℕ → W → Result Text × W
  pub close : ℕ → W → Result (Unit {0}) × W
  pub glob : Text → W → Result (List Text) × W
  pub eval_symlinks : Text → W → Result Text × W
  pub is_not_exist : GoError → Bool

-- mount.SafeFormatAndMount and mount.CleanupMountPoint; the first reply has both parts.
pub record Mounter (W : Type 0) : Type 0 where
  pub is_likely_not_mount_point : Text → W → (Bool × Option GoError) × W
  pub mount : Text → Text → Text → List Text → W → Result (Unit {0}) × W
  pub format_and_mount : Text → Text → Text → List Text → W → Result (Unit {0}) × W
  pub cleanup_mount_point : Text → W → Result (Unit {0}) × W

-- exec.Interface; `exit_status` is the status of an error that is an ExitError.
pub record Executor (W : Type 0) : Type 0 where
  pub look_path : Text → W → Result (Unit {0}) × W
  pub run : Text → List Text → W → Result (Unit {0}) × W
  pub is_exec_not_found : GoError → Bool
  pub exit_status : GoError → Option ℤ

-- cryptsetup.GenericParams
pub record GenericParams : Type 0 where
  pub cipher : Text
  pub cipher_mode : Text
  pub volume_key : Text
  pub volume_key_size : ℤ

-- CryptSetupClient and Device; `error_code` is the code of an error that is a *cryptsetup.Error.
pub record CryptSetup (W : Type 0) : Type 0 where
  pub init : Text → W → Result ℕ × W
  pub init_by_name : Text → W → Result ℕ × W
  pub format : ℕ → GenericParams → W → Result (Unit {0}) × W
  pub keyslot_add_by_volume_key : ℕ → Text → W → Result (Unit {0}) × W
  pub activate_by_passphrase : ℕ → Text → Text → W → Result (Unit {0}) × W
  pub load : ℕ → W → Result (Unit {0}) × W
  pub deactivate : ℕ → Text → W → Result (Unit {0}) × W
  pub free : ℕ → W → Bool × W
  pub error_code : GoError → Option ℤ

pub record Host (W : Type 0) : Type 0 where
  pub fs : FileSystem W
  pub mounter : Mounter W
  pub exec : Executor W
  pub crypt : CryptSetup W
