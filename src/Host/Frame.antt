-- ===== src/Host/Frame.antt =====
-- What the outside code of the node documents of every call, whether it succeeds or not, on a view
-- of the machine: the mounts of each target path, the newest first, what each device-mapper name
-- stands for, and the LUKS header of each device. A call changes one place in the one way that it
-- names, or nothing (it may do the former and still answer with an error). Whether a path is a mount
-- point is only likely, so nothing is asked of that answer.
use linode_blockstorage_csi.Common.{
  ℕ, Text, codes, text_eq, text_eq_refl, text_eq_sound, List, [], ◌∷◌, Bool, true, false, ◌≡◌, ap,
  ◌⊎◌, if◌then◌else◌,
}
use linode_blockstorage_csi.Effect.{ok}
use linode_blockstorage_csi.Host.{Host, GenericParams}

pub data Place : Type 0 where
  target : Text → Place
  mapping : Text → Place
  header : Text → Place

-- A mount of a source with a file system type and options, the device behind a mapping, and a LUKS
-- header.
pub data Content : Type 0 where
  mounted : Text → Text → List Text → Content
  mapped : Text → Content
  luks_header : GenericParams → Content

abbrev pub NodeView : Type 0
NodeView = Place → List Content

abbrev pub place_eq : Place → Place → Bool
place_eq (target p) (target q) = text_eq p q
place_eq (mapping p) (mapping q) = text_eq p q
place_eq (header p) (header q) = text_eq p q
place_eq _ _ = false

pub place_eq_refl : (q : Place) → place_eq q q ≡ true
place_eq_refl (target p) = text_eq_refl p
place_eq_refl (mapping p) = text_eq_refl p
place_eq_refl (header p) = text_eq_refl p

pub place_eq_sound : (p q : Place) → place_eq p q ≡ true → p ≡ q
place_eq_sound (target p) (target q) h = ap target (text_eq_sound p q h)
place_eq_sound (target p) (mapping q) h = absurd cc
place_eq_sound (target p) (header q) h = absurd cc
place_eq_sound (mapping p) (target q) h = absurd cc
place_eq_sound (mapping p) (mapping q) h = ap mapping (text_eq_sound p q h)
place_eq_sound (mapping p) (header q) h = absurd cc
place_eq_sound (header p) (target q) h = absurd cc
place_eq_sound (header p) (mapping q) h = absurd cc
place_eq_sound (header p) (header q) h = ap header (text_eq_sound p q h)

-- The view in which `p` holds `l`, and every other place what it held.
abbrev pub put : Place → List Content → NodeView → NodeView
put p l u q = if place_eq q p then l else u q

pub record NodeFrame {W : Type 0} (host : Host W) : Type 0 where
  pub view : W → NodeView
  -- The device that a handle was made for.
  pub device_of : ℕ → Text
  pub mkdir_all_keeps : (p : Text) (m : ℕ) (w : W) → view (host.fs.mkdir_all p m w).1 ≡ view w
  pub stat_keeps : (p : Text) (w : W) → view (host.fs.stat p w).1 ≡ view w
  pub remove_keeps : (p : Text) (w : W) → view (host.fs.remove p w).1 ≡ view w
  pub open_file_keeps : (p : Text) (m : ℕ) (w : W) → view (host.fs.open_file p m w).1 ≡ view w
  pub close_keeps : (f : ℕ) (w : W) → view (host.fs.close f w).1 ≡ view w
  pub glob_keeps : (p : Text) (w : W) → view (host.fs.glob p w).1 ≡ view w
  pub eval_symlinks_keeps : (p : Text) (w : W) → view (host.fs.eval_symlinks p w).1 ≡ view w
  pub is_likely_not_mount_point_keeps :
      (p : Text) (w : W) → view (host.mounter.is_likely_not_mount_point p w).1 ≡ view w
  pub look_path_keeps : (p : Text) (w : W) → view (host.exec.look_path p w).1 ≡ view w
  pub udevadm_keeps :
      (args : List Text) (w : W) → view (host.exec.run (codes "udevadm") args w).1 ≡ view w
  pub blkid_keeps :
      (args : List Text) (w : W) → view (host.exec.run (codes "blkid") args w).1 ≡ view w
  pub init_keeps : (d : Text) (w : W) → view (host.crypt.init d w).1 ≡ view w
  pub init_by_name_keeps : (n : Text) (w : W) → view (host.crypt.init_by_name n w).1 ≡ view w
  pub keyslot_add_keeps :
      (dev : ℕ) (key : Text) (w : W)
      → view (host.crypt.keyslot_add_by_volume_key dev key w).1 ≡ view w
  pub load_keeps : (dev : ℕ) (w : W) → view (host.crypt.load dev w).1 ≡ view w
  pub free_keeps : (dev : ℕ) (w : W) → view (host.crypt.free dev w).1 ≡ view w
  -- A handle that is returned is one for the device.
  pub init_sound :
      (d : Text) (w w' : W) (dev : ℕ) → host.crypt.init d w ≡ (ok dev, w') → device_of dev ≡ d
  -- A new mount covers the ones before it, and unmounting takes away the newest.
  pub mount_mounts :
      (source path fs_type : Text) (options : List Text) (w : W)
      → (view (host.mounter.mount source path fs_type options w).1 ≡ view w)
        ⊎ (view (host.mounter.mount source path fs_type options w).1
            ≡ put (target path) (mounted source fs_type options ∷ view w (target path)) (view w))
  pub format_and_mount_mounts :
      (source path fs_type : Text) (options : List Text) (w : W)
      → (view (host.mounter.format_and_mount source path fs_type options w).1 ≡ view w)
        ⊎ (view (host.mounter.format_and_mount source path fs_type options w).1
            ≡ put (target path) (mounted source fs_type options ∷ view w (target path)) (view w))
  pub cleanup_unmounts :
      (path : Text) (w : W)
      → (view (host.mounter.cleanup_mount_point path w).1 ≡ view w)
        ⊎ ((x : Content) × (l : List Content) × (view w (target path) ≡ x ∷ l)
            × (view (host.mounter.cleanup_mount_point path w).1 ≡ put (target path) l (view w)))
  pub format_writes :
      (dev : ℕ) (params : GenericParams) (w : W)
      → (view (host.crypt.format dev params w).1 ≡ view w)
        ⊎ (view (host.crypt.format dev params w).1
            ≡ put (header (device_of dev)) (luks_header params ∷ []) (view w))
  pub activate_maps :
      (dev : ℕ) (name key : Text) (w : W)
      → (view (host.crypt.activate_by_passphrase dev name key w).1 ≡ view w)
        ⊎ (view (host.crypt.activate_by_passphrase dev name key w).1
            ≡ put (mapping name) (mapped (device_of dev) ∷ []) (view w))
  pub deactivate_unmaps :
      (dev : ℕ) (name : Text) (w : W)
      → (view (host.crypt.deactivate dev name w).1 ≡ view w)
        ⊎ (view (host.crypt.deactivate dev name w).1 ≡ put (mapping name) [] (view w))
