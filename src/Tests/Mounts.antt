-- ===== src/Tests/Mounts.antt =====
-- A node in memory whose world is its mounts, mappings and headers, with one disk.
use linode_blockstorage_csi.Common.{
  ℕ, pos, Text, codes, text_eq, text_eq_sound, ◌≢◌, ◌⊎◌, ap, Option, none, some, Bool, true, false,
  List, [], ◌∷◌, ◌≡◌, refl, Bool-cases, inl, inr, sym, if◌then◌else◌,
}
use linode_blockstorage_csi.Errors.{GoError, foreign}
use linode_blockstorage_csi.Effect.{Result, ok, err, State}
use linode_blockstorage_csi.Host.{Host}
use linode_blockstorage_csi.Host.Frame.{
  NodeFrame, NodeView, Content, target, mapping, header, mounted, mapped, luks_header, put,
}
use linode_blockstorage_csi.Tests.Machine.{machine, disk}

abbrev is_nil : List Content → Bool
is_nil [] = true
is_nil (x ∷ l) = false

-- At "/new" there is nothing until something is mounted there.
abbrev absent : Text → List Content → Option GoError
absent p [] = if text_eq p (codes "/new") then some (foreign (pos 2)) else none
absent p (x ∷ l) = none

abbrev unmount : Text → List Content → NodeView → Result (Unit {0}) × NodeView
unmount path [] w = (err (foreign (pos 22)), w)
unmount path (x ∷ l) w = (ok tt, put (target path) l w)

-- A file on which mounts are made and taken away.
abbrev pub table : Host NodeView
table = record {
  fs = record {
    mkdir_all = λ p m w. (ok tt, w);
    stat = λ p w. ((if text_eq p disk then ok tt else err (foreign (pos 2))), w);
    remove = λ p w. (ok tt, w);
    open_file = λ p m w. (ok 7, w);
    open_for_reading = λ p w. (ok 8, w);
    read = λ f n w. (ok (codes "5"), w);
    close = λ f w. (ok tt, w);
    glob = λ p w. (ok [], w);
    eval_symlinks = λ p w. (ok p, w);
    is_not_exist = machine.fs.is_not_exist;
  };
  mounter = record {
    is_likely_not_mount_point = λ p w. ((is_nil (w (target p)), absent p (w (target p))), w);
    mount = λ d p t o w. (ok tt, put (target p) (mounted d t o ∷ w (target p)) w);
    format_and_mount = λ d p t o w. (ok tt, put (target p) (mounted d t o ∷ w (target p)) w);
    cleanup_mount_point = λ p w. unmount p (w (target p)) w;
  };
  exec = record {
    look_path = λ p w. (ok tt, w);
    run = λ p a w. ((if is_nil (w (header disk)) then err (foreign (pos 1)) else ok tt), w);
    is_exec_not_found = λ e. false;
    exit_status = λ e. some (pos 2);
  };
  crypt = record {
    init = λ p w. ((if text_eq p disk then ok 4 else err (foreign (pos 19))), w);
    init_by_name = λ n w. ((if is_nil (w (mapping n)) then err (foreign (pos 19)) else ok 4), w);
    format = λ d p w. (ok tt, put (header disk) (luks_header p ∷ []) w);
    keyslot_add_by_volume_key = λ d k w. (ok tt, w);
    activate_by_passphrase = λ d n k w. (ok tt, put (mapping n) (mapped disk ∷ []) w);
    load = λ d w. (ok tt, w);
    deactivate = λ d n w. (ok tt, put (mapping n) [] w);
    free = λ d w. (true, w);
    error_code = λ e. none;
  };
}

err_not_ok : (e : GoError) {n : ℕ} → err e ≢ ok n
err_not_ok e h = cc

pub is_disk :
    (d : Text) (w w' : NodeView) (dev : ℕ) → (table.crypt.init d w) ≡ (ok dev, w') → disk ≡ d
is_disk d w w' dev e = elim (Bool-cases (text_eq d disk)) [
  | inl h ↦ sym (text_eq_sound d disk h)
  | inr h ↦ absurd (err_not_ok _ (ap (λ r. r.0) (rw h at e)))
]

pub unmounted :
    (path : Text) (l : List Content) (w : NodeView)
    → w (target path) ≡ l
    → ((unmount path l w).1 ≡ w)
      ⊎ ((x : Content) × (l' : List Content) × (w (target path) ≡ x ∷ l')
          × ((unmount path l w).1 ≡ put (target path) l' w))
unmounted path [] w e = inl refl
unmounted path (x ∷ l) w e = inr (x, l, e, refl)

abbrev pub table_frame : NodeFrame table
table_frame = record {
  view = λ w. w;
  device_of = λ dev. disk;
  mkdir_all_keeps = λ p m w. refl;
  stat_keeps = λ p w. refl;
  remove_keeps = λ p w. refl;
  open_file_keeps = λ p m w. refl;
  close_keeps = λ f w. refl;
  glob_keeps = λ p w. refl;
  eval_symlinks_keeps = λ p w. refl;
  is_likely_not_mount_point_keeps = λ p w. refl;
  look_path_keeps = λ p w. refl;
  udevadm_keeps = λ args w. refl;
  blkid_keeps = λ args w. refl;
  init_keeps = λ d w. refl;
  init_by_name_keeps = λ n w. refl;
  keyslot_add_keeps = λ dev key w. refl;
  load_keeps = λ dev w. refl;
  free_keeps = λ dev w. refl;
  init_sound = λ d w w' dev e. is_disk d w w' dev e;
  mount_mounts = λ d p t o w. inr refl;
  format_and_mount_mounts = λ d p t o w. inr refl;
  cleanup_unmounts = λ p w. unmounted p (w (target p)) w refl;
  format_writes = λ dev p w. inr refl;
  activate_maps = λ dev n key w. inr refl;
  deactivate_unmaps = λ dev n w. inr refl;
}

-- Nothing is mounted.
abbrev pub bare : State NodeView
bare = record { world = λ q. []; samples = [] }
