-- ===== src/Node/Life.antt =====
-- A volume on a node that works: staged, published, unpublished and unstaged.
pub mod Steps
pub mod Cycle
use linode_blockstorage_csi.Common.{
  Text, codes, List, [], ◌∷◌, All, Bool, true, false, Option, none, some, ◌≡◌, ◌⊎◌,
}
use linode_blockstorage_csi.Errors.{GoError}
use linode_blockstorage_csi.Effect.{Result, ok, err}
use linode_blockstorage_csi.Devices.{stat_result}
use linode_blockstorage_csi.Host.{Host}
use linode_blockstorage_csi.Host.Frame.{NodeFrame, target, mapping, Content, mounted, put}
use linode_blockstorage_csi.Node.{rw_permission}

-- The device links among the paths: a stat of each of them says whether it is there, the same at
-- every moment, and the empty path is not there.
pub record Links {W : Type 0} (host : Host W) (ps : List Text) : Type 0 where
  pub exists : Text → Bool
  pub stat_reply : Text → Result (Unit {0})
  pub stats : All (λ p. (w : W) → host.fs.stat p w ≡ (stat_reply p, w)) ps
  pub says : All (λ p. stat_result host (stat_reply p) ≡ ok (exists p)) ps
  pub no_empty_path : exists [] ≡ false

-- What a path that can be mounted on is found to be while nothing is mounted there: a directory, or
-- missing, which is an error that says so, and then the directory can be made. `there` says that the
-- directory is there.
pub data IsFree {W : Type 0} (host : Host W) (there : W → Text → Type 0) (p : Text) (w : W)
    : Type 0 where
  directory :
      (w' : W)
      → host.mounter.is_likely_not_mount_point p w ≡ ((true, none), w')
      → there w' p
      → IsFree host there p w
  missing :
      (e : GoError) (w' w'' : W)
      → host.mounter.is_likely_not_mount_point p w ≡ ((true, some e), w')
      → host.fs.is_not_exist e ≡ true
      → host.fs.mkdir_all p rw_permission w' ≡ (ok tt, w'')
      → there w'' p
      → IsFree host there p w

-- The options of a bind mount.
abbrev pub IsBind : List Text → Type 0
IsBind options = (options ≡ codes "bind" ∷ []) ⊎ (options ≡ codes "bind" ∷ codes "ro" ∷ [])

-- What a machine that works does. A `usable` path is, while nothing is mounted there, an empty
-- directory, or missing and one that can be made; a `mountable` device holds a file system of the
-- type, or can be formatted with it, and takes the options. On a usable path a mountable device can
-- be mounted, and a directory on which something is mounted can be bound to it; the only mount of a
-- usable path can be taken away; and there is no crypt device under a name that is not mapped.
pub record Works {W : Type 0} {host : Host W} (frame : NodeFrame host) : Type 1 where
  pub usable : Text → Type 0
  pub there : W → Text → Type 0
  pub mountable : Text → Text → List Text → Type 0
  pub not_mounted :
      (p : Text) (w : W) → usable p → frame.view w (target p) ≡ [] → IsFree host there p w
  pub bind_works :
      (source p fs_type : Text) (options : List Text) (x : Content) (l : List Content) (w : W)
      → frame.view w (target source) ≡ x ∷ l
      → IsBind options
      → there w p
      → (w' : W) × (host.mounter.mount source p fs_type options w ≡ (ok tt, w'))
        × (frame.view w'
            ≡ put
                (target p)
                (mounted source fs_type options ∷ frame.view w (target p))
                (frame.view w))
  pub format_and_mount_works :
      (source p fs_type : Text) (options : List Text) (w : W)
      → mountable source fs_type options
      → there w p
      → (w' : W) × (host.mounter.format_and_mount source p fs_type options w ≡ (ok tt, w'))
        × (frame.view w'
            ≡ put
                (target p)
                (mounted source fs_type options ∷ frame.view w (target p))
                (frame.view w))
  pub cleanup_works :
      (p : Text) (x : Content) (w : W)
      → usable p
      → frame.view w (target p) ≡ x ∷ []
      → (w' : W) × (host.mounter.cleanup_mount_point p w ≡ (ok tt, w'))
        × (frame.view w' ≡ put (target p) [] (frame.view w))
  pub unknown_mapping :
      (name : Text) (w : W)
      → frame.view w (mapping name) ≡ []
      → (e : GoError) × (w' : W) × (host.crypt.init_by_name name w ≡ (err e, w'))
