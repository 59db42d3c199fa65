-- ===== src/Node/Stage/Safety.antt =====
-- What staging leaves alone.
use linode_blockstorage_csi.Common.{ℕ, Text, true, [], ◌∷◌, ◌≡◌, refl, arith}
use linode_blockstorage_csi.Effect.{Result, done, State}
use linode_blockstorage_csi.Host.{Host, GenericParams}
use linode_blockstorage_csi.Luks.{LuksContext, blkid_valid, luks_open}
use linode_blockstorage_csi.Node.Stage.{format_luks_volume}

module _ {W : Type 0} (host : Host W) (format : ℕ → GenericParams → W → Result (Unit {0}) × W)
    (device : Text) (c : LuksContext) (s s' : State W) where
  -- The host on which formatting does something else.
  abbrev reformatting : Host W
  reformatting = record host { crypt = record host.crypt { format = format } }

  blkid_same : (device : Text) → blkid_valid reformatting device s ≡ blkid_valid host device s
  unfolding blkid_valid
  blkid_same [] = refl
  blkid_same (x ∷ device) = refl

  luks_open_same : luks_open reformatting c device s' ≡ luks_open host c device s'
  unfolding luks_open
  luks_open_same = refl

  -- A device on which blkid finds something is never formatted: the run is the same, whatever
  -- formatting would do.
  pub format_luks_volume_keeps :
      blkid_valid host device s ≡ (done true, s')
      → format_luks_volume
          (record host { crypt = record host.crypt { format = format } })
          device
          c
          s
        ≡ format_luks_volume host device c s
  unfolding format_luks_volume
  format_luks_volume_keeps h = ground (arith, blkid_same device, luks_open_same)
