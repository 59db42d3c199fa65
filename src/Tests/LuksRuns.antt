-- ===== src/Tests/LuksRuns.antt =====
-- The theorems on devices and LUKS on the small node.
use linode_blockstorage_csi.Common.{ℕ, codes, text_eq, split_pair, atoi, ◌≡◌, refl}
use linode_blockstorage_csi.Effect.{done, ok}
use linode_blockstorage_csi.Host.Frame.{NodeView}
use linode_blockstorage_csi.Tests.Mounts.{table, bare}
use linode_blockstorage_csi.Luks.{mapper_path, luks_format, luks_open}
use linode_blockstorage_csi.Luks.Laws.{luks_open_frees, luks_format_frees}
use linode_blockstorage_csi.Tests.Machine.{luks, machine, idle, disk}

luks_open_frees_example :
    (w' : ℕ) × ((luks_open machine (luks (codes "aes-xts")) disk idle).1.world
      ≡ (machine.crypt.free 4 w').1)
luks_open_frees_example = luks_open_frees machine (luks (codes "aes-xts")) disk idle 4 1 refl

formatted :
    luks_format table (luks (codes "aes-xts")) disk bare
    ≡ (done (codes "/dev/mapper/pvc"), (luks_format table (luks (codes "aes-xts")) disk bare).1)
unfolding luks_format mapper_path atoi split_pair text_eq
formatted = refl

luks_format_frees_example :
    (dev : ℕ) × (w : NodeView) × (w' : NodeView) × (table.crypt.init disk bare.world ≡ (ok dev, w))
    × ((luks_format table (luks (codes "aes-xts")) disk bare).1.world ≡ (table.crypt.free dev w').1)
luks_format_frees_example =
    luks_format_frees table (luks (codes "aes-xts")) disk bare (codes "/dev/mapper/pvc") _ formatted
