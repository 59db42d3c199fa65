-- ===== src/Paths/Laws.antt =====
-- Runs of the path functions.
use linode_blockstorage_csi.Common.{codes, text_eq, split, ◌≡◌, refl}
use linode_blockstorage_csi.Paths.{clean, join, dir}

clean_dots : clean (codes "/a//./b/../c/") ≡ codes "/a/c"
unfolding clean text_eq split
clean_dots = refl

clean_relative : clean (codes "../../a/..") ≡ codes "../.."
unfolding clean text_eq split
clean_relative = refl

join_device :
    join (codes "/dev/disk/by-id/") (codes "linode-pvc1") ≡ codes "/dev/disk/by-id/linode-pvc1"
unfolding join text_eq split
join_device = refl

dir_file : dir (codes "/var/lib/x/file") ≡ codes "/var/lib/x"
unfolding dir text_eq split
dir_file = refl
