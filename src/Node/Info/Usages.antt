-- ===== src/Node/Info/Usages.antt =====
-- The usage that `NodeGetVolumeStats` reports, for a file system that fits 64 bits.
use linode_blockstorage_csi.Common.{
  ℕ, zero, suc, ◌+◌, ◌-◌, ◌*◌, ◌^◌, ◌<◌, ◌≤◌, pos, ◌+ℤ◌, ◌-ℤ◌, ◌*ℤ◌, ◌≤ℤ◌, wrap, signed, ◌≡◌, refl,
  arith, ◌∙◌, ap,
}
use native.Mathlib.Nat.{mul-le-mul_right}
use linode_blockstorage_csi.Node.Info.{Statfs, Usage, healthy, sub_u64, usage_of}

signed_small : (x : ℕ) → x < 2 ^ 63 → signed x ≡ pos x
unfolding signed
signed_small x h = ground arith

wrap_small : (x : ℕ) → x < 2 ^ 63 → wrap (pos x) ≡ pos x
unfolding wrap
wrap_small x h = ground arith

times : (x b : ℕ) → pos x *ℤ pos b ≡ pos (x * b)
unfolding ◌*ℤ◌
times x b = ground arith

small : (x b : ℕ) → 0 < b → x * b < 2 ^ 63 → x < 2 ^ 63
small x zero hb h = absurd (omega arith)
small x (suc b) hb h = grind arith

-- A count of blocks in bytes.
bytes_of : (x b : ℕ) → 0 < b → x * b < 2 ^ 63 → wrap (signed x *ℤ pos b) ≡ pos (x * b)
bytes_of x b hb h =
    ap (λ z. wrap (z *ℤ pos b)) (signed_small x (small x b hb h))
    ∙ ap wrap (times x b)
    ∙ wrap_small (x * b) h

sub_u64_lem : (a b : ℕ) → b ≤ a → a < 2 ^ 63 → sub_u64 a b ≡ a - b
sub_u64_lem a b h k = ground arith

-- What the usage of a file system is: `b` bytes for each block.
abbrev bytes_usage : Statfs → ℕ → Usage
bytes_usage st b = record {
  available = pos (st.bavail * b);
  total = pos (st.blocks * b);
  used = pos ((st.blocks - st.bfree) * b);
}

abbrev inodes_usage : Statfs → Usage
inodes_usage st = record {
  available = pos st.ffree;
  total = pos st.files;
  used = pos (st.files - st.ffree);
}

files_used : (a b : ℕ) → b ≤ a → a < 2 ^ 63 → wrap (pos a -ℤ pos b) ≡ pos (a - b)
unfolding wrap ◌-ℤ◌
files_used a b h k = ground arith

-- What is available and what is used fit into the whole.
fits : (a f v b : ℕ) → v ≤ f → f ≤ a → v * b + (a - f) * b ≤ a * b
fits a f v b h k =
    let less : v + (a - f) ≤ a = omega arith in omega (arith, mul-le-mul_right b less)

bytes_small : (a x b : ℕ) → x ≤ a → a * b < 2 ^ 63 → x * b < 2 ^ 63
bytes_small a x b h k = omega (arith, mul-le-mul_right b h)

-- For a file system with a positive block size, whose counts are in order and whose size in bytes
-- and inode count are below 2^63: the usage is the number of blocks times the block size, with no
-- wrap-around; what is available and what is used do not exceed the total in bytes, and add up to
-- it in inodes.
pub usage_of_bounds :
    (st : Statfs) (b : ℕ)
    → st.bsize ≡ pos b
    → 0 < b
    → st.bavail ≤ st.bfree
    → st.bfree ≤ st.blocks
    → st.blocks * b < 2 ^ 63
    → st.ffree ≤ st.files
    → st.files < 2 ^ 63
    → (bytes : Usage) × (inodes : Usage) × (usage_of st ≡ healthy bytes inodes)
      × (bytes.total ≡ pos (st.blocks * b))
      × (bytes.available +ℤ bytes.used ≤ℤ bytes.total)
      × (inodes.available +ℤ inodes.used ≡ inodes.total)
unfolding usage_of ◌+ℤ◌
usage_of_bounds st b hs hb hv hf hsize hi hn =
    let whole = small st.blocks b hb hsize in
    let diff = sub_u64_lem st.blocks st.bfree hf whole in
    (
      bytes_usage st b,
      inodes_usage st,
      rw
          (
            hs,
            diff,
            bytes_of st.bavail b hb (bytes_small st.blocks st.bavail b (omega arith) hsize),
            bytes_of st.blocks b hb hsize,
            bytes_of (st.blocks - st.bfree) b hb
                (bytes_small st.blocks (st.blocks - st.bfree) b (omega arith) hsize),
            signed_small st.ffree (omega arith),
            signed_small st.files hn,
            files_used st.files st.ffree hi hn,
          )
          refl,
      refl,
      ground (arith, fits st.blocks st.bfree st.bavail b hv hf),
      ground arith,
    )
