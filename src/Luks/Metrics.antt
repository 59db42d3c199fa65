-- ===== src/Luks/Metrics.antt =====
-- The LUKS steps record no metrics.
use linode_blockstorage_csi.Common.{ℕ, Text, Bool-cases, Bool, true, false, [], ◌∷◌, inl, inr}
use linode_blockstorage_csi.Effect.{Result, ok, err}
use linode_blockstorage_csi.Effect.Samples.{IsQuiet, quiet_rules, finally-IsQuiet}
use linode_blockstorage_csi.Host.{Host, GenericParams}
use linode_blockstorage_csi.Luks.{
  LuksContext, free, format_with, luks_format, is_active, activated, load_and_activate, luks_open,
  released, close_found, luks_close, blkid_valid,
}

module _ {W : Type 0} (host : Host W) where
  free-IsQuiet : (dev : ℕ) → IsQuiet (free host dev)
  unfolding free
  free-IsQuiet dev = search quiet_rules

  format_with-IsQuiet :
      (c : LuksContext) (source : Text) (p : GenericParams) → IsQuiet (format_with host c source p)
  unfolding format_with
  format_with-IsQuiet c source p = search (quiet_rules, finally-IsQuiet, free-IsQuiet) depth 9

  pub luks_format-IsQuiet : (c : LuksContext) (source : Text) → IsQuiet (luks_format host c source)
  unfolding luks_format
  luks_format-IsQuiet c source = search (quiet_rules, format_with-IsQuiet)

  activated-IsQuiet :
      (c : LuksContext) (source : Text) (r : Result (Unit {0}))
      → IsQuiet (activated host c source r)
  unfolding activated
  activated-IsQuiet c source (ok u) = search quiet_rules
  activated-IsQuiet c source (err e) = elim (Bool-cases (is_active host e)) [
    | inl h ↦ rw h (search quiet_rules)
    | inr h ↦ rw h (search quiet_rules)
  ]

  load_and_activate-IsQuiet :
      (c : LuksContext) (source : Text) (dev : ℕ) → IsQuiet (load_and_activate host c source dev)
  unfolding load_and_activate
  load_and_activate-IsQuiet c source dev = search (quiet_rules, activated-IsQuiet)

  pub luks_open-IsQuiet : (c : LuksContext) (source : Text) → IsQuiet (luks_open host c source)
  unfolding luks_open
  luks_open-IsQuiet c source =
      search (quiet_rules, finally-IsQuiet, free-IsQuiet, load_and_activate-IsQuiet)

  released-IsQuiet : (b : Bool) → IsQuiet (released host b)
  unfolding released
  released-IsQuiet true = search quiet_rules
  released-IsQuiet false = search quiet_rules

  close_found-IsQuiet : (name : Text) (r : Result ℕ) → IsQuiet (close_found host name r)
  unfolding close_found
  close_found-IsQuiet name (err e) = search quiet_rules
  close_found-IsQuiet name (ok dev) = search (quiet_rules, released-IsQuiet)

  pub luks_close-IsQuiet : (name : Text) → IsQuiet (luks_close host name)
  unfolding luks_close
  luks_close-IsQuiet name = search (quiet_rules, close_found-IsQuiet)

  pub blkid_valid-IsQuiet : (source : Text) → IsQuiet (blkid_valid host source)
  unfolding blkid_valid
  blkid_valid-IsQuiet [] = search quiet_rules
  blkid_valid-IsQuiet (c ∷ source) = search quiet_rules
