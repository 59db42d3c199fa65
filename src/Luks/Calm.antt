-- ===== src/Luks/Calm.antt =====
-- When the LUKS steps panic: a cipher with no dash is read past its end.
use linode_blockstorage_csi.Common.{
  split_pair, none, ◌≡◌, ℕ, Text, Bool-cases, Bool, true, false, [], ◌∷◌, inl, inr,
}
use linode_blockstorage_csi.Effect.{Result, ok, err}
use linode_blockstorage_csi.Effect.Panics.{PanicsIf, calm_rules, deref-PanicsIf, finally-PanicsIf}
use linode_blockstorage_csi.Host.{Host, GenericParams}
use linode_blockstorage_csi.Luks.{
  LuksContext, format_with, luks_format, is_active, activated, load_and_activate, luks_open,
  released, close_found, luks_close, blkid_valid,
}

module _ {W : Type 0} (host : Host W) (E : Type 0) where
  format_with-PanicsIf :
      (c : LuksContext) (source : Text) (p : GenericParams)
      → PanicsIf E (format_with host c source p)
  unfolding format_with
  format_with-PanicsIf c source p = search (calm_rules, finally-PanicsIf) depth 9

  pub luks_format-PanicsIf :
      (c : LuksContext) (source : Text)
      → (split_pair b'-' c.encryption_cipher ≡ none → E)
      → PanicsIf E (luks_format host c source)
  unfolding luks_format
  luks_format-PanicsIf c source h = search (calm_rules, deref-PanicsIf, format_with-PanicsIf)

  activated-PanicsIf :
      (c : LuksContext) (source : Text) (r : Result (Unit {0}))
      → PanicsIf E (activated host c source r)
  unfolding activated
  activated-PanicsIf c source (ok u) = search calm_rules
  activated-PanicsIf c source (err e) = elim (Bool-cases (is_active host e)) [
    | inl h ↦ rw h (search calm_rules)
    | inr h ↦ rw h (search calm_rules)
  ]

  load_and_activate-PanicsIf :
      (c : LuksContext) (source : Text) (dev : ℕ) → PanicsIf E (load_and_activate host c source dev)
  unfolding load_and_activate
  load_and_activate-PanicsIf c source dev = search (calm_rules, activated-PanicsIf)

  pub luks_open-PanicsIf : (c : LuksContext) (source : Text) → PanicsIf E (luks_open host c source)
  unfolding luks_open
  luks_open-PanicsIf c source = search (calm_rules, finally-PanicsIf, load_and_activate-PanicsIf)

  released-PanicsIf : (b : Bool) → PanicsIf E (released host b)
  unfolding released
  released-PanicsIf true = search calm_rules
  released-PanicsIf false = search calm_rules

  close_found-PanicsIf : (name : Text) (r : Result ℕ) → PanicsIf E (close_found host name r)
  unfolding close_found
  close_found-PanicsIf name (err e) = search calm_rules
  close_found-PanicsIf name (ok dev) = search (calm_rules, released-PanicsIf)

  pub luks_close-PanicsIf : (name : Text) → PanicsIf E (luks_close host name)
  unfolding luks_close
  luks_close-PanicsIf name = search (calm_rules, close_found-PanicsIf)

  pub blkid_valid-PanicsIf : (source : Text) → PanicsIf E (blkid_valid host source)
  unfolding blkid_valid
  blkid_valid-PanicsIf [] = search calm_rules
  blkid_valid-PanicsIf (c ∷ source) = search calm_rules
