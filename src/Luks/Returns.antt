-- ===== src/Luks/Returns.antt =====
-- What opening and formatting a device return: its path under /dev/mapper.
use linode_blockstorage_csi.Common.{Text, Bool-cases, ◌≡◌, refl, inl, inr}
use linode_blockstorage_csi.Effect.{Result, ok, err}
use linode_blockstorage_csi.Effect.Gives.{Gives, pure-Gives, fail-Gives, gives_rules}
use linode_blockstorage_csi.Host.{Host}
use linode_blockstorage_csi.Luks.{
  LuksContext, mapper_path, format_with, luks_format, is_active, activated, load_and_activate,
  luks_open,
}

module _ {W : Type 0} (host : Host W) (c : LuksContext) (source : Text) where
  abbrev IsMapper : Text → Type 0
  IsMapper path = path ≡ mapper_path c.volume_name

  activated-Gives : (r : Result (Unit {0})) → Gives IsMapper (activated host c source r)
  unfolding activated
  activated-Gives (ok u) = pure-Gives _ refl
  activated-Gives (err e) = elim (Bool-cases (is_active host e)) [
    | inl h ↦ rw h (pure-Gives _ refl)
    | inr h ↦ rw h (fail-Gives _)
  ]

  pub luks_open-Gives : Gives (λ p. p ≡ mapper_path c.volume_name) (luks_open host c source)
  unfolding luks_open load_and_activate
  luks_open-Gives = search (gives_rules, activated-Gives)

  pub luks_format-Gives : Gives (λ p. p ≡ mapper_path c.volume_name) (luks_format host c source)
  unfolding luks_format format_with
  luks_format-Gives = search gives_rules depth 12
