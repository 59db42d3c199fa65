-- ===== src/Node/Publish/Laws.antt =====
-- What `NodePublishVolume` counts of a block volume.
use linode_blockstorage_csi.Common.{
  ℕ, Text, codes, get, is_empty, List, Bool-cases, inl, inr, true, ◌∷◌, ◌≡◌, ap, refl, arith, ◌⊎◌,
}
use linode_blockstorage_csi.Errors.{GoError}
use linode_blockstorage_csi.Effect.{
  Result, ok, err, Outcome, done, failed, panicked, State, node_publish_op, completed_status,
  failed_status,
}
use linode_blockstorage_csi.Effect.Samples.{IsQuiet, quiet_rules, finally-IsQuiet}
use linode_blockstorage_csi.Host.{Host}
use linode_blockstorage_csi.Csi.{VolumeCapability}
use linode_blockstorage_csi.Node.{PublishRequest, is_block, validate_node_publish_volume_request}
use linode_blockstorage_csi.Node.Publish.Calm.{node_publish_volume_block-PanicsIf}
use linode_blockstorage_csi.Node.Publish.{
  options_of, remove_target, mounted_block, close_file, opened, with_device,
  node_publish_volume_block, node_publish_volume,
}

module _ {W : Type 0} (host : Host W) where
  remove_target-IsQuiet :
      (p : Text) (e both : GoError) (r : Result (Unit {0}))
      → IsQuiet (remove_target host p e both r)
  unfolding remove_target
  remove_target-IsQuiet p e both (ok u) = search quiet_rules
  remove_target-IsQuiet p e both (err x) = search quiet_rules

  mounted_block-IsQuiet : (d p : Text) (r : Result (Unit {0})) → IsQuiet (mounted_block host d p r)
  unfolding mounted_block
  mounted_block-IsQuiet d p (ok u) = search quiet_rules
  mounted_block-IsQuiet d p (err e) = search (quiet_rules, remove_target-IsQuiet)

  opened-IsQuiet :
      (d p : Text) (options : List Text) (r : Result ℕ) → IsQuiet (opened host d p options r)
  unfolding opened close_file
  opened-IsQuiet d p options (ok f) = search (quiet_rules, finally-IsQuiet, mounted_block-IsQuiet)
  opened-IsQuiet d p options (err e) = search (quiet_rules, remove_target-IsQuiet)

  block-IsQuiet :
      (req : PublishRequest) (options : List Text)
      → IsQuiet (node_publish_volume_block host req options)
  unfolding node_publish_volume_block with_device
  block-IsQuiet req options =
      elim (Bool-cases (is_empty (get (codes "devicePath") req.publish_context))) [
        | inl h ↦ rw h (search quiet_rules)
        | inr h ↦ rw h (search (quiet_rules, opened-IsQuiet) depth 9)
      ]

  -- However the machine answers, a valid request to publish a block volume returns and counts one
  -- completed operation if it succeeds, and two, one failed and one completed, if it ends with an
  -- error.
  pub node_publish_volume_block_counts :
      (req : PublishRequest) (cap : VolumeCapability) (s : State W)
      → validate_node_publish_volume_request req ≡ ok cap
      → is_block cap.access_type ≡ true
      → let (o, s') = node_publish_volume host req s in
        ((o ≡ done tt) × (s'.samples ≡ (node_publish_op, completed_status) ∷ s.samples))
        ⊎ ((e : GoError) × (o ≡ failed e)
            × (s'.samples
                ≡ (node_publish_op, completed_status)
                  ∷ (node_publish_op, failed_status)
                  ∷ s.samples))
  unfolding node_publish_volume
  node_publish_volume_block_counts req cap s valid block =
      at (node_publish_volume_block host req (options_of req) s) refl
    where
      quiet : (node_publish_volume_block host req (options_of req) s).1.samples ≡ s.samples
      quiet = (block-IsQuiet req (options_of req)).at s

      at :
          (r : Outcome (Unit {0}) × State W)
          → node_publish_volume_block host req (options_of req) s ≡ r
          → let (o, s') = node_publish_volume host req s in
            ((o ≡ done tt) × (s'.samples ≡ (node_publish_op, completed_status) ∷ s.samples))
            ⊎ ((e : GoError) × (o ≡ failed e)
                × (s'.samples
                    ≡ (node_publish_op, completed_status)
                      ∷ (node_publish_op, failed_status)
                      ∷ s.samples))
      at (done u, t) run = inl (ground arith, ground (arith, quiet))
      at (failed e, t) run = inr (e, ground arith, ground (arith, quiet))
      at (panicked, t) run = absurd (
          (node_publish_volume_block-PanicsIf host ⊥ req (options_of req)).at s (ap (λ r. r.0) run))
