-- ===== src/Metrics.antt =====
-- pkg/observability/metrics.go: the two metrics of each operation, and their registration when the
-- process starts.
pub mod Registry
use linode_blockstorage_csi.Common.{
  Text, codes, text_eq, any, Option, none, some, List, [], ◌∷◌, false, ◌≡◌,
}
use linode_blockstorage_csi.Effect.{
  Operation, create_volume_op, delete_volume_op, publish_volume_op, unpublish_volume_op,
  node_publish_op, node_unpublish_op, node_stage_op, node_unstage_op, node_expand_op,
}

-- The counter and the histogram of an operation.
pub data Metric : Type 0 where
  total duration : Operation → Metric

-- `Name` in the options of the metric.
unfoldable pub name_of : Metric → Text
name_of (total node_publish_op) = codes "csi_node_publish_total"
name_of (duration node_publish_op) = codes "csi_node_publish_duration_seconds"
name_of (total node_unpublish_op) = codes "csi_node_unpublish_total"
name_of (duration node_unpublish_op) = codes "csi_node_unpublish_duration_seconds"
name_of (total node_stage_op) = codes "csi_node_stage_volume_total"
name_of (duration node_stage_op) = codes "csi_node_stage_volume_duration_seconds"
name_of (total node_unstage_op) = codes "csi_node_unstage_volume_total"
name_of (duration node_unstage_op) = codes "csi_node_unstage_volume_duration_seconds"
name_of (total node_expand_op) = codes "csi_node_expand_total"
name_of (duration node_expand_op) = codes "csi_node_expand_duration_seconds"
name_of (total create_volume_op) = codes "csi_controller_create_volume_total"
name_of (duration create_volume_op) = codes "csi_controller_create_volume_duration_seconds"
name_of (total delete_volume_op) = codes "csi_controller_delete_volume_total"
name_of (duration delete_volume_op) = codes "csi_controller_delete_volume_duration_seconds"
name_of (total publish_volume_op) = codes "csi_controller_publish_volume_total"
name_of (duration publish_volume_op) = codes "csi_controller_publish_volume_duration_seconds"
name_of (total unpublish_volume_op) = codes "csi_controller_unpublish_volume_total"
name_of (duration unpublish_volume_op) = codes "csi_controller_unpublish_volume_duration_seconds"

-- The calls of MustRegister in `init`, in order.
unfoldable pub registrations : List Metric
registrations =
    total node_publish_op
    ∷ duration node_publish_op
    ∷ total node_unpublish_op
    ∷ duration node_unpublish_op
    ∷ total node_stage_op
    ∷ duration node_stage_op
    ∷ total node_unstage_op
    ∷ duration node_unstage_op
    ∷ total node_expand_op
    ∷ duration node_expand_op
    ∷ total create_volume_op
    ∷ duration create_volume_op
    ∷ total delete_volume_op
    ∷ duration delete_volume_op
    ∷ total publish_volume_op
    ∷ duration publish_volume_op
    ∷ total unpublish_volume_op
    ∷ duration unpublish_volume_op
    ∷ []

-- A registry of the Prometheus library; `none` is the panic of MustRegister.
pub record Registerer (R : Type 0) : Type 0 where
  pub empty : R
  pub must_register : Text → R → Option R

-- What the library documents: a name that is not registered is registered, and no other name is
-- affected.
pub record RegistererLaws {R : Type 0} (reg : Registerer R) : Type 0 where
  pub names : R → List Text
  pub names_empty : names reg.empty ≡ []
  pub register_new :
      (name : Text) (r : R)
      → any (text_eq name) (names r) ≡ false
      → (r' : R) × (reg.must_register name r ≡ some r') × (names r' ≡ name ∷ names r)

module _ {R : Type 0} (reg : Registerer R) where
  unfoldable pub register_all : List Metric → R → Option R
  unfolding name_of
  register_all [] r = some r
  register_all (m ∷ ms) r = elim (reg.must_register (name_of m) r) [
    | none ↦ none
    | some r' ↦ register_all ms r'
  ]

  -- `init`
  unfoldable pub init_metrics : Option R
  unfolding register_all registrations
  init_metrics = register_all registrations reg.empty
