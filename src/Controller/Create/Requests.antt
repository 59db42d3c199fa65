-- ===== src/Controller/Create/Requests.antt =====
-- Which requests `CreateVolume` lets through.
use linode_blockstorage_csi.Common.{
  Text, Option, none, some, List, [], ◌∷◌, All, true, Bool-cases, ◌≡◌, ◌≢◌, ◌↔◌, ◌⊎◌, refl, inl,
  inr, arith,
}
use linode_blockstorage_csi.Errors.{GoError, code_of, invalid_argument}
use linode_blockstorage_csi.Effect.{ok, err, failed, State, create_volume_op, failed_status}
use linode_blockstorage_csi.Api.{LinodeClient}
use linode_blockstorage_csi.Csi.{
  VolumeCapability, AccessMode, single_node_writer, other_mode, CreateVolumeRequest,
}
use linode_blockstorage_csi.Controller.{
  Server, has_valid_mode, is_valid_capability, valid_volume_capabilities,
}
use linode_blockstorage_csi.Controller.Create.{create_volume}
use linode_blockstorage_csi.Controller.Provision.{validate_create_volume_request}

-- The capability is there, and its access mode is SINGLE_NODE_WRITER.
abbrev pub IsSingleNodeWriter : Option VolumeCapability → Type 0
IsSingleNodeWriter none = ⊥
IsSingleNodeWriter (some cap) = cap.access_mode ≡ some single_node_writer

mode_sound : (m : Option AccessMode) → has_valid_mode m ≡ true → m ≡ some single_node_writer
unfolding has_valid_mode
mode_sound none h = cc
mode_sound (some single_node_writer) h = refl
mode_sound (some (other_mode n)) h = cc

capability_sound :
    (c : Option VolumeCapability) → is_valid_capability c ≡ true → IsSingleNodeWriter c
unfolding is_valid_capability
capability_sound none h = absurd (cc)
capability_sound (some c) h = mode_sound c.access_mode h

capability_complete :
    (c : Option VolumeCapability) → IsSingleNodeWriter c → is_valid_capability c ≡ true
unfolding is_valid_capability
capability_complete none h = absurd h
capability_complete (some c) h = rw h refl

valid_sound :
    (cs : List (Option VolumeCapability))
    → valid_volume_capabilities cs ≡ true
    → All IsSingleNodeWriter cs
unfolding valid_volume_capabilities
valid_sound [] h = tt
valid_sound (c ∷ cs) h = (capability_sound c (ground arith), valid_sound cs (ground arith))

valid_complete :
    (cs : List (Option VolumeCapability))
    → All IsSingleNodeWriter cs
    → valid_volume_capabilities cs ≡ true
unfolding valid_volume_capabilities
valid_complete [] h = refl
valid_complete (c ∷ cs) (hc, hcs) = rw (capability_complete c hc) (valid_complete cs hcs)

-- The request has a name and at least one capability, and every capability is a single-node writer.
abbrev pub IsAcceptable : CreateVolumeRequest → Type 0
IsAcceptable req =
    (req.name ≢ [])
    × (req.volume_capabilities ≢ [])
    × All IsSingleNodeWriter req.volume_capabilities

module _ (req : CreateVolumeRequest) where
  validate_sound : validate_create_volume_request req ≡ ok tt → IsAcceptable req
  unfolding validate_create_volume_request
  validate_sound h = (
    λ e. absurd (at_name e h),
    λ e. absurd (at_caps e h),
    valid_sound req.volume_capabilities (ground arith),
  )
    where
      at_name : req.name ≡ [] → validate_create_volume_request req ≡ ok tt → ⊥
      at_name e k = ground arith

      at_caps : req.volume_capabilities ≡ [] → validate_create_volume_request req ≡ ok tt → ⊥
      at_caps e k = ground arith

  validate_complete : IsAcceptable req → validate_create_volume_request req ≡ ok tt
  unfolding validate_create_volume_request
  validate_complete (hn, hc, ha) = ground (arith, valid_complete req.volume_capabilities ha)

  validate_error :
      (validate_create_volume_request req ≡ ok tt)
      ⊎ ((e : GoError) × (validate_create_volume_request req ≡ err e)
          × (code_of e ≡ invalid_argument))
  unfolding validate_create_volume_request
  validate_error = at req.name req.volume_capabilities
    where
      at :
          (n : Text) (cs : List (Option VolumeCapability))
          → let r =
              validate_create_volume_request (record req { name = n; volume_capabilities = cs }) in
            (r ≡ ok tt) ⊎ ((e : GoError) × (r ≡ err e) × (code_of e ≡ invalid_argument))
      at [] cs = inr (_, refl, refl)
      at (c ∷ n) [] = inr (_, refl, refl)
      at (c ∷ n) (d ∷ ds) = elim (Bool-cases (valid_volume_capabilities (d ∷ ds))) [
        | inl h ↦ rw h (inl refl)
        | inr h ↦ rw h (inr (_, refl, refl))
      ]

-- A request passes the validation exactly if it has a name and at least one capability, and every
-- capability is a single-node writer.
pub validate_create_volume_request_iff :
    (req : CreateVolumeRequest)
    → (validate_create_volume_request req ≡ ok tt) ↔ (
        (req.name ≢ [])
        × (req.volume_capabilities ≢ [])
        × All IsSingleNodeWriter req.volume_capabilities)
validate_create_volume_request_iff req = (validate_sound req, validate_complete req)

-- A request with no name, with no capability, or with a capability that is no single-node writer
-- fails with INVALID_ARGUMENT and leaves the world as it is; one failed sample is recorded.
pub create_volume_invalid :
    {W : Type 0} (client : LinodeClient W) (server : Server) (s : State W)
    (req : CreateVolumeRequest)
    → ¬ (
        (req.name ≢ [])
        × (req.volume_capabilities ≢ [])
        × All IsSingleNodeWriter req.volume_capabilities)
    → (e : GoError) × (create_volume client server req s ≡ (
      failed e,
      record { world = s.world; samples = (create_volume_op, failed_status) ∷ s.samples },
    ))
      × (code_of e ≡ invalid_argument)
unfolding create_volume
create_volume_invalid client server s req h = elim (validate_error req) [
  | inl fine ↦ absurd (h (validate_sound req fine))
  | inr (e, refused, code) ↦ (e, rw refused refl, code)
]
