-- ===== src/Errors.antt =====
-- internal/driver/errors.go and the error values that the rest of the driver makes: gRPC status
-- errors with their code, plain Go errors, and errors of code outside the repository, which are
-- opaque tags. An error carries its format string and its arguments, not the formatted text.
use linode_blockstorage_csi.Common.{ℤ, Text, List}
use Prim.Native.String.{String}

-- The codes of google.golang.org/grpc/codes that the driver uses.
pub data Code : Type 0 where
  invalid_argument not_found already_exists failed_precondition : Code
  resource_exhausted unavailable aborted internal unknown : Code

mutual
  pub data GoError : Type 0 where
    status : Code → String → Args → GoError
    plain : String → Args → GoError
    foreign : ℤ → GoError

  -- The arguments of a format string; `opaque` is one whose print is not modelled.
  pub data Args : Type 0 where
    end : Args
    text : Text → Args → Args
    texts : List Text → Args → Args
    number : ℤ → Args → Args
    cause : GoError → Args → Args
    opaque : Args → Args

-- The code that a gRPC client sees of an error: one that is no status error is `Unknown`. An error
-- that is wrapped in a plain one is not looked into.
abbrev pub code_of : GoError → Code
code_of (status c m args) = c
code_of (plain m args) = unknown
code_of (foreign n) = unknown

-- `errInternal`, `errNotFound` and `errAlreadyExists`.
abbrev pub err_internal : String → Args → GoError
err_internal = status internal

abbrev pub err_not_found : String → Args → GoError
err_not_found = status not_found

abbrev pub err_already_exists : String → Args → GoError
err_already_exists = status already_exists

-- The errors that errors.go declares as variables.
abbrev pub err_nil_driver : GoError
err_nil_driver = status internal "nil driver" end

abbrev pub err_no_volume_name : GoError
err_no_volume_name = status invalid_argument "volume name is required" end

abbrev pub err_no_volume_capabilities : GoError
err_no_volume_capabilities = status invalid_argument "volume capabilities are required" end

abbrev pub err_volume_in_use : GoError
err_volume_in_use = status failed_precondition "volume is in use" end

abbrev pub err_no_volume_capability : GoError
err_no_volume_capability = status invalid_argument "no volume capability set" end

abbrev pub err_no_volume_id : GoError
err_no_volume_id = status invalid_argument "volume id is not set" end

abbrev pub err_no_volume_path : GoError
err_no_volume_path = status invalid_argument "volume path is not set" end

abbrev pub err_no_staging_target_path : GoError
err_no_staging_target_path = status invalid_argument "staging target path is not set" end

abbrev pub err_no_target_path : GoError
err_no_target_path = status invalid_argument "target path is not set" end

abbrev pub err_nil_instance : GoError
err_nil_instance = err_internal "nil instance" end

abbrev pub err_max_attachments : GoError
err_max_attachments =
    status resource_exhausted "max number of volumes already attached to instance" end

abbrev pub err_resize_down : GoError
err_resize_down = err_internal "volume cannot be resized to be smaller" end

abbrev pub err_unsupported_volume_content_source : GoError
err_unsupported_volume_content_source =
    status invalid_argument "unsupported volume content source type" end

abbrev pub err_no_source_volume : GoError
err_no_source_volume = status invalid_argument "no volume content source specified" end

-- The errors that errors.go builds from arguments.
abbrev pub err_region_mismatch : Text → Text → GoError
err_region_mismatch got want =
    status invalid_argument "source volume is in region %q, needs to be in region %q"
      (text got (text want end))

abbrev pub err_max_volume_attachments : ℤ → GoError
err_max_volume_attachments n =
    status resource_exhausted "max number of volumes (%d) already attached to instance"
      (number n end)

abbrev pub err_instance_not_found : ℤ → GoError
err_instance_not_found n = status not_found "linode instance %d not found" (number n end)

abbrev pub err_volume_attached : ℤ → ℤ → GoError
err_volume_attached v n =
    status already_exists "volume %d is already attached to linode %d" (number v (number n end))

abbrev pub err_volume_not_found : ℤ → GoError
err_volume_not_found v = status not_found "volume not found: %d" (number v end)

abbrev pub err_invalid_volume_capability : GoError
err_invalid_volume_capability = status invalid_argument "invalid volume capability: %v" (opaque end)
