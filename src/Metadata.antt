-- ===== src/Metadata.antt =====
-- internal/driver/metadata.go: what the driver knows of the instance that it runs on, from the
-- metadata service or else from the API.
pub mod Laws
use linode_blockstorage_csi.Common.{
  ℕ, ◌*◌, ◌%◌, ◌^◌, ℤ, pos, ltb_ℤ, ◌==ℤ◌, to_word, Text, codes, atoi, Option, none, some, Bool,
  true, false, if◌then◌else◌,
}
use linode_blockstorage_csi.Errors.{GoError, plain, end, cause, text}
use linode_blockstorage_csi.Effect.{
  Result, ok, err, M, pure, fail, lift, deref, call, tell, ◌>>=◌, ◌>>◌, finally, recover,
}
use linode_blockstorage_csi.Api.{Instance, LinodeClient}
use linode_blockstorage_csi.Host.{FileSystem}

-- Metadata of the instance that the plugin runs on; the memory is in bytes.
pub record Metadata : Type 0 where
  pub id : ℤ
  pub label : Text
  pub region : Text
  pub memory : ℕ

-- The part of metadata.InstanceData that is read; `memory` is `Specs.Memory`, in megabytes.
pub record InstanceData : Type 0 where
  pub id : ℤ
  pub label : Text
  pub region : Text
  pub memory : ℤ

-- The go-metadata library: a client is made, which can fail, and asked for the instance, which may
-- be nil. `new_client` is NewMetadataClient.
pub record MetadataService (W : Type 0) : Type 0 where
  pub new_client : W → Result (Unit {0}) × W
  pub get_instance : W → Result (Option InstanceData) × W

abbrev pub min_memory : ℕ
min_memory = 2 ^ 30

abbrev linode_id_path : Text
linode_id_path = codes "/linode-info/linode-id"

abbrev err_nil_client : GoError
err_nil_client = plain "nil client" end

-- The shift by 20 is in uint, 64 bits wide.
unfoldable pub memory_to_bytes : ℤ → ℕ
memory_to_bytes size_mb =
    if ltb_ℤ size_mb (pos 1024) then min_memory else (to_word size_mb * 2 ^ 20) % 2 ^ 64

-- An instance with no specs gets the least memory.
unfoldable pub memory_of_specs : Option ℤ → ℕ
unfolding memory_to_bytes
memory_of_specs none = min_memory
memory_of_specs (some mb) = memory_to_bytes mb

linode_id : Text → Result ℤ
linode_id data' = elim (atoi data') [
  | none ↦ err (plain "atoi: %w" (text data' end))
  | some n ↦ ok n
]

module _ {W : Type 0} where
  -- A nil client is `none`.
  unfoldable pub get_metadata : Option (MetadataService W) → M W Metadata
  unfolding memory_to_bytes
  get_metadata none = fail err_nil_client
  get_metadata (some service) = do
    found ← call (λ e. plain "get instance data: %w" (cause e end)) service.get_instance
    data' ← deref found
    pure (record {
      id = data'.id;
      label = data'.label;
      region = data'.region;
      memory = memory_to_bytes data'.memory;
    })

  -- From the open file on; at most 1024 bytes are read.
  read_and_get : LinodeClient W → FileSystem W → ℕ → M W Metadata
  unfolding linode_id memory_of_specs
  read_and_get client fs file = do
    data' ← call (λ e. plain "read all: %w" (cause e end)) (fs.read file 1024)
    id ← lift (linode_id data')
    found ← call (λ e. plain "get instance: %w" (cause e end)) (client.get_instance id)
    instance' ← deref found
    pure (record {
      id = id;
      label = instance'.label;
      region = instance'.region;
      memory = memory_of_specs instance'.memory;
    })

  unfoldable pub get_metadata_from_api : Option (LinodeClient W) → FileSystem W → M W Metadata
  unfolding read_and_get
  get_metadata_from_api none fs = fail err_nil_client
  get_metadata_from_api (some client) fs = do
    call (λ e. plain "stat %s: %w" (text linode_id_path (cause e end))) (fs.stat linode_id_path)
    file ← call (λ e. plain "open: %w" (cause e end)) (fs.open_for_reading linode_id_path)
    finally (tell (fs.close file) >> pure tt) (read_and_get client fs file)

  -- The API is asked where the metadata service could not answer.
  from_api : Option (LinodeClient W) → FileSystem W → M W Metadata
  unfolding get_metadata_from_api
  from_api client fs = do
    r ← recover (get_metadata_from_api client fs)
    lift (elim r [
      | ok md ↦ ok md
      | err e ↦ err (plain "failed to get metadata from API: %w" (cause e end))
    ])

  or_from_api : Option (LinodeClient W) → FileSystem W → Result Metadata → M W Metadata
  unfolding from_api
  or_from_api client fs (ok md) = pure md
  or_from_api client fs (err e) = from_api client fs

  from_service :
      MetadataService W → Option (LinodeClient W) → FileSystem W → Result (Unit {0}) → M W Metadata
  unfolding get_metadata or_from_api from_api
  from_service service client fs (err e) = from_api client fs
  from_service service client fs (ok _) = do
    r ← recover (get_metadata (some service))
    or_from_api client fs r

  with_id : Metadata → M W Metadata
  with_id md =
      if md.id ==ℤ pos 0 then fail (plain "failed to obtain valid node metadata" end) else pure md

  unfoldable pub get_node_metadata :
      MetadataService W → Option (LinodeClient W) → FileSystem W → M W Metadata
  unfolding from_service with_id
  get_node_metadata service client fs = do
    r ← tell service.new_client
    md ← from_service service client fs r
    with_id md
