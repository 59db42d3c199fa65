-- ===== src/Tests/MainRuns.antt =====
-- The theorem on main.go, with a machine that has no files.
use linode_blockstorage_csi.Common.{
  ◌≢◌, ◌++◌, pos, Text, codes, text_eq, split, split_from, some, List, [], ◌∷◌, true, rune_count,
  runes_after, ◌≡◌, refl, if◌then◌else◌,
}
use linode_blockstorage_csi.Errors.{foreign}
use linode_blockstorage_csi.Effect.{Result, ok, err, State, done}
use linode_blockstorage_csi.Host.{FileSystem}
use linode_blockstorage_csi.Metadata.{Metadata, get_node_metadata, memory_to_bytes}
use linode_blockstorage_csi.Driver.{check_volume_label_prefix, prefix_matches}
use linode_blockstorage_csi.Driver.Setup.{Process}
use linode_blockstorage_csi.Linodego.{
  Linodego, new_linode_client, get_api_url_components, version_of,
}
use linode_blockstorage_csi.Main.{Configuration, Platform, load_config, handle}
use linode_blockstorage_csi.Main.Starts.{handle_starts}
use linode_blockstorage_csi.Main.Laws.{IsStarted}
use linode_blockstorage_csi.Tests.Cloud.{Cloud, cloud_client, empty_cloud}
use linode_blockstorage_csi.Tests.DriverRuns.{simple, api}

-- A machine without files, whose metadata service answers.
abbrev no_file : {A : Type 0} → Cloud → Result A × Cloud
no_file w = (err (foreign (pos 2)), w)

abbrev no_files : FileSystem Cloud
no_files = record {
  mkdir_all = λ p m w. no_file w;
  stat = λ p w. no_file w;
  remove = λ p w. no_file w;
  open_file = λ p m w. no_file w;
  open_for_reading = λ p w. no_file w;
  read = λ f n w. no_file w;
  close = λ f w. no_file w;
  glob = λ p w. no_file w;
  eval_symlinks = λ p w. no_file w;
  is_not_exist = λ e. true;
}

abbrev settings : Linodego (List Text)
settings = record {
  new_client = [];
  set_user_agent = λ s c. s ∷ c;
  set_token = λ s c. s ∷ c;
  set_base_url = λ s c. s ∷ c;
  set_api_version = λ s c. s ∷ c;
}

abbrev platform : Platform Cloud simple
platform = record {
  lib = settings;
  calls = λ c. cloud_client;
  parse_url = λ s. ok api;
  service = record {
    new_client = λ w. (ok tt, w);
    get_instance = λ w. (
      ok (
          some (record {
            id = pos 5;
            label = codes "node";
            region = codes "us-east";
            memory = pos 8192;
          })),
      w,
    );
  };
  file_system = no_files;
  mounter = tt;
  device_utils = tt;
  encrypt = tt;
}

-- The environment has a token only.
abbrev var : Text → Text → Text
var name default = if text_eq name (codes "LINODE_TOKEN") then codes "token" else default

abbrev idle : State Cloud
idle = record { world = empty_cloud; samples = [] }

abbrev cfg : Configuration
cfg = load_config (codes "https://api.linode.com") var

abbrev own : Metadata
own = record {
  id = pos 5;
  label = codes "node";
  region = codes "us-east";
  memory = memory_to_bytes (pos 8192);
}

abbrev made_settings : List Text
made_settings =
    codes "v4" ∷ codes "https://api.linode.com" ∷ codes "token" ∷ codes "LinodeCSI/v1" ∷ []

client_made :
    new_linode_client settings
      (λ s. ok api)
      cfg.linode_token
      (codes "LinodeCSI/" ++ codes "v1")
      cfg.linode_url
    ≡ ok made_settings
unfolding new_linode_client load_config text_eq get_api_url_components version_of split split_from
client_made = refl

metadata_found :
    get_node_metadata platform.service (some cloud_client) no_files idle ≡ (done own, idle)
unfolding get_node_metadata
metadata_found = refl

has_token : cfg.linode_token ≢ []
unfolding load_config text_eq
has_token e = cc

has_version : codes "v1" ≢ []
has_version e = cc

prefix_accepted : check_volume_label_prefix cfg.volume_label_prefix ≡ ok tt
unfolding load_config text_eq check_volume_label_prefix prefix_matches rune_count runes_after
prefix_accepted = refl

handle_starts_example :
    (p : Process simple) × (handle platform (codes "v1") (codes "https://api.linode.com") var idle
      ≡ (done p, idle))
    × IsStarted platform (codes "v1") cfg p
handle_starts_example =
    handle_starts platform (codes "v1") (codes "https://api.linode.com") var idle idle made_settings
      own has_version has_token prefix_accepted client_made metadata_found
