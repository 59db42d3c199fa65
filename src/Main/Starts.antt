-- ===== src/Main/Starts.antt =====
-- When `handle` of main.go starts the server.
use linode_blockstorage_csi.Common.{
  Text, codes, is_empty, [], ◌∷◌, ◌++◌, some, false, ◌≡◌, ◌≢◌, refl, ◌∙◌,
}
use linode_blockstorage_csi.Effect.{Result, ok, State, done, recover}
use linode_blockstorage_csi.Effect.Runs.{>>=-step, recover-step}
use linode_blockstorage_csi.Linodego.{new_linode_client}
use linode_blockstorage_csi.Metadata.{Metadata, get_node_metadata}
use linode_blockstorage_csi.Driver.{Parts, check_volume_label_prefix}
use linode_blockstorage_csi.Driver.Setup.{Process, setup_linode_driver, run}
use linode_blockstorage_csi.Driver.Complete.{IsComplete, setup_linode_driver_iff}
use linode_blockstorage_csi.Main.{
  Platform, Configuration, load_config, handle, setup_args, process, wrapped, set_up_and_run,
  from_config, make_client, find_metadata, wrap_metadata, with_metadata, with_client,
}
use linode_blockstorage_csi.Main.Laws.{IsStarted, handle-IsStarted}

named_is_full : (s : Text) → s ≢ [] → is_empty s ≡ false
named_is_full [] h = absurd (h refl)
named_is_full (c ∷ s) h = refl

module _ {W : Type 0} {parts : Parts} (platform : Platform W parts) where
  set_up_and_run-ok :
      (endpoint : Text) (r : Result (Unit {0})) (q : Process parts) (s : State W)
      → r ≡ ok tt
      → set_up_and_run platform endpoint (r, q) s ≡ (done (run endpoint q), s)
  unfolding set_up_and_run
  set_up_and_run-ok endpoint r q s h = rw h refl

  made_client :
      (vendor_version : Text) (cfg : Configuration) (s : State W) (client : parts.Client)
      → new_linode_client platform.lib platform.parse_url cfg.linode_token
          (codes "LinodeCSI/" ++ vendor_version)
          cfg.linode_url
        ≡ ok client
      → make_client platform vendor_version cfg s ≡ (done client, s)
  unfolding make_client wrapped
  made_client vendor_version cfg s client h = rw h refl

  found_metadata :
      (s s' : State W) (client : parts.Client) (md : Metadata)
      → get_node_metadata platform.service (some (platform.calls client)) platform.file_system s
        ≡ (done md, s')
      → find_metadata platform client s ≡ (done md, s')
  unfolding find_metadata wrapped
  found_metadata s s' client md h =
      let ask =
        get_node_metadata platform.service (some (platform.calls client)) platform.file_system in
      >>=-step (recover ask) (wrap_metadata platform) s s' (ok md) (recover-step ask s s' md h)

  -- With a vendor version, an API token and a label prefix that is accepted, where the client can be
  -- made and the metadata of the instance are found, `handle` starts the server and comes to wait for
  -- it, and the process has what a started one has.
  pub handle_starts :
      (vendor_version api_host : Text) (var : Text → Text → Text) (s s' : State W)
      (client : parts.Client) (md : Metadata)
      → let cfg = load_config api_host var in
        vendor_version ≢ []
        → cfg.linode_token ≢ []
        → check_volume_label_prefix cfg.volume_label_prefix ≡ ok tt
        → new_linode_client platform.lib platform.parse_url cfg.linode_token
            (codes "LinodeCSI/" ++ vendor_version)
            cfg.linode_url
          ≡ ok client
        → get_node_metadata platform.service (some (platform.calls client)) platform.file_system s
          ≡ (done md, s')
        → (p : Process parts) × (handle platform vendor_version api_host var s ≡ (done p, s'))
          × IsStarted platform vendor_version cfg p
  unfolding handle from_config
  handle_starts vendor_version api_host var s s' client md hv ht hp hc hm =
      let cfg = load_config api_host var in
      let args = setup_args platform vendor_version cfg client md in
      let complete : IsComplete args = record {
        named = λ e. cc;
        prefix = hp;
        mounter = (platform.mounter, refl);
        device_utils = (platform.device_utils, refl);
        client = (client, refl);
      } in
      let (r, q) = setup_linode_driver args (process platform) in
      let set_up = (setup_linode_driver_iff args (process platform)).0.1 complete in
      let runs : handle platform vendor_version api_host var s
          ≡ (done (run cfg.csi_endpoint q), s') =
        rw (handle, named_is_full vendor_version hv, from_config, named_is_full cfg.linode_token ht)
          (>>=-step (make_client platform vendor_version cfg)
              (with_client platform vendor_version cfg) s s client
              (made_client vendor_version cfg s client hc)
            ∙ >>=-step (find_metadata platform client)
                (with_metadata platform vendor_version cfg client) s s' md
                (found_metadata s s' client md hm)
            ∙ set_up_and_run-ok cfg.csi_endpoint r q s' set_up) in
      (
        run cfg.csi_endpoint q,
        runs,
        handle-IsStarted platform vendor_version api_host var s s' (run cfg.csi_endpoint q) runs,
      )
