-- ===== src/Main/Laws.antt =====
-- What `handle` of main.go has seen to when it has started the server.
use linode_blockstorage_csi.Common.{
  Text, codes, [], ◌∷◌, ◌++◌, is_empty, pos, Bool-cases, true, false, ◌≡◌, ◌≢◌, inl, inr, refl, ap,
  ◌∙◌, some, arith,
}
use linode_blockstorage_csi.Errors.{GoError}
use linode_blockstorage_csi.Effect.{Result, ok, err, State, done, recover}
use linode_blockstorage_csi.Effect.Runs.{>>=-done, recover-done}
use linode_blockstorage_csi.Effect.Runs.{lift-done}
use linode_blockstorage_csi.Linodego.{new_linode_client}
use linode_blockstorage_csi.Metadata.{Metadata, get_node_metadata}
use linode_blockstorage_csi.Metadata.Laws.{get_node_metadata_nonzero}
use linode_blockstorage_csi.Grpc.{Reachable, started}
use linode_blockstorage_csi.Driver.{Parts, LinodeDriver}
use linode_blockstorage_csi.Driver.Identity.{probe}
use linode_blockstorage_csi.Driver.Setup.{
  SetupArgs, Process, setup_linode_driver, Running, run, run_server,
}
use linode_blockstorage_csi.Driver.Complete.{IsComplete, IsSetUp, setup_linode_driver_iff}
use linode_blockstorage_csi.Main.{
  Platform, Configuration, load_config, handle, setup_args, process, wrapped, set_up_and_run,
  from_config, make_client, find_metadata, wrap_metadata, with_metadata, with_client,
}

-- What a started process has: the metadata are what `get_node_metadata` found on the way, and the
-- services hold them.
pub record IsStarted {W : Type 0} {parts : Parts} (platform : Platform W parts)
    (vendor_version : Text) (cfg : Configuration) (p : Process parts) : Type 0 where
  pub versioned : vendor_version ≢ []
  pub token : cfg.linode_token ≢ []
  pub client : parts.Client
  pub client_made :
      new_linode_client platform.lib platform.parse_url cfg.linode_token
        (codes "LinodeCSI/" ++ vendor_version)
        cfg.linode_url
      ≡ ok client
  pub metadata : Metadata
  pub found :
      (s : State W) × (s' : State W) × (get_node_metadata platform.service
          (some (platform.calls client))
          platform.file_system
          s
        ≡ (done metadata, s'))
  pub known : metadata.id ≢ pos 0
  pub complete : IsComplete (setup_args platform vendor_version cfg client metadata)
  pub set_up : IsSetUp (setup_args platform vendor_version cfg client metadata) (process platform) p
  pub ready : probe p.driver ≡ true
  pub server :
      (r : Running) × (p.server ≡ some r)
      × (r.endpoint ≡ cfg.csi_endpoint)
      × Reachable cfg.enable_metrics cfg.metrics_port r.grpc

full_is_named : (s : Text) → is_empty s ≡ false → s ≢ []
full_is_named [] h e = cc
full_is_named (c ∷ s) h e = cc

module _ {W : Type 0} {parts : Parts} (platform : Platform W parts) where
  wrapped-ok :
      {A : Type 0} (wrap : GoError → GoError) (r : Result A) (a : A)
      → wrapped platform wrap r ≡ ok a
      → r ≡ ok a
  unfolding wrapped
  wrapped-ok wrap (ok b) a e = e
  wrapped-ok wrap (err x) a e = absurd cc

  find_metadata-done :
      (client : parts.Client) (md : Metadata) (s s' : State W)
      → find_metadata platform client s ≡ (done md, s')
      → (t : State W) × (get_node_metadata platform.service
            (some (platform.calls client))
            platform.file_system
            s
          ≡ (done md, t))
  unfolding find_metadata
  find_metadata-done client md s s' h =
      let ask =
        get_node_metadata platform.service (some (platform.calls client)) platform.file_system in
      let (r, t, asked, h₁) = >>=-done (recover ask) (wrap_metadata platform) s s' md h in
      let got = wrapped-ok _ r md (lift-done (wrapped platform _ r) t s' md h₁) in
      (t, recover-done ask s t md (asked ∙ ap (λ r. (done r, t)) got))

  made_client-done :
      (vendor_version : Text) (cfg : Configuration) (client : parts.Client) (s s' : State W)
      → make_client platform vendor_version cfg s ≡ (done client, s')
      → new_linode_client platform.lib platform.parse_url cfg.linode_token
          (codes "LinodeCSI/" ++ vendor_version)
          cfg.linode_url
        ≡ ok client
  unfolding make_client
  made_client-done vendor_version cfg client s s' h =
      wrapped-ok _ _ client (lift-done (wrapped platform _ _) s s' client h)

  set_up_and_run-done :
      (endpoint : Text) (r : Result (Unit {0})) (q : Process parts) (s s' : State W)
      (p : Process parts)
      → set_up_and_run platform endpoint (r, q) s ≡ (done p, s')
      → (r ≡ ok tt) × (p ≡ run endpoint q)
  unfolding set_up_and_run
  set_up_and_run-done endpoint (ok u) q s s' p e = (refl, ground arith)
  set_up_and_run-done endpoint (err x) q s s' p e = absurd (ground arith)

  run-IsSetUp :
      (args : SetupArgs parts) (endpoint : Text) (before q : Process parts)
      → IsSetUp args before q
      → IsSetUp args before (run endpoint q)
  unfolding run
  run-IsSetUp args endpoint before q h = record {
    name = h.name;
    vendor_version = h.vendor_version;
    volume_label_prefix = h.volume_label_prefix;
    ns = h.ns;
    ids = h.ids;
    cs = h.cs;
    enable_metrics = h.enable_metrics;
    metrics_port = h.metrics_port;
    enable_tracing = h.enable_tracing;
    tracing_port = h.tracing_port;
    tracer = h.tracer;
    skip_observability = h.skip_observability;
  }

  run-ready : (endpoint : Text) (q : Process parts) → probe (run endpoint q).driver ≡ true
  unfolding run probe
  run-ready endpoint q = refl

  run_server-Reachable :
      (em mp : Text) (driver : LinodeDriver parts)
      → driver.enable_metrics ≡ em
      → driver.metrics_port ≡ mp
      → Reachable em mp (run_server driver)
  unfolding run_server
  run_server-Reachable em mp driver he hm = rw (he, hm) started

  run_starts :
      (endpoint : Text) (q : Process parts)
      → (run endpoint q).server ≡ some (record { endpoint = endpoint; grpc = run_server q.driver })
  unfolding run
  run_starts endpoint q = refl

  from_config-done :
      (vendor_version : Text) (cfg : Configuration) (s s' : State W) (p : Process parts)
      → vendor_version ≢ []
      → from_config platform vendor_version cfg s ≡ (done p, s')
      → IsStarted platform vendor_version cfg p
  unfolding from_config
  from_config-done vendor_version cfg s s' p versioned =
      elim (Bool-cases (is_empty cfg.linode_token)) [
        | inl empty ↦ rw empty (λ h. absurd (ground arith))
        | inr full ↦ rw full (λ h.
            let (client, s₁, made, h₁) =
              >>=-done (make_client platform vendor_version cfg)
                (with_client platform vendor_version cfg) s s' p h in
            let (metadata, s₂, found, h₂) =
              >>=-done (find_metadata platform client)
                (with_metadata platform vendor_version cfg client) s₁ s' p h₁ in
            let args = setup_args platform vendor_version cfg client metadata in
            let q = (setup_linode_driver args (process platform)).1 in
            let (t, asked) = find_metadata-done client metadata s₁ s₂ found in
            let (accepted, same) =
              set_up_and_run-done cfg.csi_endpoint (setup_linode_driver args (process platform)).0 q
                s₂ s' p h₂ in
            let (whole, leaves) = setup_linode_driver_iff args (process platform) in
            let set_up = leaves accepted in
            record {
              versioned = versioned;
              token = full_is_named cfg.linode_token full;
              client = client;
              client_made = made_client-done vendor_version cfg client s s₁ made;
              metadata = metadata;
              found = (s₁, t, asked);
              known =
                  get_node_metadata_nonzero platform.service (some (platform.calls client))
                    platform.file_system s₁ t metadata asked;
              complete = whole.0 accepted;
              set_up = rw same (run-IsSetUp args cfg.csi_endpoint (process platform) q set_up);
              server = rw same (
                _,
                run_starts cfg.csi_endpoint q,
                refl,
                run_server-Reachable cfg.enable_metrics cfg.metrics_port q.driver
                    set_up.enable_metrics set_up.metrics_port,
              );
              ready = rw same (run-ready cfg.csi_endpoint q);
            })
      ]

  pub handle-IsStarted :
      (vendor_version api_host : Text) (var : Text → Text → Text) (s s' : State W)
      (p : Process parts)
      → handle platform vendor_version api_host var s ≡ (done p, s')
      → IsStarted platform vendor_version (load_config api_host var) p
  unfolding handle
  handle-IsStarted vendor_version api_host var s s' p =
      elim (Bool-cases (is_empty vendor_version)) [
        | inl empty ↦ rw empty (λ h. absurd (ground arith))
        | inr full ↦ rw full (λ h.
            from_config-done vendor_version (load_config api_host var) s s' p
              (full_is_named vendor_version full) h)
      ]
