-- ===== src/Driver/Complete.antt =====
-- What `SetupLinodeDriver` accepts, and the driver that it leaves.
use linode_blockstorage_csi.Common.{
  Text, codes, text_eq, is_empty, ◌++◌, if◌then◌else◌, some, Option-cases, [], ◌∷◌, Bool-cases,
  true, false, ◌≡◌, ◌≢◌, ◌↔◌, ◌⊎◌, inl, inr, refl,
}
use linode_blockstorage_csi.Errors.{GoError}
use linode_blockstorage_csi.Effect.{Result, ok, err}
use linode_blockstorage_csi.Luks.{true_text}
use linode_blockstorage_csi.Driver.{
  Parts, NodeServer, ControllerServer, IdentityServer, check_volume_label_prefix, new_node_server,
  new_controller_server, new_identity_server,
}
use linode_blockstorage_csi.Driver.Setup.{
  SetupArgs, Process, setup_linode_driver, set_prefix, set_node_server, set_identity_server,
  set_controller_server, set_observability, set_tracing, init_tracer,
}

-- What `SetupLinodeDriver` asks of its arguments.
pub record IsComplete {parts : Parts} (args : SetupArgs parts) : Type 0 where
  pub named : args.name ≢ []
  pub prefix : check_volume_label_prefix args.volume_label_prefix ≡ ok tt
  pub mounter : (m : parts.Mounter) × (args.mounter ≡ some m)
  pub device_utils : (u : parts.DeviceUtils) × (args.device_utils ≡ some u)
  pub client : (c : parts.Client) × (args.linode_client ≡ some c)

-- What it makes of them in a process that was `q`.
pub record IsSetUp {parts : Parts} (args : SetupArgs parts) (q p : Process parts) : Type 0 where
  pub name : p.driver.name ≡ args.name
  pub vendor_version : p.driver.vendor_version ≡ args.vendor_version
  pub volume_label_prefix : p.driver.volume_label_prefix ≡ args.volume_label_prefix
  pub ns :
      (n : NodeServer parts) × (p.driver.ns ≡ some n)
      × (some n.client ≡ args.linode_client)
      × (some n.mounter ≡ args.mounter)
      × (some n.device_utils ≡ args.device_utils)
      × (n.metadata ≡ args.metadata)
      × (n.encrypt ≡ args.encrypt)
  pub ids : (i : IdentityServer) × (p.driver.ids ≡ some i)
  pub cs :
      (c : ControllerServer parts) × (p.driver.cs ≡ some c)
      × (some c.client ≡ args.linode_client)
      × (c.metadata ≡ args.metadata)
  pub enable_metrics : p.driver.enable_metrics ≡ args.enable_metrics
  pub metrics_port : p.driver.metrics_port ≡ args.metrics_port
  pub enable_tracing : p.driver.enable_tracing ≡ args.enable_tracing
  pub tracing_port : p.driver.tracing_port ≡ args.tracing_port
  pub tracer : p.tracer ≡ (
      if text_eq args.enable_tracing true_text
      then some (record {
        endpoint = codes "otel-collector:" ++ args.tracing_port;
        service_name = codes "linode-csi-driver";
        service_version = args.vendor_version;
      })
      else q.tracer)
  pub skip_observability :
      p.skip_observability
      ≡ (if text_eq args.enable_tracing true_text then false else q.skip_observability)

named_is_full : (s : Text) → s ≢ [] → is_empty s ≡ false
named_is_full [] h = absurd (h refl)
named_is_full (c ∷ s) h = refl

is_empty-cases : (s : Text) → (is_empty s ≡ true) ⊎ ((is_empty s ≡ false) × (s ≢ []))
is_empty-cases [] = inl refl
is_empty-cases (c ∷ s) = inr (refl, λ e. cc)

Result-cases : {A : Type 0} (r : Result A) → ((a : A) × (r ≡ ok a)) ⊎ ((e : GoError) × (r ≡ err e))
Result-cases (ok a) = inl (a, refl)
Result-cases (err e) = inr (e, refl)

module _ {parts : Parts} where
  complete-IsSetUp :
      (args : SetupArgs parts) (p : Process parts)
      → IsComplete args
      → let (r, p') = setup_linode_driver args p in (r ≡ ok tt) × IsSetUp args p p'
  unfolding setup_linode_driver set_prefix set_node_server set_identity_server set_controller_server
      set_observability set_tracing init_tracer new_node_server new_identity_server
      new_controller_server
  complete-IsSetUp args p h =
      let (m, hm) = h.mounter in
      let (u, hu) = h.device_utils in
      let (c, hc) = h.client in
      let full = named_is_full args.name h.named in
      elim (Bool-cases (text_eq args.enable_tracing true_text)) [
        | inl traced ↦
            rw
              (
                full, set_prefix, h.prefix, set_node_server, hm, hu, hc, set_identity_server,
                set_controller_server, hc, set_observability, set_tracing, traced,
              )
              (
                refl,
                record {
                  name = refl;
                  vendor_version = refl;
                  volume_label_prefix = refl;
                  ns = (_, refl, refl, refl, refl, refl, refl);
                  ids = (_, refl);
                  cs = (_, refl, refl, refl);
                  enable_metrics = refl;
                  metrics_port = refl;
                  enable_tracing = refl;
                  tracing_port = refl;
                  tracer = rw traced refl;
                  skip_observability = rw traced refl;
                },
              )
        | inr plain ↦
            rw
              (
                full, set_prefix, h.prefix, set_node_server, hm, hu, hc, set_identity_server,
                set_controller_server, hc, set_observability, set_tracing, plain,
              )
              (
                refl,
                record {
                  name = refl;
                  vendor_version = refl;
                  volume_label_prefix = refl;
                  ns = (_, refl, refl, refl, refl, refl, refl);
                  ids = (_, refl);
                  cs = (_, refl, refl, refl);
                  enable_metrics = refl;
                  metrics_port = refl;
                  enable_tracing = refl;
                  tracing_port = refl;
                  tracer = rw plain refl;
                  skip_observability = rw plain refl;
                },
              )
      ]

  accepted-IsComplete :
      (args : SetupArgs parts) (p : Process parts)
      → (setup_linode_driver args p).0 ≡ ok tt
      → IsComplete args
  unfolding setup_linode_driver new_node_server
  accepted-IsComplete args p = elim (is_empty-cases args.name) [
    | inl empty ↦ rw empty (λ h. absurd cc)
    | inr (full, named) ↦ elim (Result-cases (check_volume_label_prefix args.volume_label_prefix)) [
      | inr (e, bad) ↦ rw (full, set_prefix, bad) (λ h. absurd cc)
      | inl (_, good) ↦ elim (Option-cases args.mounter) [
        | inl nil ↦ rw (full, set_prefix, good, set_node_server, nil) (λ h. absurd cc)
        | inr (m, hm) ↦ elim (Option-cases args.device_utils) [
          | inl nil ↦ rw (full, set_prefix, good, set_node_server, hm, nil) (λ h. absurd cc)
          | inr (u, hu) ↦ elim (Option-cases args.linode_client) [
            | inl nil ↦ rw (full, set_prefix, good, set_node_server, hm, hu, nil) (λ h. absurd cc)
            | inr (c, hc) ↦ (λ h. record {
              named = named;
              prefix = good;
              mounter = (m, hm);
              device_utils = (u, hu);
              client = (c, hc);
            })
          ]
        ]
      ]
    ]
  ]

  -- Setting up the driver succeeds exactly if there is a name, the prefix is accepted, and the mounter,
  -- the device utilities and the client are not nil; then the driver has the name, the version
  -- and the prefix, all three services, the node and the controller service with the client and the
  -- metadata, the node service with the mounter, the device utilities and the encryption too, and
  -- the metrics' and the tracing's configuration; and the process has a tracer for the tracing port
  -- if tracing is "true", and else keeps the one that it had.
  pub setup_linode_driver_iff :
      (args : SetupArgs parts) (p : Process parts)
      → let (r, p') = setup_linode_driver args p in
        ((r ≡ ok tt) ↔ IsComplete args) × (r ≡ ok tt → IsSetUp args p p')
  setup_linode_driver_iff args p = (
    (accepted-IsComplete args p, (λ h. (complete-IsSetUp args p h).0)),
    (λ h. (complete-IsSetUp args p (accepted-IsComplete args p h)).1),
  )
