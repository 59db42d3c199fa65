-- ===== src/Controller/Create/NilWait.antt =====
-- `CreateVolume` panics only where a wait for a volume returned none.
use linode_blockstorage_csi.Common.{ℤ, Text, Dict, get, Option, none, ◌≡◌, ◌∙◌, ap}
use linode_blockstorage_csi.Effect.{
  done, State, M, tell, deref, pure, or_record, ◌>>=◌, ◌>>◌, create_volume_op, record_metrics,
  completed_status,
}
use linode_blockstorage_csi.Effect.Panics.{
  PanicsIf, >>=-PanicsIf, then-PanicsIf, tell_then-PanicsIf, deref-PanicsIf, or_record-PanicsIf,
  lift-PanicsIf, pure-PanicsIf, record_metrics-PanicsIf,
}
use linode_blockstorage_csi.Effect.Runs.{or_record-done, tell-done, >>=-done}
use linode_blockstorage_csi.Volumes.{LinodeVolumeKey}
use linode_blockstorage_csi.Api.{LinodeClient, Volume, volume_active}
use linode_blockstorage_csi.Api.Replies.{ApiReplies}
use linode_blockstorage_csi.Csi.{CreateVolumeRequest}
use linode_blockstorage_csi.Controller.{Server, volume_tags}
use linode_blockstorage_csi.Controller.Provision.{
  VolumeParams, validate_create_volume_request, create_volume_context,
  prepare_create_volume_response,
}
use linode_blockstorage_csi.Controller.Create.Calm.{
  IsNilWait, prepare_volume_params-PanicsIf, get_content_source_volume-PanicsIf, attempt-PanicsIf,
  attempt-given, check_size-PanicsIf, waited-PanicsIf, waited-given,
}
use linode_blockstorage_csi.Controller.Create.{
  attempt_create_linode_volume, check_size, poll_timeout, waited, create_and_wait_for_volume,
  create_volume,
}

module _ {W : Type 0} {client : LinodeClient W} (replies : ApiReplies client) where
  module _ (name : Text) (parameters : Dict) (encryption : Text) (size : ℤ)
      (source : Option LinodeVolumeKey) (region : Text) where
    abbrev attempt : M W (Option Volume)
    attempt =
        attempt_create_linode_volume client name (get volume_tags parameters) encryption size source
          region

    -- The wait for the volume that is there.
    unfoldable waiting : Volume → M W (Option Volume)
    waiting vol = do
      check_size client vol size source
      reply ← tell (client.wait_for_volume_status vol.id volume_active (poll_timeout client source))
      waited client reply

    waiting-PanicsIf : (vol : Volume) → PanicsIf (IsNilWait client) (waiting vol)
    unfolding waiting
    waiting-PanicsIf vol =
        >>=-PanicsIf (check_size-PanicsIf replies (IsNilWait client) vol size source) (λ _.
          tell_then-PanicsIf
            (client.wait_for_volume_status vol.id volume_active (poll_timeout client source))
            (λ r w e.
              waited-PanicsIf replies (IsNilWait client) r
                (λ k. (vol.id, poll_timeout client source, w, ap (λ r. r.0) e ∙ k))))

    waiting-given :
        (vol : Volume) (s s' : State W) (o : Option Volume)
        → waiting vol s ≡ (done o, s')
        → o ≡ none
        → IsNilWait client
    unfolding waiting
    waiting-given vol s s' o e k =
        let wait =
          client.wait_for_volume_status vol.id volume_active (poll_timeout client source) in
        let (_, t, _, h) =
          >>=-done (check_size client vol size source) (λ _. tell wait >>= waited client) s s' o
            e in
        let (r, t', h', h'') = >>=-done (tell wait) (waited client) t s' o h in
        waited-given replies (IsNilWait client) r t' s' o
          (λ k. (
            vol.id,
            poll_timeout client source,
            t.world,
            ap (λ p. p.0.0) (tell-done wait t t' r h') ∙ k,
          ))
          h'' k

    abbrev create_and_wait : M W (Option Volume)
    create_and_wait =
        create_and_wait_for_volume client name parameters encryption size source region

    create_and_wait-PanicsIf : PanicsIf (IsNilWait client) create_and_wait
    unfolding create_and_wait_for_volume waiting
    create_and_wait-PanicsIf =
        then-PanicsIf
          (attempt-PanicsIf replies (IsNilWait client) name (get volume_tags parameters) encryption
            size region source)
          (λ made s s' e.
            >>=-PanicsIf
              (deref-PanicsIf made (
                attempt-given replies (IsNilWait client) name (get volume_tags parameters)
                  encryption size region source s s' made e))
              waiting-PanicsIf)

    create_and_wait-given :
        (s s' : State W) (o : Option Volume)
        → create_and_wait s ≡ (done o, s')
        → o ≡ none
        → IsNilWait client
    unfolding create_and_wait_for_volume waiting
    create_and_wait-given s s' o e k =
        let (made, t, _, h) = >>=-done attempt (λ made. deref made >>= waiting) s s' o e in
        let (vol, t', _, h') = >>=-done (deref made) waiting t s' o h in
        waiting-given vol t' s' o h' k

  made-PanicsIf :
      (req : CreateVolumeRequest) (params : VolumeParams) (source : Option LinodeVolumeKey)
      → PanicsIf (IsNilWait client) (do
        made ← or_record create_volume_op (
            create_and_wait params.volume_name req.parameters params.encryption_status
              params.target_size_gb source params.region)
        vol ← deref made
        record_metrics create_volume_op completed_status
        pure (
            prepare_create_volume_response vol params.size
              (create_volume_context req vol)
              source
              req.content_source))
  made-PanicsIf req params source =
      let run =
        create_and_wait params.volume_name req.parameters params.encryption_status
          params.target_size_gb source params.region in
      then-PanicsIf
        (or_record-PanicsIf create_volume_op (
          create_and_wait-PanicsIf params.volume_name req.parameters params.encryption_status
            params.target_size_gb source params.region))
        (λ made s s' e.
          >>=-PanicsIf
            (deref-PanicsIf made (
              create_and_wait-given params.volume_name req.parameters params.encryption_status
                params.target_size_gb source params.region s s' made
                (or_record-done create_volume_op run s s' made e)))
            (λ vol. >>=-PanicsIf (record_metrics-PanicsIf create_volume_op completed_status) (λ _.
              pure-PanicsIf (
                prepare_create_volume_response vol params.size (create_volume_context req vol)
                  source req.content_source))))

  -- Under what the API client documents of its pointers, `CreateVolume` panics only where a wait
  -- for a volume returned none.
  pub create_volume-PanicsIf :
      (server : Server) (req : CreateVolumeRequest)
      → PanicsIf (IsNilWait client) (create_volume client server req)
  unfolding create_volume
  create_volume-PanicsIf server req =
      let E = IsNilWait client in
      >>=-PanicsIf
        (or_record-PanicsIf create_volume_op (lift-PanicsIf (validate_create_volume_request req)))
        (λ _.
          >>=-PanicsIf
            (or_record-PanicsIf create_volume_op
              (prepare_volume_params-PanicsIf replies E server req))
            (λ params.
              >>=-PanicsIf
                (or_record-PanicsIf create_volume_op (
                  get_content_source_volume-PanicsIf replies E server req.content_source
                    req.accessibility_requirements))
                (λ source. made-PanicsIf req params source)))
