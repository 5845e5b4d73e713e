-- ===== src/Handlers/Patches.antt =====
-- What a patch of a stream does through its handler (handler/patch_stream_info.go,
-- handler/models/stream.go).
use cc_core_server.Common.{
  String, none, some, plain, Result, ok, err, returns, ◌≡◌, ◌∙◌, ap, sym, refl, arith,
}
use cc_core_server.Common.Text.{eq_refl}
use cc_core_server.Common.SyncMap
use cc_core_server.Service.{Participant, PatchStreamConfig}
use cc_core_server.Storage.{Bucket, load_value, store_value}
use cc_core_server.Storage.Laws.{load_value-store_value}
use cc_core_server.Server.{StreamRecord, Externals, StreamModule, Server, running, stored}
use cc_core_server.Server.Records.{patch_record}
use cc_core_server.Server.Running.{running_record, patch_stored, patch_found, patch_stream}
use cc_core_server.Server.Invariant.Joins.{running_record-eq-ok}
use cc_core_server.Server.Participants.{
  returned, policy_case, join_by_policy, rejected, join_found, join_participant,
}
use cc_core_server.Checks.{
  Validation, parsed, validate_request, validated, parse_json_request, decoded,
}
use cc_core_server.Payload.{
  PatchStreamRequest, join_policies_allowed, patch_checks, patch_host_checked,
  validate_patch_stream, blank_patch_stream,
}
use cc_core_server.Handlers.Endpoints.{patch_config}
use cc_core_server.Handlers.Owners.{running_record-found}

-- A request that gives nothing but a code to join by.
abbrev pub only_code : String → PatchStreamRequest
only_code code = record {
  name = none;
  description = none;
  join = some (record { policy = ""; code = code });
  host = none;
}

decoded_record : {a b : StreamRecord} → some (ok a) ≡ some (ok b) → a ≡ b
decoded_record h = cc

module _ ⦃x : Externals⦄ where
  -- A patch that is stored: its record is there, and the stream runs as before.
  patch_stored-ok :
      (cfg : PatchStreamConfig) (uuid : String) (r : StreamRecord) (s : Server x)
      (b : Bucket x.bolt)
      → store_value x.stream_codec s.stream_storage uuid r ≡ ok b
      → (stored (patch_stored cfg uuid r s (ok b)).1 uuid ≡ some (ok r))
        × ((patch_stored cfg uuid r s (ok b)).1.streams ≡ s.streams)
  unfolding patch_stored
  patch_stored-ok cfg uuid r s b done = (
    ap (λ c. load_value x.stream_codec c uuid) {y = b} (ground arith)
        ∙ load_value-store_value x.stream_codec s.stream_storage b uuid uuid r done
        ∙ rw (eq_refl uuid) refl,
    ground arith,
  )

  patch_stored-host :
      (cfg : PatchStreamConfig) (uuid : String) (was now : StreamRecord) (s : Server x)
      (o : Result (Bucket x.bolt))
      → cfg.host ≡ none
      → store_value x.stream_codec s.stream_storage uuid (patch_record cfg was) ≡ o
      → stored s uuid ≡ some (ok was)
      → stored (patch_stored cfg uuid (patch_record cfg was) s o).1 uuid ≡ some (ok now)
      → now.host ≡ was.host
  unfolding patch_stored patch_record
  patch_stored-host cfg uuid was now s (err e) hostless done before after =
      ap (λ (r : StreamRecord). r.host) (decoded_record (sym after ∙ before))
  patch_stored-host cfg uuid was now s (ok b) hostless done before after =
      ap (λ (r : StreamRecord). r.host)
        (decoded_record (sym after ∙ (patch_stored-ok cfg uuid (patch_record cfg was) s b done).0))
      ∙ ap
          (λ o. elim o [
            | none ↦ was.host
            | some h ↦ record was.host { username = h.username; avatar_id = h.avatar_id }
          ])
          hostless

  -- A patch of a stream through its handler never changes the stored host, whatever the request
  -- says of the host.
  pub patch_stream-host :
      (req : PatchStreamRequest) (uuid : String) (s : Server x) (was now : StreamRecord)
      → stored s uuid ≡ some (ok was)
      → stored (patch_stream uuid (patch_config req) s).1 uuid ≡ some (ok now)
      → now.host ≡ was.host
  unfolding patch_stream patch_config
  patch_stream-host req uuid s was now before after = go (running_record s uuid) refl after
    where
      go :
          (o : Result (StreamModule x × StreamRecord))
          → running_record s uuid ≡ o
          → stored (patch_found (patch_config req) uuid s o).1 uuid ≡ some (ok now)
          → now.host ≡ was.host
      go (err e) found h = ap (λ (r : StreamRecord). r.host) (decoded_record (sym h ∙ before))
      go (ok (m, r)) found h =
          let same = decoded_record (sym (running_record-eq-ok s uuid m r found).1 ∙ before) in
          patch_stored-host (patch_config req) uuid r now s _ refl refl
            (running_record-eq-ok s uuid m r found).1 h
          ∙ ap (λ (q : StreamRecord). q.host) same

  -- The record after a patch that gives only a code: the policy is the empty text.
  only_code-record :
      (code uuid : String) (s : Server x) (m : StreamModule x) (r : StreamRecord)
      (b : Bucket x.bolt)
      → running s uuid ≡ some m
      → stored s uuid ≡ some (ok r)
      → store_value x.stream_codec s.stream_storage uuid
          (patch_record (patch_config (only_code code)) r)
        ≡ ok b
      → running_record (patch_stream uuid (patch_config (only_code code)) s).1 uuid
        ≡ ok (m, patch_record (patch_config (only_code code)) r)
  unfolding patch_stream patch_found
  only_code-record code uuid s m r b runs was done =
      let cfg = patch_config (only_code code) in
      let stays = patch_stored-ok cfg uuid (patch_record cfg r) s b done in
      let after : (patch_stream uuid cfg s).1
          ≡ (patch_stored cfg uuid (patch_record cfg r) s (ok b)).1 =
        ap (λ o. (patch_found cfg uuid s o).1) {y = ok (m, r)}
          (running_record-found s uuid m r runs was)
        ∙ ap (λ o. (patch_stored cfg uuid (patch_record cfg r) s o).1) done in
      running_record-found (patch_stream uuid cfg s).1 uuid m (patch_record cfg r)
        (ap (λ t. running t uuid) after ∙ ap (SyncMap.load uuid) stays.1 ∙ runs)
        (ap (λ t. stored t uuid) after ∙ stays.0)

  -- A request to patch a running stream that gives nothing but a code, without a policy, is
  -- accepted, and once it is stored every join of the stream is refused, with the right code too.
  pub patch_stream-no_more_joins :
      (v : Validation) (code uuid : String) (s : Server x) (m : StreamModule x) (r : StreamRecord)
      (b : Bucket x.bolt) (joining join_code : String) (p : Participant)
      → running s uuid ≡ some m
      → stored s uuid ≡ some (ok r)
      → store_value x.stream_codec s.stream_storage uuid
          (patch_record (patch_config (only_code code)) r)
        ≡ ok b
      → (parse_json_request blank_patch_stream (validate_patch_stream v) (decoded (only_code code))
          ≡ returns (parsed (only_code code)))
        × ((join_participant joining uuid join_code p
              (patch_stream uuid (patch_config (only_code code)) s).1).0
            ≡ returned (err (plain "unknown stream join policy")))
  unfolding parse_json_request validated validate_request validate_patch_stream patch_host_checked
      join_participant join_found join_by_policy rejected policy_case patch_record patch_config
  patch_stream-no_more_joins v code uuid s m r b joining join_code p runs was done = (
    ap (λ es. returns (validate_request (only_code code) es))
        (v.filter-nil (patch_checks v (only_code code)) (v.check_empty join_policies_allowed, tt)),
    ap
        (λ o.
          (join_found joining uuid join_code p
            (patch_stream uuid (patch_config (only_code code)) s).1 o).0)
        (only_code-record code uuid s m r b runs was done),
  )
