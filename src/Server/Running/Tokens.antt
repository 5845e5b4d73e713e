-- ===== src/Server/Running/Tokens.antt =====
-- NewStreamHostToken: who gets a token, and that it is the host's of that stream.
use cc_core_server.Common.{
  String, Bool, true, false, some, Result, ok, err, ◌≡◌, ◌∙◌, ap, sym, refl, arith, eq_iff,
}
use cc_core_server.Common.Text.{◌==◌}
use cc_core_server.Service.{AuthInfo}
use cc_core_server.Server.{StreamRecord, Externals, StreamModule, Server, running, stored}
use cc_core_server.Server.Records.{
  parse_token-stream_claims, default_stream_token_type, stream_claims,
}
use cc_core_server.Server.Running.{
  running_record, host_auth, subject_verified, host_token_found, new_stream_host_token,
}
use cc_core_server.Server.Invariant.{IsConsistent}
use cc_core_server.Server.Invariant.Joins.{running_record-eq-ok}

module _ ⦃x : Externals⦄ where
  -- A host token that was given out for a stream and a subject.
  pub record IsHostToken (s : Server x) (uuid subject : String) (auth : AuthInfo) : Type 0 where
    pub module_of : StreamModule x
    pub info : StreamRecord
    pub runs : running s uuid ≡ some module_of
    pub is_stored : stored s uuid ≡ some (ok info)
    pub owner : info.subject ≡ subject
    pub nonempty : (subject == "") ≡ false
    pub accepted :
        x.parse_token module_of.public_key auth.access_token
        ≡ ok (stream_claims uuid info.host.uuid true)
    pub bearer : auth.token_type ≡ "bearer"

  host_auth-eq-ok :
      (m : StreamModule x) (uuid host_uuid : String) (auth : AuthInfo) (o : Result String)
      → x.sign m.private_key (stream_claims uuid host_uuid true) ≡ o
      → host_auth o ≡ ok auth
      → (x.parse_token (x.public_key m.private_key) auth.access_token
          ≡ ok (stream_claims uuid host_uuid true))
        × (auth.token_type ≡ "bearer")
  unfolding host_auth
  host_auth-eq-ok m uuid host_uuid auth (err e) he h = cc
  host_auth-eq-ok m uuid host_uuid auth (ok token) he h =
      let same : record { access_token = token; token_type = default_stream_token_type } ≡ auth =
        cc in
      (
        ap (λ (a : AuthInfo). x.parse_token (x.public_key m.private_key) a.access_token) (sym same)
            ∙ parse_token-stream_claims m.private_key uuid host_uuid true token he,
        ap (λ (a : AuthInfo). a.token_type) (sym same),
      )

  subject_verified-accepted :
      (uuid : String) (b : Bool) (m : StreamModule x) (r : StreamRecord) (auth : AuthInfo)
      → subject_verified uuid b m r ≡ ok auth
      → (b ≡ false)
        × (x.parse_token (x.public_key m.private_key) auth.access_token
            ≡ ok (stream_claims uuid r.host.uuid true))
        × (auth.token_type ≡ "bearer")
  unfolding subject_verified
  subject_verified-accepted uuid true m r auth h = cc
  subject_verified-accepted uuid false m r auth h =
      let (accepts, bearer) = host_auth-eq-ok m uuid r.host.uuid auth _ refl h in
      (refl, accepts, bearer)

  -- In a consistent server a host token is given out only for a running stream, to its recorded
  -- subject, which is not empty; the stream's own key accepts it, with the claims of the host.
  pub new_stream_host_token-IsHostToken :
      (s : Server x) (uuid subject : String) (auth : AuthInfo)
      → IsConsistent s
      → new_stream_host_token s uuid subject ≡ ok auth
      → IsHostToken s uuid subject auth
  unfolding new_stream_host_token host_token_found
  new_stream_host_token-IsHostToken s uuid subject auth c h = go (running_record s uuid) refl h
    where
      go :
          (o : Result (StreamModule x × StreamRecord))
          → running_record s uuid ≡ o
          → host_token_found uuid subject o ≡ ok auth
          → IsHostToken s uuid subject auth
      go (err e) found h' = cc
      go (ok (m, r)) found h' =
          let (runs, was) = running_record-eq-ok s uuid m r found in
          let (verified, accepts, bearer) = subject_verified-accepted uuid _ m r auth h' in
          let same : r.subject ≡ subject = ground (arith, verified, eq_iff r.subject subject) in
          record {
            module_of = m;
            info = r;
            runs = runs;
            is_stored = was;
            owner = same;
            nonempty = ground (arith, verified, same);
            accepted =
                ap (λ k. x.parse_token k auth.access_token) ((c.at uuid m runs).key_pair) ∙ accepts;
            bearer = bearer;
          }
