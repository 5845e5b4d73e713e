-- ===== src/Handlers/Isolation.antt =====
-- What a request can change through the router (handler/router.go, handler/middleware/auth.go).
use cc_core_server.Common.{
  GoError, error_text, String, true, Option, none, some, Run, returns, panics, inl, inr, ◌⊎◌, ◌≡◌,
  ◌∙◌, ap, sym, refl, arith, eq_iff,
}
use mathlib.Core.Path.{subst}
use cc_core_server.Common.SyncMap.{SyncMap}
use cc_core_server.Server.{Externals, Server}
use cc_core_server.Server.Isolation.{SameStream, SameStream-refl}
use cc_core_server.Server.Invariant.Reach.{Reach, here}
use cc_core_server.Middleware.{
  Access, passed, refused, ParticipantCtxData, server_auth, status_unauthorized, auth_error,
}
use cc_core_server.Middleware.Passing.{IsAuthorized, stream_auth-IsAuthorized}
use cc_core_server.Handlers.{Request, var, World, Drawn}
use cc_core_server.Handlers.Endpoints.{Context}
use cc_core_server.Handlers.Routes.{
  Endpoint, server_secured, stream_secured, Route, routes, Matched, matched, unmatched, Mux,
  with_subject, handle, guarded, admitted, routed, serve,
}
use cc_core_server.Handlers.Guards.{
  IsGuarded, routes-IsGuarded, guard_needed-host, guard_needed-create, with_participant-passed,
  with_subject-passed,
}
use cc_core_server.Handlers.Effects.{handle-Effect, Effect-Reach, Effect-SameStream}

module _ ⦃x : Externals⦄ (world : World) (d : Drawn x) where
  -- The request carries a token that the key of the running stream `j` accepts, of its host.
  pub record IsHostOf (r : Request world.http) (s : Server x) (j : String) : Type 0 where
    pub participant : ParticipantCtxData
    pub authorized : IsAuthorized true r.authorization j s participant

  -- The request makes the stream `j`; with server security its token is one of the server's.
  pub record IsMakerOf (r : Request world.http) (s : Server x) (j : String) : Type 0 where
    pub drawn : d.stream.stream_uuid ≡ j
    pub by_token :
        s.opts.server_security_enabled ≡ true
        → (key : x.PublicKey) × (s.opts.public_key ≡ some key)
          × (subject : String) × (server_auth key r.code_cord_auth ≡ passed subject)

  host_passed :
      (r : Request world.http) (vars : SyncMap String) (s : Server x) (c : Context)
      → guarded world d (stream_secured true) r vars s ≡ returns (passed c)
      → IsHostOf r s (var "uuid" vars)
  unfolding guarded
  host_passed r vars s c h =
      let (p, e, same) = with_participant-passed _ c h in
      record {
        participant = p;
        authorized = stream_auth-IsAuthorized true r.authorization (var "uuid" vars) s p e;
      }

  server_passed :
      (r : Request world.http) (vars : SyncMap String) (s : Server x) (c : Context)
      → guarded world d server_secured r vars s ≡ returns (passed c)
      → (key : x.PublicKey) × (s.opts.public_key ≡ some key)
        × (subject : String) × (server_auth key r.code_cord_auth ≡ passed subject)
  unfolding guarded
  server_passed r vars s c h = go s.opts.public_key refl h
    where
      unkeyed :
          (o : Option GoError)
          → ¬ (
              (elim o [
                | none ↦ panics
                | some why ↦ returns (refused status_unauthorized (auth_error (error_text why)))
              ])
              ≡ returns (passed c))
      unkeyed none k = cc
      unkeyed (some why) k = cc

      go :
          (o : Option x.PublicKey)
          → s.opts.public_key ≡ o
          → (elim o [
            | none ↦ elim (world.http.refused_unkeyed r.code_cord_auth) [
              | none ↦ panics
              | some why ↦ returns (refused status_unauthorized (auth_error (error_text why)))
            ]
            | some key ↦ with_subject (server_auth key r.code_cord_auth)
          ])
            ≡ returns (passed c)
          → (key : x.PublicKey) × (s.opts.public_key ≡ some key)
            × (subject : String) × (server_auth key r.code_cord_auth ≡ passed subject)
      go none e h' = absurd (unkeyed (world.http.refused_unkeyed r.code_cord_auth) h')
      go (some key) e h' = let (t, f) = with_subject-passed _ c h' in (key, e, t, f)

  abbrev pub IsAllowed : Request world.http → Server x → Server x → String → Type 0
  IsAllowed r s t j = SameStream s t j ⊎ IsMakerOf r s j ⊎ IsHostOf r s j

  passed-IsAllowed :
      (r : Request world.http) (s : Server x) (q : Route) (vars : SyncMap String) (c : Context)
      (j : String)
      → IsGuarded s.opts.server_security_enabled q
      → guarded world d q.guard r vars s ≡ returns (passed c)
      → IsAllowed r s (handle world d q.endpoint r vars c s).1 j
  passed-IsAllowed r s q vars c j safe h =
      elim (Effect-SameStream world d q.endpoint (var "uuid" vars) s _ j
        (handle-Effect world d q.endpoint r vars c s)) [
          | inl same ↦ inl same
          | inr (inl (own, e)) ↦ inr (
              inl (record {
                drawn = ground (arith, eq_iff d.stream.stream_uuid j);
                by_token = λ secured. server_passed r vars s c (
                    ap (λ g. guarded world d g r vars s)
                      (sym (safe server_secured (rw secured (guard_needed-create q.endpoint e))))
                    ∙ h);
              }))
          | inr (inr (own, e)) ↦ inr (
              inr (
                subst (IsHostOf r s) (ground (arith, eq_iff (var "uuid" vars) j)) (
                  host_passed r vars s c (
                    ap (λ g. guarded world d g r vars s)
                      (sym (
                        safe (stream_secured true)
                          (guard_needed-host s.opts.server_security_enabled q.endpoint e)))
                    ∙ h))))
        ]

  -- Whatever a request to the router is and however it is answered: a stream is left as it was, with
  -- its record, its process, keys and addresses, unless the request makes this stream, which with
  -- server security takes a token that the server's key accepts, or unless it carries a token of
  -- the host of this very stream, which the key of the running stream accepts.
  pub serve-IsAllowed :
      (mux : Mux world.http) (r : Request world.http) (s : Server x) (j : String)
      → IsAllowed r s (serve world d mux r s).1 j
  unfolding serve routed admitted
  serve-IsAllowed mux r s j = go (mux.match (routes s.opts.server_security_enabled) r) refl
    where
      admitted-IsAllowed :
          (q : Route) (vars : SyncMap String)
          → IsGuarded s.opts.server_security_enabled q
          → (o : Run (Access Context)) → guarded world d q.guard r vars s ≡ o
          → IsAllowed r s (admitted world d q.endpoint r vars s o).1 j
      admitted-IsAllowed q vars safe panics e = inl (SameStream-refl s j)
      admitted-IsAllowed q vars safe (returns (refused status why)) e = inl (SameStream-refl s j)
      admitted-IsAllowed q vars safe (returns (passed c)) e = passed-IsAllowed r s q vars c j safe e

      go :
          (m : Matched)
          → mux.match (routes s.opts.server_security_enabled) r ≡ m
          → IsAllowed r s (routed world d r s m).1 j
      go (unmatched answer) e = inl (SameStream-refl s j)
      go (matched q vars) e =
          admitted-IsAllowed q vars
            (mux.match-All (routes s.opts.server_security_enabled) r q vars e
              (IsGuarded s.opts.server_security_enabled)
              (routes-IsGuarded s.opts.server_security_enabled))
            _ refl

  -- What a request makes of a server is reached by at most one operation.
  pub serve-Reach :
      (mux : Mux world.http) (r : Request world.http) (s : Server x)
      → Reach s (serve world d mux r s).1
  unfolding serve routed admitted
  serve-Reach mux r s = go (mux.match (routes s.opts.server_security_enabled) r)
    where
      admitted-Reach :
          (e : Endpoint) (vars : SyncMap String) (o : Run (Access Context))
          → Reach s (admitted world d e r vars s o).1
      admitted-Reach e vars panics = here
      admitted-Reach e vars (returns (refused status why)) = here
      admitted-Reach e vars (returns (passed c)) =
          Effect-Reach world d e (var "uuid" vars) s _ (handle-Effect world d e r vars c s)

      go : (m : Matched) → Reach s (routed world d r s m).1
      go (unmatched answer) = here
      go (matched q vars) = admitted-Reach q.endpoint vars _
