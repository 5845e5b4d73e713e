-- ===== src/Setup/Tokens.antt =====
-- A server that has just been made, and the tokens that it gives (server/server.go,
-- handler/api/generate_token.go).
use mathlib.Core.Option
use mathlib.Core.Path.{subst}
use cc_core_server.Common.{
  ℕ, String, true, false, Option, none, some, List, [], ◌∷◌, GoError, plain, error_text, Result, ok,
  err, >>=-eq-ok, wrap_err, ◌≡◌, ◌∙◌, ap, sym, refl,
}
use cc_core_server.Common.Int.{negsuc}
use cc_core_server.Common.Text.{◌==◌, eq_refl}
use cc_core_server.Common.SyncMap
use cc_core_server.Service.{AuthInfo}
use cc_core_server.Storage.{Bucket, Storage, new_storage, create_buckets, use_bucket, default_of}
use cc_core_server.Storage.Laws.{wrap_err-eq-ok}
use cc_core_server.Server.{StandardClaims, number_claim, Externals, Options, Server}
use cc_core_server.Middleware.{
  passed, refused, status_unauthorized, auth_error, server_auth, server_claims_checked, subject_of,
}
use cc_core_server.Setup.{Surroundings, Setting, new_server_options}
use cc_core_server.Setup.Ready.{IsReady, new_server_options-IsReady}
use cc_core_server.Setup.Building.{
  Built, storage_config, new_server, server_of, server_token_signed, new_server_token,
}

module _ {x : Externals} (around : Surroundings x) where
  -- A single bucket is made under its own name.
  create_bucket-store :
      (bucket : String) (db : x.bolt.Db) (made : x.bolt.Db × SyncMap.SyncMap String)
      → create_buckets x.bolt (bucket ∷ []) db [] ≡ ok made
      → made.1 ≡ (bucket, bucket) ∷ []
  unfolding create_buckets SyncMap.store
  create_bucket-store bucket db made h =
      let (db', e, h') = >>=-eq-ok (wrap_err _ (x.bolt.create_bucket db bucket)) _ h in
      ap buckets_in (sym h')
    where
      buckets_in : Result (x.bolt.Db × SyncMap.SyncMap String) → SyncMap.SyncMap String
      buckets_in (ok m) = m.1
      buckets_in (err e) = []

  found_here :
      (bucket : String) (db : x.bolt.Db)
      → Option.map {A = String} {B = Bucket x.bolt}
          (λ n. record { name = n; db = db })
          (SyncMap.load bucket ((bucket, bucket) ∷ []))
        ≡ some (record { name = bucket; db = db })
  unfolding SyncMap.load
  found_here bucket db = rw (eq_refl bucket) refl

  -- A storage with one bucket has it as its default.
  new_storage-default :
      (o : Options x) (file bucket : String) (st : Storage x.bolt)
      → new_storage x.bolt (storage_config around o file bucket) ≡ ok st
      → default_of st ≡ some (record { name = bucket; db = st.db })
  unfolding new_storage create_buckets default_of use_bucket SyncMap.load SyncMap.store
  new_storage-default o file bucket st h =
      let (db, e, h1) =
        >>=-eq-ok
          (wrap_err "could not open database"
            (x.bolt.open_db (around.join_path o.data_folder file)))
          _ h in
      let (made, e', h2) =
        >>=-eq-ok
          (wrap_err "could not init storage buckets" (create_buckets x.bolt (bucket ∷ []) db [])) _
          h1 in
      let one = create_bucket-store bucket db made (wrap_err-eq-ok _ _ e') in
      subst (λ (s : Storage x.bolt). default_of s ≡ some (record { name = bucket; db = s.db }))
        (storage_of h2)
        (ap (Option.map (λ n. record { name = n; db = made.0 })) (ap (SyncMap.load bucket) one)
          ∙ found_here bucket made.0)
    where
      storage_of : {a b : Storage x.bolt} → ok a ≡ ok b → a ≡ b
      storage_of k = cc

  -- A server that New returns: it is the server of the operations on three storages that are there,
  -- runs no stream, and has nothing to do; its options are ready.
  pub record IsFresh (b : Built x) (s : Server x) : Type 0 where
    pub is_server : server_of b ≡ some s
    pub nothing_runs : s.streams ≡ []
    pub no_tasks : s.tasks ≡ []
    pub same_options : s.opts ≡ b.opts
    pub ready : IsReady s.opts
    pub stream_bucket : s.stream_storage.name ≡ "stream"
    pub avatar_bucket : s.avatar_storage.name ≡ "avatar"
    pub participant_bucket : s.participant_storage.name ≡ "participant"

  built-IsFresh :
      (b : Built x)
      → IsReady b.opts
      → default_of b.stream_db ≡ some (record { name = "stream"; db = b.stream_db.db })
      → default_of b.avatar_db ≡ some (record { name = "avatar"; db = b.avatar_db.db })
      → default_of b.participant_db
        ≡ some (record { name = "participant"; db = b.participant_db.db })
      → (s : Server x) × IsFresh b s
  unfolding server_of
  built-IsFresh b ready streams avatars participants = (
    record {
      opts = b.opts;
      streams = [];
      stream_storage = record { name = "stream"; db = b.stream_db.db };
      avatar_storage = record { name = "avatar"; db = b.avatar_db.db };
      participant_storage = record { name = "participant"; db = b.participant_db.db };
      tasks = [];
      calls = [];
    },
    record {
      is_server = rw (server_of, streams, avatars, participants) refl;
      nothing_runs = refl;
      no_tasks = refl;
      same_options = refl;
      ready = ready;
      stream_bucket = refl;
      avatar_bucket = refl;
      participant_bucket = refl;
    },
  )

  -- Whatever the options, a server that New returns has its three storages with their default
  -- buckets, so that no operation meets a nil bucket, runs no stream, and its options are ready: with
  -- server security it has both halves of one key.
  pub new_server-IsFresh :
      (settings : List Setting) (b : Built x)
      → new_server around settings ≡ ok b
      → (s : Server x) × IsFresh b s
  unfolding new_server server_of
  new_server-IsFresh settings b h =
      let (o, e, h1) =
        >>=-eq-ok (wrap_err "could not init server" (new_server_options around settings)) _ h in
      let (streams, e1, h2) = >>=-eq-ok (wrap_err _ (new_storage x.bolt _)) _ h1 in
      let (avatars, e2, h3) = >>=-eq-ok (wrap_err _ (new_storage x.bolt _)) _ h2 in
      let (participants, e3, h4) = >>=-eq-ok (wrap_err _ (new_storage x.bolt _)) _ h3 in
      subst (λ (c : Built x). (s : Server x) × IsFresh c s) (built_of h4)
        (built-IsFresh _ (new_server_options-IsReady around settings o (wrap_err-eq-ok _ _ e))
          (new_storage-default o "stream.db" "stream" streams (wrap_err-eq-ok _ _ e1))
          (new_storage-default o "avatar.db" "avatar" avatars (wrap_err-eq-ok _ _ e2))
          (new_storage-default o "participant.db" "participant" participants
            (wrap_err-eq-ok _ _ e3)))
    where
      built_of : {c d : Built x} → ok c ≡ ok d → c ≡ d
      built_of k = cc

module _ ⦃x : Externals⦄ where
  -- The token of NewServerToken was signed by the private key of the options.
  new_server_token-signed :
      (s : Server x) (c : StandardClaims) (auth : AuthInfo) (key : x.PrivateKey)
      → s.opts.private_key ≡ some key
      → new_server_token s c ≡ ok auth
      → x.sign key (x.to_claims c) ≡ ok auth.access_token
  unfolding new_server_token server_token_signed
  new_server_token-signed s c auth key has h =
      signed (x.sign key (x.to_claims c)) (sym (with_key s.opts.private_key has) ∙ h)
    where
      with_key :
          (o : Option x.PrivateKey)
          → o ≡ some key
          → (elim o [
            | none ↦ err (plain "server doesn't have RSA private key")
            | some k ↦ server_token_signed (x.sign k (x.to_claims c))
          ])
            ≡ server_token_signed (x.sign key (x.to_claims c))
      with_key o e = rw e refl

      token_in : Result AuthInfo → String
      token_in (ok a) = a.access_token
      token_in (err e) = ""

      signed : (o : Result String) → server_token_signed o ≡ ok auth → o ≡ ok auth.access_token
      signed (err e) h' = cc
      signed (ok token) h' = ap ok (ap token_in h')

  -- With server security, a token that NewServerToken gives for claims that are current passes
  -- ServerAuthMiddleware, on the key of the same options, as the subject that was asked for, if
  -- there is one.
  pub new_server_token-server_auth :
      (s : Server x) (c : StandardClaims) (auth : AuthInfo)
      → IsReady s.opts
      → s.opts.server_security_enabled ≡ true
      → new_server_token s c ≡ ok auth
      → x.is_current (x.to_claims c) ≡ true
      → (c.subject == "") ≡ false
      → (key : x.PublicKey) × (s.opts.public_key ≡ some key)
        × (server_auth key auth.access_token ≡ passed c.subject)
  unfolding server_auth server_claims_checked subject_of
  new_server_token-server_auth s c auth ready secured h current named =
      let (private, has, public) = ready.keys secured in
      let accepted =
        x.parse_token-sign private (x.to_claims c) auth.access_token
          (new_server_token-signed s c auth private has h) current in
      (
        x.public_key private,
        public,
        ap server_claims_checked accepted
            ∙ ap subject_of (x.to_claims-subject c named)
            ∙ rw named refl,
      )

  -- A token whose expiry is before 1970, as that of a request without `exp`, never passes: the
  -- middleware answers it with 401.
  pub new_server_token-refused :
      (s : Server x) (c : StandardClaims) (auth : AuthInfo) (n : ℕ)
      → IsReady s.opts
      → s.opts.server_security_enabled ≡ true
      → new_server_token s c ≡ ok auth
      → c.expires_at ≡ negsuc n
      → (key : x.PublicKey) × (s.opts.public_key ≡ some key)
        × (e : GoError) × (server_auth key auth.access_token
            ≡ refused status_unauthorized (auth_error (error_text e)))
  unfolding server_auth server_claims_checked
  new_server_token-refused s c auth n ready secured h past =
      let (private, has, public) = ready.keys secured in
      let late =
        x.is_current_negative (x.to_claims c) n
          (x.to_claims-expires_at c (rw past refl) ∙ ap (λ z. some (number_claim z)) past) in
      let (e, rejected) =
        x.parse_token_stale private (x.to_claims c) auth.access_token
          (new_server_token-signed s c auth private has h) late in
      (x.public_key private, public, e, ap server_claims_checked rejected)
