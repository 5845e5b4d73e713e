-- ===== src/Setup/Building.antt =====
-- The construction of the server, and what only needs its options (server/server.go).
use mathlib.Core.Option
use cc_core_server.Common.{
  ℕ, String, Option, none, some, List, [], ◌∷◌, plain, Result, ok, err, ◌>>=◌, wrap_err,
  if◌then◌else◌,
}
use cc_core_server.Common.Int.{pos}
use cc_core_server.Common.Text.{◌==◌, ◌&◌, show_int}
use cc_core_server.Service.{
  AuthInfo, ServerStorage, server_storage_avatar, server_storage_participant, server_storage_stream,
}
use cc_core_server.Storage.{Config, Storage, new_storage, default_of}
use cc_core_server.Server.{StandardClaims, Externals, Options, Server}
use cc_core_server.Setup.{Surroundings, Setting, new_server_options}

-- `New`: the three storages and the server on them. `Built` is the struct `Server`, whose storages
-- still have all their buckets.
pub record Built (x : Externals) : Type 0 where
  pub opts : Options x
  pub http_address : String
  pub api_address : String
  pub stream_db : Storage x.bolt
  pub avatar_db : Storage x.bolt
  pub participant_db : Storage x.bolt

module _ {x : Externals} where
  -- The server in the form of the operations, which all use the default buckets.
  unfoldable pub server_of : Built x → Option (Server x)
  server_of b = elim (default_of b.stream_db) [
    | none ↦ none
    | some streams ↦ elim (default_of b.avatar_db) [
      | none ↦ none
      | some avatars ↦
          Option.map
            (λ participants. record {
              opts = b.opts;
              streams = [];
              stream_storage = streams;
              avatar_storage = avatars;
              participant_storage = participants;
              tasks = [];
              calls = [];
            })
            (default_of b.participant_db)
    ]
  ]

module _ {x : Externals} (around : Surroundings x) where
  abbrev pub storage_config : Options x → String → String → Config
  storage_config o file bucket = record {
    db_path = around.join_path o.data_folder file;
    bucket_names = bucket ∷ [];
    default_name = bucket;
  }

  unfoldable pub new_server : List Setting → Result (Built x)
  unfolding new_server_options
  new_server settings = do
    o ← wrap_err "could not init server" (new_server_options around settings)
    streams ←
        wrap_err "could not connect to stream storage"
          (new_storage x.bolt (storage_config o "stream.db" "stream"))
    avatars ←
        wrap_err "could not connect to avatar storage"
          (new_storage x.bolt (storage_config o "avatar.db" "avatar"))
    participants ←
        wrap_err "could not connect to participant storage"
          (new_storage x.bolt (storage_config o "participant.db" "participant"))
    ok (record {
      opts = o;
      http_address = o.address;
      api_address = "127.0.0.1" & ":" & show_int (pos 7070);
      stream_db = streams;
      avatar_db = avatars;
      participant_db = participants;
    })

  -- `StorageBackup`: what is written of the storage.
  unfoldable pub storage_backup : Server x → ServerStorage → Result (List ℕ)
  storage_backup s storage_name =
      if storage_name == server_storage_avatar
      then around.write_backup s.avatar_storage.db
      else if storage_name == server_storage_participant
      then around.write_backup s.participant_storage.db
      else if storage_name == server_storage_stream
      then around.write_backup s.stream_storage.db
      else err (plain ("invalid storage name: " & storage_name))

module _ ⦃x : Externals⦄ where
  -- `NewServerToken`, on the signed token and on the key.
  unfoldable pub server_token_signed : Result String → Result AuthInfo
  server_token_signed (err e) = err e
  server_token_signed (ok token) = ok (record { access_token = token; token_type = "" })

  unfoldable pub new_server_token : Server x → StandardClaims → Result AuthInfo
  unfolding server_token_signed
  new_server_token s claims = elim s.opts.private_key [
    | none ↦ err (plain "server doesn't have RSA private key")
    | some key ↦ server_token_signed (x.sign key (x.to_claims claims))
  ]
