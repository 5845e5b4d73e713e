-- ===== src/Server.antt =====
-- The state of the server (server/server.go, server/stream.go, server/participant.go): what it
-- stores, what it keeps in memory for each running stream, and the calls that it makes.
pub mod Records
pub mod Start
pub mod Lifecycle
pub mod Running
pub mod Listing
pub mod Participants
pub mod Avatars
pub mod Info
pub mod Tasks
pub mod Invariant
pub mod Isolation
pub mod Connecting
use cc_core_server.Common.{
  ℕ, zero, String, Bool, true, false, Option, none, some, List, [], ◌∷◌, GoError, plain, Result, ok,
  err, ◌>>=◌, wrap_err, if◌then◌else◌, ◌≡◌,
}
use cc_core_server.Common.Int.{ℤ, pos, negsuc}
use cc_core_server.Common.Text.{◌==◌, ◌&◌}
use cc_core_server.Common.SyncMap
use cc_core_server.Common.SyncMap.{SyncMap}
use cc_core_server.Service.{
  JoinPolicy, StreamLaunchMode, StreamStatus, ParticipantStatus, Time, StreamParticipant,
}
use cc_core_server.Storage.{Bolt, Codec, Bucket, load_value}
use cc_core_server.Launch.{RunningStream, is_zero}

-- `streamJoinInfo`, `streamHostInfo` and `streamInfo`.
pub record JoinRecord : Type 0 where
  pub code : String
  pub policy : JoinPolicy

pub record HostRecord : Type 0 where
  pub uuid : String
  pub username : String
  pub avatar_id : String
  pub ip : String

pub record StreamRecord : Type 0 where
  pub uuid : String
  pub name : String
  pub description : String
  pub ip : String
  pub port : ℤ
  pub launch_mode : StreamLaunchMode
  pub started_at : Time
  pub finished_at : Option Time
  pub subject : String
  pub status : StreamStatus
  pub join : JoinRecord
  pub host : HostRecord

-- `participantInfo`; its channel is not stored, and stands for itself in `Pending`.
pub record ParticipantRecord : Type 0 where
  pub uuid : String
  pub name : String
  pub avatar_id : String
  pub ip : String
  pub status : ParticipantStatus

-- `avatar`.
pub record Avatar : Type 0 where
  pub uuid : String
  pub image_data : List ℕ
  pub content_type : String

-- The values of `jwt.MapClaims` that the program makes or asks for.
pub data ClaimValue : Type 0 where
  text_claim : String → ClaimValue
  bool_claim : Bool → ClaimValue
  number_claim : ℤ → ClaimValue
  other_claim : ClaimValue

abbrev pub MapClaims : Type 0
MapClaims = SyncMap ClaimValue

-- `jwt.StandardClaims`, as far as the program fills it.
pub record StandardClaims : Type 0 where
  pub audience : String
  pub expires_at : ℤ
  pub issued_at : ℤ
  pub issuer : String
  pub not_before : ℤ
  pub subject : String

-- The libraries that the server stands on: the database, JSON, RSA keys and signed tokens.
-- `parse_token` is `jwt.Parse` with the key function of the middlewares; a token that was signed
-- is accepted under the public half of its key, with its claims, if these are current: `is_current`
-- is `jwt.MapClaims.Valid`, which compares `exp`, `iat` and `nbf` with the clock. `to_claims` is the
-- JSON of `jwt.StandardClaims`, in which empty fields are left out.
pub record Externals : Type 1 where
  pub bolt : Bolt
  pub stream_codec : Codec bolt.Bytes StreamRecord
  pub participants_codec : Codec bolt.Bytes (List ParticipantRecord)
  pub avatar_codec : Codec bolt.Bytes Avatar
  pub PrivateKey : Type 0
  pub PublicKey : Type 0
  pub public_key : PrivateKey → PublicKey
  pub sign : PrivateKey → MapClaims → Result String
  pub parse_token : PublicKey → String → Result MapClaims
  pub to_claims : StandardClaims → MapClaims
  pub is_current : MapClaims → Bool
  pub parse_token-sign :
      (k : PrivateKey) (c : MapClaims) (t : String)
      → sign k c ≡ ok t
      → is_current c ≡ true
      → parse_token (public_key k) t ≡ ok c
  pub parse_token_stale :
      (k : PrivateKey) (c : MapClaims) (t : String)
      → sign k c ≡ ok t
      → is_current c ≡ false
      → (e : GoError) × (parse_token (public_key k) t ≡ err e)
  pub is_current_untimed :
      (c : MapClaims)
      → SyncMap.load "exp" c ≡ none
      → SyncMap.load "iat" c ≡ none
      → SyncMap.load "nbf" c ≡ none
      → is_current c ≡ true
  pub is_current_negative :
      (c : MapClaims) (n : ℕ)
      → SyncMap.load "exp" c ≡ some (number_claim (negsuc n))
      → is_current c ≡ false
  pub to_claims-subject :
      (c : StandardClaims)
      → (c.subject == "") ≡ false
      → SyncMap.load "sub" (to_claims c) ≡ some (text_claim c.subject)
  pub to_claims-expires_at :
      (c : StandardClaims)
      → is_zero c.expires_at ≡ false
      → SyncMap.load "exp" (to_claims c) ≡ some (number_claim c.expires_at)

-- What the server asks of the world outside: a process to stop, or a stream to tell of a
-- participant (at the address of its handler).
pub data Call : Type 0 where
  launched : RunningStream → Call
  stopped : RunningStream → Call
  new_participant : String → StreamParticipant → Call
  change_participant : String → StreamParticipant → Call

-- The goroutines that the server starts.
pub data Task : Type 0 where
  listen_interrupt : String → RunningStream → Task
  add_participant : String → StreamParticipant → Task
  update_participant : String → StreamParticipant → Task

-- `Options`. Each value of `Meta` stands as its JSON text; `public_key` and `private_key` are nil
-- without server security.
pub record Options (x : Externals) : Type 0 where
  pub name : String
  pub description : String
  pub version : String
  pub meta : SyncMap String
  pub address : String
  pub tls_cert_file : String
  pub tls_key_file : String
  pub log_level : String
  pub stream_container_prefix : String
  pub stream_image : String
  pub stream_image_registry_auth : String
  pub pull_image_on_startup : Bool
  pub data_folder : String
  pub max_avatar_size : ℤ
  pub server_security_public_key_path : String
  pub server_security_private_key_path : String
  pub server_security_enabled : Bool
  pub bin_folder : String
  pub log_level_set : Option String
  pub public_key : Option x.PublicKey
  pub private_key : Option x.PrivateKey
  pub tls_enabled : Bool

-- `streamModule`: the running stream, the participants that wait for the host, the keys, the
-- address of the stream and that of its handler.
pub record StreamModule (x : Externals) : Type 0 where
  pub stream : RunningStream
  pub pending_participants : SyncMap ParticipantRecord
  pub private_key : x.PrivateKey
  pub public_key : x.PublicKey
  pub serve_address : String
  pub handler_address : String

-- `Server`. The storages are given by their default buckets; goroutines that have not run yet
-- and the calls made so far, the latest first, are part of the state.
pub record Server (x : Externals) : Type 0 where
  pub opts : Options x
  pub streams : SyncMap (StreamModule x)
  pub stream_storage : Bucket x.bolt
  pub avatar_storage : Bucket x.bolt
  pub participant_storage : Bucket x.bolt
  pub tasks : List Task
  pub calls : List Call

abbrev pub not_running : String → GoError
not_running uuid = plain ("could not find running stream by UUID " & uuid)

module _ ⦃x : Externals⦄ where
  -- `s.streams.Load`.
  abbrev pub running : Server x → String → Option (StreamModule x)
  running s uuid = SyncMap.load uuid s.streams

  -- `s.streamStorage.Default().Load` with `Decode`.
  abbrev pub stored : Server x → String → Option (Result StreamRecord)
  stored s uuid = load_value x.stream_codec s.stream_storage uuid

  abbrev pub stored_participants : Server x → String → Option (Result (List ParticipantRecord))
  stored_participants s uuid = load_value x.participants_codec s.participant_storage uuid

  abbrev pub call : Call → Server x → Server x
  call c s = record s { calls = c ∷ s.calls }

  abbrev pub spawn : Task → Server x → Server x
  spawn t s = record s { tasks = t ∷ s.tasks }
