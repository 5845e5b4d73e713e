-- ===== src/Server/Records.antt =====
-- The records that the stream operations of server/stream.go store, patch and return, and the
-- claims of the tokens.
use cc_core_server.Common.{
  String, Bool, true, Option, none, some, [], ◌∷◌, Result, ok, if◌then◌else◌, ◌≡◌, refl,
}
use cc_core_server.Common.SyncMap
use cc_core_server.Common.Text.{◌==◌}
use cc_core_server.Service.{
  Time, StreamParticipant, StreamConfig, StreamOwnerInfo, PatchStreamConfig, StartStreamInfo,
  launch_mode_standalone_app, stream_status_running, stream_status_finished,
  participant_status_active,
}
use cc_core_server.Server.{StreamRecord, HostRecord, text_claim, bool_claim, MapClaims, Externals}

abbrev pub default_stream_token_type : String
default_stream_token_type = "bearer"

-- The claims of `generateStreamAccessToken`.
abbrev pub stream_claims : String → String → Bool → MapClaims
stream_claims stream_uuid participant_uuid is_host =
    ("streamUUID", text_claim stream_uuid)
    ∷ ("UUID", text_claim participant_uuid)
    ∷ ("host", bool_claim is_host)
    ∷ []

-- `buildStreamOwnerInfo`.
unfoldable pub build_stream_owner_info : StreamRecord → String → StreamOwnerInfo
build_stream_owner_info info access_token = record {
  uuid = info.uuid;
  name = info.name;
  description = info.description;
  started_at = info.started_at;
  join_policy = info.join.policy;
  join_code = info.join.code;
  port = info.port;
  ip = info.ip;
  launch_mode = info.launch_mode;
  host = record {
    uuid = info.host.uuid;
    username = info.host.username;
    avatar_id = info.host.avatar_id;
    ip = info.host.ip;
  };
  auth =
      if access_token == ""
      then none
      else some (record { access_token = access_token; token_type = default_stream_token_type });
}

abbrev pub default_mode : StreamConfig → StreamConfig
default_mode cfg =
    if cfg.launch.mode == ""
    then record cfg { launch = record cfg.launch { mode = launch_mode_standalone_app } }
    else cfg

-- The record that `NewStream` stores.
unfoldable pub new_record : StreamConfig → String → String → StartStreamInfo → Time → StreamRecord
new_record cfg stream_uuid host_uuid started now = record {
  uuid = stream_uuid;
  name = cfg.name;
  description = cfg.description;
  ip = started.ip;
  port = started.port;
  launch_mode = cfg.launch.mode;
  started_at = now;
  finished_at = none;
  subject = cfg.subject;
  status = stream_status_running;
  join = record { code = cfg.join.join_code; policy = cfg.join.join_policy };
  host = record {
    uuid = host_uuid;
    username = cfg.host.username;
    avatar_id = cfg.host.avatar_id;
    ip = cfg.host.ip;
  };
}

abbrev pub finish : Time → StreamRecord → StreamRecord
finish now r = record r { finished_at = some now; status = stream_status_finished }

-- `if cfg.X != nil { info.X = *cfg.X }`.
abbrev pub or_keep {ℓ} : {A : Type ℓ} → Option A → A → A
or_keep none a = a
or_keep (some b) a = b

-- The updates of `PatchStream`.
unfoldable pub patch_record : PatchStreamConfig → StreamRecord → StreamRecord
patch_record cfg r = record r {
  name = or_keep cfg.name r.name;
  description = or_keep cfg.description r.description;
  join = elim cfg.join [
    | none ↦ r.join
    | some j ↦ record { code = j.join_code; policy = j.join_policy }
  ];
  host = elim cfg.host [
    | none ↦ r.host
    | some h ↦ record r.host { username = h.username; avatar_id = h.avatar_id }
  ];
}

abbrev pub host_participant : HostRecord → StreamParticipant
host_participant h = record {
  uuid = h.uuid;
  name = h.username;
  avatar_id = h.avatar_id;
  status = participant_status_active;
  host = true;
}

module _ ⦃x : Externals⦄ where
  unfoldable pub generate_stream_access_token :
      String → String → Bool → x.PrivateKey → Result String
  generate_stream_access_token stream_uuid participant_uuid is_host key =
      x.sign key (stream_claims stream_uuid participant_uuid is_host)

  -- A token that was signed with the claims of a participant is accepted, at any time.
  pub parse_token-stream_claims :
      (key : x.PrivateKey) (stream_uuid participant_uuid : String) (is_host : Bool) (token : String)
      → x.sign key (stream_claims stream_uuid participant_uuid is_host) ≡ ok token
      → x.parse_token (x.public_key key) token
        ≡ ok (stream_claims stream_uuid participant_uuid is_host)
  unfolding SyncMap.load
  parse_token-stream_claims key stream_uuid participant_uuid is_host token h =
      x.parse_token-sign key _ token h (x.is_current_untimed _ refl refl refl)
