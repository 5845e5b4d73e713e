-- ===== src/Server/Lifecycle/Parts.antt =====
-- The record, the module and the answer of a new stream (NewStream and buildStreamOwnerInfo in
-- server/stream.go), field by field.
use cc_core_server.Common.{String, Bool, true, false, none, some, [], if◌then◌else◌, ◌≡◌, refl}
use cc_core_server.Common.Text.{◌==◌, ◌&◌, show_int}
use cc_core_server.Service.{
  StreamConfig, StreamOwnerInfo, StartStreamInfo, launch_mode_standalone_app,
  participant_status_active,
}
use cc_core_server.Launch.{RunningStream, tcp_address}
use cc_core_server.Server.{StreamRecord, Externals, StreamModule}
use cc_core_server.Server.Records.{
  default_mode, new_record, build_stream_owner_info, host_participant,
}
use cc_core_server.Server.Lifecycle.{Draw, new_module}
use cc_core_server.Server.Lifecycle.Launching.{wanted_mode}

module _ ⦃x : Externals⦄ where
  -- The record of a new stream: the texts, the policy and the host of its configuration, the drawn
  -- identifiers, and the address where it was started.
  pub record IsRecordOf (d : Draw x) (cfg : StreamConfig) (started : StartStreamInfo)
      (r : StreamRecord) : Type 0 where
    pub uuid : r.uuid ≡ d.stream_uuid
    pub name : r.name ≡ cfg.name
    pub description : r.description ≡ cfg.description
    pub ip : r.ip ≡ started.ip
    pub port : r.port ≡ started.port
    pub launch_mode : r.launch_mode ≡ wanted_mode cfg
    pub started_at : r.started_at ≡ d.now
    pub finished_at : r.finished_at ≡ none
    pub subject : r.subject ≡ cfg.subject
    pub status : r.status ≡ "running"
    pub join_code : r.join.code ≡ cfg.join.join_code
    pub join_policy : r.join.policy ≡ cfg.join.join_policy
    pub host_uuid : r.host.uuid ≡ d.host_uuid
    pub host_name : r.host.username ≡ cfg.host.username
    pub host_avatar : r.host.avatar_id ≡ cfg.host.avatar_id
    pub host_ip : r.host.ip ≡ cfg.host.ip

  -- What the owner is told of the record, with the token.
  pub record IsAnswer (r : StreamRecord) (token : String) (info : StreamOwnerInfo) : Type 0 where
    pub uuid : info.uuid ≡ r.uuid
    pub name : info.name ≡ r.name
    pub description : info.description ≡ r.description
    pub ip : info.ip ≡ r.ip
    pub port : info.port ≡ r.port
    pub launch_mode : info.launch_mode ≡ r.launch_mode
    pub started_at : info.started_at ≡ r.started_at
    pub join_code : info.join_code ≡ r.join.code
    pub join_policy : info.join_policy ≡ r.join.policy
    pub host_uuid : info.host.uuid ≡ r.host.uuid
    pub host_name : info.host.username ≡ r.host.username
    pub host_avatar : info.host.avatar_id ≡ r.host.avatar_id
    pub host_ip : info.host.ip ≡ r.host.ip
    pub no_auth : (token == "") ≡ true → info.auth ≡ none
    pub auth :
        (token == "") ≡ false
        → info.auth ≡ some (record { access_token = token; token_type = "bearer" })

  -- The module of a new stream: its process, its keys and its address, and nobody waiting.
  pub record IsModuleOf (key : x.PrivateKey) (started : StartStreamInfo) (r : RunningStream)
      (m : StreamModule x) : Type 0 where
    pub stream : m.stream ≡ r
    pub pending : m.pending_participants ≡ []
    pub private_key : m.private_key ≡ key
    pub public_key : m.public_key ≡ x.public_key key
    pub serve_address : m.serve_address ≡ started.ip & ":" & show_int started.port
    pub handler_address : m.handler_address ≡ "http://" & started.ip & ":" & show_int started.port

  pub new_record-IsRecordOf :
      (d : Draw x) (cfg : StreamConfig) (started : StartStreamInfo)
      → IsRecordOf d cfg started
          (new_record (default_mode cfg) d.stream_uuid d.host_uuid started d.now)
  unfolding new_record
  new_record-IsRecordOf d cfg started = go (cfg.launch.mode == "") refl
    where
      go :
          (b : Bool)
          → (cfg.launch.mode == "") ≡ b
          → IsRecordOf d cfg started (
              new_record
                (if b
                  then record cfg {
                    launch = record cfg.launch { mode = launch_mode_standalone_app };
                  }
                  else cfg)
                d.stream_uuid
                d.host_uuid
                started
                d.now)
      go true e = record {
        launch_mode = rw e refl;
        uuid = refl;
        name = refl;
        description = refl;
        ip = refl;
        port = refl;
        started_at = refl;
        finished_at = refl;
        subject = refl;
        status = refl;
        join_code = refl;
        join_policy = refl;
        host_uuid = refl;
        host_name = refl;
        host_avatar = refl;
        host_ip = refl;
      }
      go false e = record {
        launch_mode = rw e refl;
        uuid = refl;
        name = refl;
        description = refl;
        ip = refl;
        port = refl;
        started_at = refl;
        finished_at = refl;
        subject = refl;
        status = refl;
        join_code = refl;
        join_policy = refl;
        host_uuid = refl;
        host_name = refl;
        host_avatar = refl;
        host_ip = refl;
      }

  pub announced :
      (d : Draw x) (cfg : StreamConfig) (started : StartStreamInfo) (made : StreamRecord)
      → IsRecordOf d cfg started made
      → host_participant made.host ≡ record {
        uuid = d.host_uuid;
        name = cfg.host.username;
        avatar_id = cfg.host.avatar_id;
        status = participant_status_active;
        host = true;
      }
  announced d cfg started made r = rw (r.host_uuid, r.host_name, r.host_avatar) refl

  pub build_stream_owner_info-IsAnswer :
      (r : StreamRecord) (token : String) → IsAnswer r token (build_stream_owner_info r token)
  unfolding build_stream_owner_info
  build_stream_owner_info-IsAnswer r token = record {
    no_auth = λ unnamed. rw unnamed refl;
    auth = λ named. rw named refl;
    uuid = refl;
    name = refl;
    description = refl;
    ip = refl;
    port = refl;
    launch_mode = refl;
    started_at = refl;
    join_code = refl;
    join_policy = refl;
    host_uuid = refl;
    host_name = refl;
    host_avatar = refl;
    host_ip = refl;
  }

  pub new_module-IsModuleOf :
      (key : x.PrivateKey) (started : StartStreamInfo) (r : RunningStream)
      → IsModuleOf key started r (new_module key started r)
  unfolding tcp_address
  new_module-IsModuleOf key started r = record {
    stream = refl;
    pending = refl;
    private_key = refl;
    public_key = refl;
    serve_address = refl;
    handler_address = refl;
  }
