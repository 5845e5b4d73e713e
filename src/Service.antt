-- ===== src/Service.antt =====
-- The data model of the package `service` (service/server.go, service/stream.go,
-- service/stream_handler.go). A `time.Time` is a number of nanoseconds, a pointer an `Option`, and
-- the named string types are texts, so that unknown values are possible as in the source.
use cc_core_server.Common.{ℕ, String, Bool, Option, List}
use cc_core_server.Common.Int.{ℤ}
use cc_core_server.Common.SyncMap.{SyncMap}

abbrev pub JoinPolicy : Type 0
JoinPolicy = String

abbrev pub join_policy_auto : JoinPolicy
join_policy_auto = "auto"

abbrev pub join_policy_by_code : JoinPolicy
join_policy_by_code = "by_code"

abbrev pub join_policy_host_resolve : JoinPolicy
join_policy_host_resolve = "host_resolve"

abbrev pub StreamLaunchMode : Type 0
StreamLaunchMode = String

abbrev pub launch_mode_standalone_app : StreamLaunchMode
launch_mode_standalone_app = "standalone_app"

abbrev pub launch_mode_docker_container : StreamLaunchMode
launch_mode_docker_container = "docker_container"

abbrev pub StreamStatus : Type 0
StreamStatus = String

abbrev pub stream_status_running : StreamStatus
stream_status_running = "running"

abbrev pub stream_status_finished : StreamStatus
stream_status_finished = "finished"

abbrev pub ParticipantStatus : Type 0
ParticipantStatus = String

abbrev pub participant_status_active : ParticipantStatus
participant_status_active = "active"

abbrev pub participant_status_pending : ParticipantStatus
participant_status_pending = "pending"

abbrev pub Time : Type 0
Time = ℕ

pub record StartStreamInfo : Type 0 where
  pub ip : String
  pub port : ℤ

pub record StreamJoinPolicyConfig : Type 0 where
  pub join_policy : JoinPolicy
  pub join_code : String

pub record StreamLaunchConfig : Type 0 where
  pub preferred_port : ℤ
  pub preferred_ip : String
  pub mode : StreamLaunchMode

pub record StreamHostConfig : Type 0 where
  pub username : String
  pub avatar_id : String
  pub ip : String

pub record StreamConfig : Type 0 where
  pub name : String
  pub description : String
  pub subject : String
  pub join : StreamJoinPolicyConfig
  pub launch : StreamLaunchConfig
  pub host : StreamHostConfig

pub record HostInfo : Type 0 where
  pub uuid : String
  pub username : String
  pub avatar_id : String
  pub ip : String

pub record AuthInfo : Type 0 where
  pub access_token : String
  pub token_type : String

pub record StreamOwnerInfo : Type 0 where
  pub uuid : String
  pub name : String
  pub description : String
  pub started_at : Time
  pub join_policy : JoinPolicy
  pub join_code : String
  pub port : ℤ
  pub ip : String
  pub launch_mode : StreamLaunchMode
  pub host : HostInfo
  pub auth : Option AuthInfo

pub record StreamPublicInfo : Type 0 where
  pub uuid : String
  pub name : String
  pub description : String
  pub join_policy : JoinPolicy
  pub started_at : Time
  pub finished_at : Option Time

pub record Participant : Type 0 where
  pub uuid : String
  pub name : String
  pub avatar_id : String
  pub ip : String
  pub status : ParticipantStatus

pub record JoinParticipantDecision : Type 0 where
  pub join_allowed : Bool
  pub access_token : String

pub record PatchStreamConfig : Type 0 where
  pub name : Option String
  pub description : Option String
  pub join : Option StreamJoinPolicyConfig
  pub host : Option StreamHostConfig

pub record PatchParticipantConfig : Type 0 where
  pub name : Option String
  pub avatar_id : Option String

pub record StreamFilter : Type 0 where
  pub search_phrase : String
  pub launch_modes : List StreamLaunchMode
  pub statuses : List StreamStatus
  pub sort_by : String
  pub sort_order : String
  pub page_size : ℤ
  pub page : ℤ

pub record StreamInfo : Type 0 where
  pub uuid : String
  pub name : String
  pub description : String
  pub ip : String
  pub port : ℤ
  pub launch_mode : StreamLaunchMode
  pub started_at : Time
  pub finished_at : Option Time
  pub status : StreamStatus
  pub join : StreamJoinPolicyConfig
  pub host : HostInfo

pub record StreamList : Type 0 where
  pub streams : List StreamInfo
  pub page : ℤ
  pub page_size : ℤ
  pub count : ℕ
  pub has_next : Bool
  pub total : ℕ

-- What the running stream is told about a participant.
pub record StreamParticipant : Type 0 where
  pub uuid : String
  pub name : String
  pub avatar_id : String
  pub status : ParticipantStatus
  pub host : Bool

-- `ServerInfo`; each value of `Meta` stands as its JSON text.
pub record ServerInfo : Type 0 where
  pub name : String
  pub description : String
  pub version : String
  pub meta : SyncMap String

pub record AvatarRestrictions : Type 0 where
  pub max_file_size : ℤ

abbrev pub ServerStorage : Type 0
ServerStorage = String

abbrev pub server_storage_avatar : ServerStorage
server_storage_avatar = "avatar"

abbrev pub server_storage_participant : ServerStorage
server_storage_participant = "participant"

abbrev pub server_storage_stream : ServerStorage
server_storage_stream = "stream"
