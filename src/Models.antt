-- ===== src/Models.antt =====
-- The answers of the HTTP interface (handler/models/stream.go, handler/models/server.go,
-- handler/models/api.go), and how they are written (handler/middleware/response.go).
use cc_core_server.Common.{ℕ, String, Bool, Option, List, []}
use cc_core_server.Common.Int.{ℤ}
use cc_core_server.Common.SyncMap
use cc_core_server.Common.SyncMap.{SyncMap}
use cc_core_server.Service.{JoinPolicy, StreamLaunchMode, StreamStatus, ParticipantStatus, Time}
use cc_core_server.Errors.{WebError}

pub record StreamJoinConfigResponse : Type 0 where
  pub join_policy : JoinPolicy
  pub join_code : String

pub record HostOwnerInfo : Type 0 where
  pub uuid : String
  pub username : String
  pub avatar_id : String
  pub ip : String

pub record StreamInfoResponse : Type 0 where
  pub uuid : String
  pub name : String
  pub description : String
  pub ip : String
  pub port : ℤ
  pub launch_mode : StreamLaunchMode
  pub started_at : Time
  pub finished_at : Option Time
  pub status : StreamStatus
  pub join : StreamJoinConfigResponse
  pub host : HostOwnerInfo

pub record StreamListResponse : Type 0 where
  pub streams : List StreamInfoResponse
  pub page : ℤ
  pub page_size : ℤ
  pub count : ℕ
  pub has_next : Bool
  pub total : ℕ

pub record AuthorizationInfo : Type 0 where
  pub access_token : String
  pub token_type : String

pub record StreamOwnerInfoResponse : Type 0 where
  pub uuid : String
  pub name : String
  pub description : String
  pub started_at : Time
  pub join_policy : JoinPolicy
  pub join_code : String
  pub port : ℤ
  pub ip : String
  pub launch_mode : StreamLaunchMode
  pub host_info : HostOwnerInfo
  pub auth : Option AuthorizationInfo

pub record StreamPublicInfoResponse : Type 0 where
  pub uuid : String
  pub name : String
  pub description : String
  pub join_policy : JoinPolicy
  pub started_at : Time
  pub finished_at : Option Time

pub record ParticipantJoinResponse : Type 0 where
  pub allowed : Bool
  pub access_token : String

pub record ParticipantResponse : Type 0 where
  pub uuid : String
  pub name : String
  pub avatar_id : String
  pub status : ParticipantStatus

-- `ServerInfoResponse`; the additional info is carried along, as the texts of its values.
pub record ServerInfoResponse : Type 0 where
  pub name : String
  pub description : String
  pub version : String
  pub additional_info : SyncMap String

-- What the handlers give to `WriteJSONResponse`, or write themselves; `no_body` is nil.
pub data Body : Type 0 where
  no_body : Body
  error_body : WebError → Body
  server_info_body : ServerInfoResponse → Body
  pong_body : String → Body
  avatar_id_body : String → Body
  image_body : List ℕ → Body
  backup_body : List ℕ → Body
  public_info_body : StreamPublicInfoResponse → Body
  owner_info_body : StreamOwnerInfoResponse → Body
  join_body : ParticipantJoinResponse → Body
  authorization_body : AuthorizationInfo → Body
  participants_body : List ParticipantResponse → Body
  participant_body : ParticipantResponse → Body
  server_token_body : String → Body
  stream_list_body : StreamListResponse → Body

abbrev pub Header : Type 0
Header = SyncMap String

-- The status and the header that are sent, and the body.
pub record Response : Type 0 where
  pub status : ℕ
  pub header : Header
  pub body : Body

-- `WriteJSONResponse`, on the header that is set so far.
unfoldable pub write_json_response_after : Header → ℕ → Body → Response
unfolding SyncMap.store
write_json_response_after header status body = record {
  status = status;
  header = SyncMap.store "Content-Type" "application/json" header;
  body = body;
}

unfoldable pub write_json_response : ℕ → Body → Response
unfolding write_json_response_after
write_json_response status body = write_json_response_after [] status body

unfoldable pub write_error : ℕ → WebError → Response
unfolding write_json_response
write_error status e = write_json_response status (error_body e)
