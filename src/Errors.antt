-- ===== src/Errors.antt =====
-- The errors that the HTTP interface answers (handler/middleware/errors.go).
use cc_core_server.Common.{ℕ, String, List}

pub record RequestParamErrDetails : Type 0 where
  pub param : String
  pub errors : List String

-- The values that the code gives as `Details`.
pub data Details : Type 0 where
  no_details : Details
  text_details : String → Details
  param_details : List RequestParamErrDetails → Details

-- `Error`.
pub record WebError : Type 0 where
  pub code : ℕ
  pub message : String
  pub details : Details

-- `New`.
unfoldable pub new : WebError → Details → WebError
new e details = record { code = e.code; message = e.message; details = details }

-- An entry of the tables of errors.
abbrev error_of : ℕ → String → WebError
error_of code message = record { code = code; message = message; details = no_details }

abbrev pub err_custom : WebError
err_custom = error_of 0 "unexpected error"

abbrev pub err_invalid_request : WebError
err_invalid_request = error_of 1000 "invalid request"

abbrev pub err_invalid_request_param : WebError
err_invalid_request_param = error_of 1001 "invalid param"

abbrev pub err_sse_upgrade : WebError
err_sse_upgrade = error_of 1002 "could not upgrade SSE connection"

abbrev pub err_auth : WebError
err_auth = error_of 1003 "could not authorize request"

abbrev pub err_server_ping : WebError
err_server_ping = error_of 2000 "could not ping server"

abbrev pub err_create_stream : WebError
err_create_stream = error_of 2001 "could not create stream"

abbrev pub err_finish_stream : WebError
err_finish_stream = error_of 2002 "could not finish stream"

abbrev pub err_update_stream : WebError
err_update_stream = error_of 2003 "could not update stream info"

abbrev pub err_generate_token : WebError
err_generate_token = error_of 2004 "could not generate new access token"

abbrev pub err_stream_list : WebError
err_stream_list = error_of 2005 "could not fetch stream list"

abbrev pub err_backup_storage : WebError
err_backup_storage = error_of 2006 "could not create storage backup"

abbrev pub err_update_participant_info : WebError
err_update_participant_info = error_of 2007 "could not update participant info"

abbrev pub err_join_stream : WebError
err_join_stream = error_of 3000 "could not join the stream"

abbrev pub err_fetch_stream_participants : WebError
err_fetch_stream_participants = error_of 3001 "could not fetch list of stream participants"

abbrev pub err_decide_participant_join : WebError
err_decide_participant_join = error_of 3002 "could not change participant join status"

abbrev pub err_generate_access_token : WebError
err_generate_access_token = error_of 3003 "could not generate access token"

abbrev pub err_stream_info : WebError
err_stream_info = error_of 3004 "could not get stream info"
