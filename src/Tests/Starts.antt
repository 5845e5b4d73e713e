-- ===== src/Tests/Starts.antt =====
-- Servers that are set up, tokens that they give, and calls of the client.
use cc_core_server.Common.{
  ℕ, String, true, false, some, List, [], ◌∷◌, GoError, plain, error_text, Result, ok, err, eqb,
  if◌then◌else◌, ◌≡◌, ap, sym, refl, arith,
}
use cc_core_server.Common.Int.{pos}
use cc_core_server.Common.Text.{◌==◌, ◌&◌}
use cc_core_server.Common.SyncMap
use cc_core_server.Service.{AuthInfo}
use cc_core_server.Server.{Server, Options}
use cc_core_server.Server.Start.{connect_to_stream}
use cc_core_server.Server.Connecting.{Connects, connect_to_stream-Connects}
use cc_core_server.Middleware.{passed, refused, status_unauthorized, auth_error, server_auth}
use cc_core_server.Setup.{
  Surroundings, Setting, server_security_enabled, server_public_key, server_private_key, address,
  no_options, new_server_options,
}
use cc_core_server.Setup.Ready.{IsReady, new_server_options-IsReady}
use cc_core_server.Setup.Building.{Built, new_server, new_server_token}
use cc_core_server.Setup.Tokens.{
  IsFresh, new_server-IsFresh, new_server_token-server_auth, new_server_token-refused,
}
use cc_core_server.Tests.Tokens.{admin, late_admin}
use cc_core_server.Tests.Sample.{sample, empty_server, host_dialling}
use cc_core_server.Common.Text.{show_int}
use cc_core_server.Storage.{Storage, new_storage, create_buckets}
use cc_core_server.Models.{server_token_body, write_json_response}
use cc_core_server.Checks.{decoded, byte_length, parse_json_request}
use cc_core_server.Payload.{validate_generate_server_token}
use cc_core_server.Api.{build}
use cc_core_server.Api.Endpoints.{ApiRequest, handle_api}
use cc_core_server.Client.{RequestParams, Reply, got, do_request, new_token_params, stream_query}
use cc_core_server.Client.Queries.{UrlQuery, with_defaults, build-stream_query}
use cc_core_server.Client.Answers.{new_token-not_got}
use cc_core_server.Tests.Queries.{request}
use cc_core_server.Tests.Rules.{validation}
use cc_core_server.Tests.Sorting.{insertion}

connect_to_stream-Connects_example :
    Connects
      (host_dialling (err (plain "refused")))
      "127.0.0.1:1"
      6
      (connect_to_stream (host_dialling (err (plain "refused"))) "127.0.0.1:1" 6)
connect_to_stream-Connects_example =
    connect_to_stream-Connects (host_dialling (err (plain "refused"))) "127.0.0.1:1" 6

pub key_equal : (k l : ℕ) → eqb k l ≡ true → k ≡ l
key_equal k l h = ground arith

abbrev pub around : Surroundings sample
around = record {
  find_port = λ host. pos 30300;
  parse_level = λ level. some level;
  docker_client = ok tt;
  pull_image = λ image auth. ok tt;
  working_directory = ok "/srv";
  join_path = λ folder name. folder & "/" & name;
  make_folder = λ path. ok tt;
  is_exist = λ e. false;
  read_file = λ path. ok (if path == "public.pem" then 109 ∷ [] else 9 ∷ []);
  parse_public_key = key_in;
  parse_private_key = key_in;
  equal_keys = eqb;
  write_backup = λ db. ok [];
  equal_keys-eq = key_equal;
}
  where
    key_in : List ℕ → Result ℕ
    key_in [] = err (plain "no key")
    key_in (k ∷ ks) = ok k

abbrev settings : List Setting
settings =
    address "0.0.0.0:80"
    ∷ server_security_enabled true
    ∷ server_public_key "public.pem"
    ∷ server_private_key "private.pem"
    ∷ []

abbrev pub secured : Options sample
secured = record no_options {
  address = "0.0.0.0:80";
  server_security_enabled = true;
  server_security_public_key_path = "public.pem";
  server_security_private_key_path = "private.pem";
  public_key = some 109;
  private_key = some 9;
  data_folder = "/srv/.data";
  bin_folder = "/srv";
}

new_server_options-IsReady_example : IsReady secured
unfolding new_server_options
new_server_options-IsReady_example = new_server_options-IsReady around settings secured refl

abbrev bucket_of : String → Storage sample.bolt
bucket_of bucket = record {
  db = (bucket, []) ∷ [];
  buckets = (bucket, bucket) ∷ [];
  default_bucket = bucket;
}

abbrev pub built : Built sample
built = record {
  opts = secured;
  http_address = "0.0.0.0:80";
  api_address = "127.0.0.1:7070";
  stream_db = bucket_of "stream";
  avatar_db = bucket_of "avatar";
  participant_db = bucket_of "participant";
}

new_server-IsFresh_example : (s : Server sample) × IsFresh around built s
unfolding new_server new_storage create_buckets SyncMap.store show_int SyncMap.load
new_server-IsFresh_example = new_server-IsFresh around settings built refl

-- A server with these keys.
abbrev secured_server : Server sample
secured_server = record empty_server { opts = secured }

secured-IsReady : IsReady secured
secured-IsReady = record {
  keys = λ on. (9, refl, refl);
  no_keys = λ off. absurd (cc);
  same_files = refl;
  tls = refl;
}

abbrev token_info : String → AuthInfo
token_info token = record { access_token = token; token_type = "" }

new_server_token-server_auth_example :
    (key : ℕ) × (secured_server.opts.public_key ≡ some key)
    × (server_auth key "server-token" ≡ passed "administrator")
unfolding new_server_token SyncMap.load
new_server_token-server_auth_example =
    new_server_token-server_auth secured_server admin (token_info "server-token") secured-IsReady
      refl refl refl refl

new_server_token-refused_example :
    (key : ℕ) × (secured_server.opts.public_key ≡ some key)
    × (e : GoError) × (server_auth key "late-token"
        ≡ refused status_unauthorized (auth_error (error_text e)))
unfolding new_server_token SyncMap.load
new_server_token-refused_example =
    new_server_token-refused secured_server late_admin (token_info "late-token") 62135596799
      secured-IsReady refl refl refl

-- A query that arrives as it was sent.
abbrev url : UrlQuery
url = record { send = λ v. v; first-send = λ k v. refl; all-send = λ k v. refl }

build-stream_query_example : build (url.send (stream_query request)) ≡ ok (with_defaults request)
build-stream_query_example = build-stream_query url request (omega arith) (omega arith)

-- An answer to a request for a token, as the client sees it.
abbrev token_request : ApiRequest
token_request = record {
  vars = [];
  query = [];
  token_request = decoded (record {
    audience = "";
    expires_at = pos 0;
    issued_at = pos 0;
    issuer = "";
    not_before = pos 0;
    subject = "administrator";
  });
  now = 100;
  stamp = "2021";
}

abbrev token_reply : Reply String
token_reply = record {
  status_code = 201;
  status = "201 Created";
  as_error = err (plain "no error");
  as_answer = ok "server-token";
}

status_of_reply :
    (p : RequestParams) (y : Reply String) → ok token_reply ≡ ok y → y.status_code ≡ 201
status_of_reply p y h = ap code_in (sym h)
  where
    code_in : Result (Reply String) → ℕ
    code_in (ok r) = r.status_code
    code_in (err e) = 0

new_token-not_got_example : ¬ (
    do_request (λ p. ok tt) (λ p. ok token_reply) (new_token_params (ok tt)) ≡ got "server-token")
unfolding handle_api new_server_token SyncMap.load parse_json_request validate_generate_server_token
    byte_length
new_token-not_got_example =
    new_token-not_got validation insertion around token_request secured_server secured_server
      (write_json_response 201 (server_token_body "server-token")) (λ p. ok tt)
      (λ p. ok token_reply) (ok tt) "server-token" refl status_of_reply
