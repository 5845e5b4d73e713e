-- ===== src/Tests/Sample.antt =====
-- The libraries of the tests, and servers over them.
use mathlib.Core.Option
use cc_core_server.Common.{
  ℕ, ◌+◌, String, true, false, Option, none, some, [], Result, ok, err, refl,
}
use cc_core_server.Common.Int.{pos}
use cc_core_server.Common.Text.{◌&◌}
use cc_core_server.Service.{StreamConfig}
use cc_core_server.Launch.{Platform}
use cc_core_server.Server.{Externals, Options, Server}
use cc_core_server.Server.Lifecycle.{Draw}
use cc_core_server.Tests.Db.{
  stream_doc, sample_bolt, full_bolt, wrapping, as_stream, participants_doc, as_participants,
  avatar_doc, as_avatar,
}
use cc_core_server.Tests.Tokens.{
  sample_sign, sample_parse, sample_to_claims, sample_is_current, sample_parse-sign,
  sample_parse_stale, sample_is_current_untimed, sample_is_current_negative,
  sample_to_claims-subject, sample_to_claims-expires_at,
}

instance abbrev pub sample : Externals
sample = record {
  bolt = sample_bolt;
  stream_codec = wrapping stream_doc as_stream (λ a. refl);
  participants_codec = wrapping participants_doc as_participants (λ a. refl);
  avatar_codec = wrapping avatar_doc as_avatar (λ a. refl);
  PrivateKey = ℕ;
  PublicKey = ℕ;
  public_key = λ k. k + 100;
  sign = sample_sign;
  parse_token = sample_parse;
  to_claims = sample_to_claims;
  is_current = sample_is_current;
  parse_token-sign = sample_parse-sign;
  parse_token_stale = sample_parse_stale;
  is_current_untimed = sample_is_current_untimed;
  is_current_negative = sample_is_current_negative;
  to_claims-subject = sample_to_claims-subject;
  to_claims-expires_at = sample_to_claims-expires_at;
}

-- A host on which everything works, and on which the dials have this outcome.
abbrev pub host_dialling : Result (Unit {0}) → Platform
host_dialling answer = record {
  resolve = λ address. ok address;
  listen = λ address. ok (pos 40000);
  close_listener = ok tt;
  join_path = λ folder name. folder & "/" & name;
  is_windows = false;
  spawn = λ path address. ok 4242;
  kill = λ pid. ok tt;
  docker_client = ok tt;
  container_create = λ image address host port name. ok name;
  container_start = λ id. ok tt;
  container_stop = λ id. ok tt;
  dial = λ address attempt. dialled answer;
  notify = λ method url p. ok tt;
}
  where
    dialled : Result (Unit {0}) → Result (Result (Unit {0}))
    dialled (ok u) = ok (ok u)
    dialled (err e) = err e

abbrev pub config : String → StreamConfig
config policy = record {
  name = "go talk";
  description = "live";
  subject = "alice";
  join = record { join_policy = policy; join_code = "1234" };
  launch = record { preferred_port = pos 0; preferred_ip = ""; mode = "" };
  host = record { username = "alice"; avatar_id = "a1"; ip = "10.0.0.1" };
}

abbrev pub draw : Draw sample
draw = record { key = ok 7; stream_uuid = "s1"; host_uuid = "h1"; now = 100 }

-- The options of a server without security, or with this pair of keys.
abbrev pub options : {x : Externals} → Option (x.PublicKey × x.PrivateKey) → Options x
options keys = record {
  name = "code-cord";
  description = "";
  version = "1.0";
  meta = [];
  address = "127.0.0.1:30300";
  tls_cert_file = "";
  tls_key_file = "";
  log_level = "";
  stream_container_prefix = "code-cord";
  stream_image = "stream";
  stream_image_registry_auth = "";
  pull_image_on_startup = false;
  data_folder = ".data";
  max_avatar_size = pos 1024;
  server_security_public_key_path = "";
  server_security_private_key_path = "";
  server_security_enabled = elim keys [ none ↦ false | some k ↦ true ];
  bin_folder = "bin";
  log_level_set = none;
  public_key = Option.map (λ k. k.0) keys;
  private_key = Option.map (λ k. k.1) keys;
  tls_enabled = false;
}

-- A server that has just been set up.
abbrev pub empty_server : Server sample
empty_server = record {
  opts = options none;
  streams = [];
  stream_storage = record { name = "stream"; db = [] };
  avatar_storage = record { name = "avatar"; db = [] };
  participant_storage = record { name = "participant"; db = [] };
  tasks = [];
  calls = [];
}

abbrev pub full_disk : Externals
full_disk = record {
  bolt = full_bolt;
  stream_codec = sample.stream_codec;
  participants_codec = sample.participants_codec;
  avatar_codec = sample.avatar_codec;
  PrivateKey = ℕ;
  PublicKey = ℕ;
  public_key = λ k. k + 100;
  sign = sample_sign;
  parse_token = sample_parse;
  to_claims = sample_to_claims;
  is_current = sample_is_current;
  parse_token-sign = sample_parse-sign;
  parse_token_stale = sample_parse_stale;
  is_current_untimed = sample_is_current_untimed;
  is_current_negative = sample_is_current_negative;
  to_claims-subject = sample_to_claims-subject;
  to_claims-expires_at = sample_to_claims-expires_at;
}

abbrev pub full_draw : Draw full_disk
full_draw = record { key = ok 7; stream_uuid = "s1"; host_uuid = "h1"; now = 100 }

abbrev pub full_server : Server full_disk
full_server = record {
  opts = options none;
  streams = [];
  stream_storage = record { name = "stream"; db = [] };
  avatar_storage = record { name = "avatar"; db = [] };
  participant_storage = record { name = "participant"; db = [] };
  tasks = [];
  calls = [];
}
