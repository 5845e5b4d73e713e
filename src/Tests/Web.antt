-- ===== src/Tests/Web.antt =====
-- Requests to the router, and what they change.
use cc_core_server.Common.{
  String, Bool, true, false, ◌&&◌, Option, none, some, List, [], ◌∷◌, All, plain, ok, err,
  if◌then◌else◌, ◌≡◌, refl,
}
use mathlib.Core.Path.{subst}
use cc_core_server.Common.Int.{pos}
use cc_core_server.Common.Text.{◌==◌}
use cc_core_server.Common.SyncMap.{SyncMap}
use cc_core_server.Models.{Response, no_body}
use cc_core_server.Checks.{Decoded, decoded, malformed}
use cc_core_server.Payload.{CreateStreamRequest, ParticipantJoinRequest}
use cc_core_server.Handlers.{Http, Request, World, Drawn}
use cc_core_server.Handlers.Routes.{Route, Matched, matched, unmatched, serves, Mux}
use cc_core_server.Tests.Sample.{sample, host_dialling, draw}
use cc_core_server.Tests.Joins.{bytes_as_images}
use cc_core_server.Tests.Rules.{validation}

-- Bodies that are decoded already.
pub data Content : Type 0 where
  empty_content : Content
  create_content : CreateStreamRequest → Content
  join_content : ParticipantJoinRequest → Content

abbrev as_create : Content → Decoded CreateStreamRequest
as_create (create_content r) = decoded r
as_create c = malformed (plain "invalid character")

abbrev as_join : Content → Decoded ParticipantJoinRequest
as_join (join_content r) = decoded r
as_join c = malformed (plain "invalid character")

abbrev pub http : Http
http = record {
  Content = Content;
  decode_create_stream = as_create;
  decode_participant_join = as_join;
  decode_patch_stream = λ c. malformed (plain "invalid character");
  refused_unkeyed = λ token. none;
  decode_patch_participant = λ c. malformed (plain "invalid character");
  form_file = λ c name. err (plain "http: no such file");
  redirect =
      λ url status. record { status = status; header = ("Location", url) ∷ []; body = no_body };
  redirect-status = λ url status. refl;
}

abbrev pub world : World
world = record {
  platform = host_dialling (ok tt);
  images = bytes_as_images;
  validation = validation;
  http = http;
}

abbrev pub drawn : Drawn sample
drawn = record { stream = draw; uuid = "p1" }

-- A router that knows the paths of one stream.
abbrev vars_of : String → String → Option (SyncMap String)
vars_of template path =
    if template == "/stream/{uuid}" && path == "/stream/s1"
    then some (("uuid", "s1") ∷ [])
    else if template == "/stream/{uuid}/join" && path == "/stream/s1/join"
    then some (("uuid", "s1") ∷ [])
    else if template == path
    then some []
    else none

abbrev not_found : Response
not_found = record { status = 404; header = []; body = no_body }

abbrev match_one : Route → Matched → Bool → Option (SyncMap String) → Matched
match_one q rest true (some vars) = matched q vars
match_one q rest served o = rest

abbrev match_routes : List Route → Request http → Matched
match_routes [] r = unmatched not_found
match_routes (q ∷ qs) r =
    let rest = match_routes qs r in
    match_one q rest (serves r.method q.methods) (vars_of q.path r.path)

route_of : {q q' : Route} {vars vars' : SyncMap String} → matched q vars ≡ matched q' vars' → q ≡ q'
route_of h = cc

pub match_routes-All :
    (rs : List Route) (r : Request http) (q : Route) (vars : SyncMap String)
    → match_routes rs r ≡ matched q vars
    → (P : Route → Type 0) → All P rs
    → P q
match_routes-All [] r q vars h P a = absurd (cc)
match_routes-All (q' ∷ qs) r q vars h P (first, others) =
    one (serves r.method q'.methods) (vars_of q'.path r.path) h
      (λ e. match_routes-All qs r q vars e P others)
  where
    one :
        (b : Bool) (o : Option (SyncMap String))
        → match_one q' (match_routes qs r) b o ≡ matched q vars
        → (match_routes qs r ≡ matched q vars → P q)
        → P q
    one true (some v) e rest = subst P (route_of e) first
    one true none e rest = rest e
    one false o e rest = rest e

pub match_routes-serves :
    (rs : List Route) (r : Request http) (q : Route) (vars : SyncMap String)
    → match_routes rs r ≡ matched q vars
    → serves r.method q.methods ≡ true
match_routes-serves [] r q vars h = absurd (cc)
match_routes-serves (q' ∷ qs) r q vars h =
    one (serves r.method q'.methods) refl (vars_of q'.path r.path) h
      (λ e. match_routes-serves qs r q vars e)
  where
    one :
        (b : Bool)
        → serves r.method q'.methods ≡ b
        → (o : Option (SyncMap String)) → match_one q' (match_routes qs r) b o ≡ matched q vars
        → (match_routes qs r ≡ matched q vars → serves r.method q.methods ≡ true)
        → serves r.method q.methods ≡ true
    one true s (some v) e rest = subst (λ p. serves r.method p.methods ≡ true) (route_of e) s
    one true s none e rest = rest e
    one false s o e rest = rest e

abbrev pub mux : Mux http
mux = record {
  match = match_routes;
  match-All = match_routes-All;
  match-serves = match_routes-serves;
}

abbrev pub create_request : CreateStreamRequest
create_request = record {
  name = "go talk";
  description = "live";
  join = record { policy = "by_code"; code = "123456" };
  stream = record { preferred_port = pos 0; preferred_ip = ""; launch_mode = "" };
  host = record { name = "alice"; avatar_id = "a1" };
}

abbrev pub post_stream : Request http
post_stream = record {
  method = "POST";
  path = "/stream";
  authorization = "";
  code_cord_auth = "server-token";
  forwarded_for = "10.0.0.1";
  remote_addr = "10.0.0.9:5000";
  query = [];
  content = create_content create_request;
  can_flush = true;
}

abbrev pub delete_stream : Request http
delete_stream = record post_stream {
  method = "DELETE";
  path = "/stream/s1";
  authorization = "Bearer host-token";
  content = empty_content;
}

abbrev pub post_join : Request http
post_join = record post_stream {
  path = "/stream/s1/join";
  content = join_content (record { name = "robert"; avatar_id = ""; join_code = "123456" });
}
