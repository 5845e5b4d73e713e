-- ===== src/Program.antt =====
-- The program (main.go): its flags, the configuration that they give, and the server that is made
-- of it. urfave/cli, which finds what is given for a flag on the command line or in the
-- environment, and the decoding of the embedded build.json are parameters.
pub mod Configured
use cc_core_server.Common.{
  String, Bool, false, Option, none, some, List, [], ◌∷◌, Result, ok, err, Run, returns, panics,
}
use cc_core_server.Common.Int.{ℤ, pos, negsuc}
use cc_core_server.Common.SyncMap.{SyncMap}
use cc_core_server.Server.{Externals}
use cc_core_server.Setup.{
  Surroundings, Setting, name, description, version, meta, address, tls, log_level,
  stream_container_prefix, stream_image, stream_image_registry_auth, pull_image_on_startup,
  data_folder, max_avatar_size, bin_folder, server_security_enabled, server_private_key,
  server_public_key,
}
use cc_core_server.Setup.Building.{Built, new_server}

pub record ServerConfig : Type 0 where
  pub address : String
  pub tls_cert_file_path : String
  pub tls_key_file_path : String
  pub log_level : String
  pub stream_container_prefix : String
  pub stream_image : String
  pub stream_image_registry_auth : String
  pub pull_image_on_startup : Bool
  pub data_folder : String
  pub max_avatar_size : ℤ
  pub with_security_check : Bool
  pub security_public_key_path : String
  pub security_private_key_path : String
  pub binaries_path : String

-- `var cfg serverConfig`.
abbrev no_config : ServerConfig
no_config = record {
  address = "";
  tls_cert_file_path = "";
  tls_key_file_path = "";
  log_level = "";
  stream_container_prefix = "";
  stream_image = "";
  stream_image_registry_auth = "";
  pull_image_on_startup = false;
  data_folder = "";
  max_avatar_size = pos 0;
  with_security_check = false;
  security_public_key_path = "";
  security_private_key_path = "";
  binaries_path = "";
}

-- The field that a flag writes, by the flag's type, with the value that it has by default.
pub data Destination : Type 0 where
  text : String → (String → ServerConfig → ServerConfig) → Destination
  switch : Bool → (Bool → ServerConfig → ServerConfig) → Destination
  number : ℤ → (ℤ → ServerConfig → ServerConfig) → Destination

pub record Flag : Type 0 where
  pub name : String
  pub aliases : List String
  pub env_vars : List String
  pub destination : Destination

-- What cli writes for a flag, by its name and the value that it has where nothing is given.
pub record Given : Type 0 where
  pub text_of : String → String → String
  pub switch_of : String → Bool → Bool
  pub number_of : String → ℤ → ℤ

abbrev pub default_stream_prefix_container : String
default_stream_prefix_container = "code-cord.stream"

abbrev pub default_stream_image : String
default_stream_image = "code-cord.stream"

abbrev flag : String → List String → List String → Destination → Flag
flag label aliases env_vars destination = record {
  name = label;
  aliases = aliases;
  env_vars = env_vars;
  destination = destination;
}

unfoldable pub flags : List Flag
flags =
    flag "address" ("addr" ∷ "a" ∷ []) [] (text "" (λ v c. record c { address = v }))
    ∷ flag "tls-cert" [] ("CODE_CORD_TLS_CERT" ∷ [])
        (text "" (λ v c. record c { tls_cert_file_path = v }))
    ∷ flag "tls-key" [] ("CODE_CORD_TLS_KEY" ∷ [])
        (text "" (λ v c. record c { tls_key_file_path = v }))
    ∷ flag "log" ("lvl" ∷ "level" ∷ []) [] (text "" (λ v c. record c { log_level = v }))
    ∷ flag "stream-container-prefix" ("container-prefix" ∷ []) []
        (text default_stream_prefix_container (λ v c. record c { stream_container_prefix = v }))
    ∷ flag "stream-image" ("img" ∷ "docker-img" ∷ []) []
        (text default_stream_image (λ v c. record c { stream_image = v }))
    ∷ flag "stream-image-registry-auth" ("img-registry-auth" ∷ []) []
        (text "" (λ v c. record c { stream_image_registry_auth = v }))
    ∷ flag "pull-image-on-startup" ("pull-image" ∷ []) []
        (switch false (λ v c. record c { pull_image_on_startup = v }))
    ∷ flag "data-folder" ("data" ∷ []) ("CODE_CORD_DATA" ∷ [])
        (text "" (λ v c. record c { data_folder = v }))
    ∷ flag "avatar-size" [] [] (number (negsuc 0) (λ v c. record c { max_avatar_size = v }))
    ∷ flag "bin-path" ("bin" ∷ []) ("CODE_CORD_PATH" ∷ [])
        (text "" (λ v c. record c { binaries_path = v }))
    ∷ flag "with-security-check" ("securely" ∷ []) []
        (switch false (λ v c. record c { with_security_check = v }))
    ∷ flag "server-public-key" ("pub-key" ∷ []) ("CODE_CORD_SERVER_PUBLIC_KEY" ∷ [])
        (text "" (λ v c. record c { security_public_key_path = v }))
    ∷ flag "server-private-key" ("priv-key" ∷ []) ("CODE_CORD_SERVER_PRIVATE_KEY" ∷ [])
        (text "" (λ v c. record c { security_private_key_path = v }))
    ∷ []

abbrev applied : Given → String → Destination → ServerConfig → ServerConfig
applied g label (text v into) c = into (g.text_of label v) c
applied g label (switch v into) c = into (g.switch_of label v) c
applied g label (number v into) c = into (g.number_of label v) c

unfoldable pub run_flags : Given → List Flag → ServerConfig → ServerConfig
run_flags g [] c = c
run_flags g (f ∷ fs) c = run_flags g fs (applied g f.name f.destination c)

-- The configuration after `app.Run`.
unfoldable pub config_of : Given → ServerConfig
unfolding run_flags flags
config_of g = run_flags g flags no_config

pub record BuildInfo : Type 0 where
  pub name : String
  pub description : String
  pub version : String
  pub meta : SyncMap String

unfoldable pub settings_of : BuildInfo → ServerConfig → List Setting
settings_of info cfg =
    name info.name
    ∷ description info.description
    ∷ version info.version
    ∷ meta info.meta
    ∷ address cfg.address
    ∷ tls cfg.tls_cert_file_path cfg.tls_key_file_path
    ∷ log_level cfg.log_level
    ∷ stream_container_prefix cfg.stream_container_prefix
    ∷ stream_image cfg.stream_image
    ∷ stream_image_registry_auth cfg.stream_image_registry_auth
    ∷ pull_image_on_startup cfg.pull_image_on_startup
    ∷ data_folder cfg.data_folder
    ∷ max_avatar_size cfg.max_avatar_size
    ∷ bin_folder cfg.binaries_path
    ∷ server_security_enabled cfg.with_security_check
    ∷ server_private_key cfg.security_private_key_path
    ∷ server_public_key cfg.security_public_key_path
    ∷ []

module _ {x : Externals} (around : Surroundings x) where
  -- `newServer`, on the decoded build.json: decoding it fails, or one of its fields is missing or
  -- of another type, or it has them all.
  unfoldable pub new_configured_server :
      Result (Run BuildInfo) → ServerConfig → Run (Result (Built x))
  unfolding new_server settings_of
  new_configured_server (err e) cfg = returns (err e)
  new_configured_server (ok panics) cfg = panics
  new_configured_server (ok (returns info)) cfg = returns (new_server around (settings_of info cfg))
