-- ===== src/Setup.antt =====
-- The options of the server (server/opts.go, newServerOptions of server/server.go). What the
-- operating system, docker and the PEM files answer is a parameter.
pub mod Building
pub mod Stages
pub mod Staged
pub mod Ready
pub mod Tokens
use mathlib.Core.Option
use cc_core_server.Common.{
  ℕ, String, Bool, true, false, not, ◌&&◌, ◌||◌, Option, none, some, List, [], ◌∷◌, GoError, plain,
  wrap, not_exist, is_not_exist, error_text, Result, ok, err, ◌>>=◌, ◌>>◌, wrap_err, if◌then◌else◌,
  ◌≡◌,
}
use cc_core_server.Common.Int.{ℤ, pos}
use cc_core_server.Common.Text.{◌==◌, ◌&◌, show_int}
use cc_core_server.Common.SyncMap.{SyncMap}
use cc_core_server.Service.{
  AuthInfo, ServerStorage, server_storage_avatar, server_storage_participant, server_storage_stream,
}
use cc_core_server.Storage.{Config, Bucket, Storage, new_storage, default_of}
use cc_core_server.Launch.{Platform, free_port}
use cc_core_server.Server.{StandardClaims, Externals, Options, Server}

-- What starting a server asks of its surroundings: `logrus.ParseLevel`, docker, the folders, the
-- files of the keys and the comparison of the two public keys, and the backup of a database.
-- `find_port` is `FreePort` of the host, which ends the program where it fails.
pub record Surroundings (x : Externals) : Type 0 where
  pub find_port : String → ℤ
  pub parse_level : String → Option String
  pub docker_client : Result (Unit {0})
  pub pull_image : String → String → Result (Unit {0})
  pub working_directory : Result String
  pub join_path : String → String → String
  pub make_folder : String → Result (Unit {0})
  pub is_exist : GoError → Bool
  pub read_file : String → Result (List ℕ)
  pub parse_public_key : List ℕ → Result x.PublicKey
  pub parse_private_key : List ℕ → Result x.PrivateKey
  pub equal_keys : x.PublicKey → x.PublicKey → Bool
  pub write_backup : x.bolt.Db → Result (List ℕ)
  pub equal_keys-eq : (k l : x.PublicKey) → equal_keys k l ≡ true → k ≡ l

-- The functions of server/opts.go that return an `Option`.
pub data Setting : Type 0 where
  name description version address log_level stream_container_prefix data_folder : String → Setting
  bin_folder stream_image server_public_key server_private_key : String → Setting
  stream_image_registry_auth : String → Setting
  tls : String → String → Setting
  meta : SyncMap String → Setting
  max_avatar_size : ℤ → Setting
  server_security_enabled pull_image_on_startup : Bool → Setting

abbrev pub default_server_host : String
default_server_host = "127.0.0.1"

abbrev pub default_server_folder : String
default_server_folder = ".data"

abbrev pub default_log_level : String
default_log_level = "info"

module _ {x : Externals} where
  -- `var opts Options`.
  abbrev pub no_options : Options x
  no_options = record {
    name = "";
    description = "";
    version = "";
    meta = [];
    address = "";
    tls_cert_file = "";
    tls_key_file = "";
    log_level = "";
    stream_container_prefix = "";
    stream_image = "";
    stream_image_registry_auth = "";
    pull_image_on_startup = false;
    data_folder = "";
    max_avatar_size = pos 0;
    server_security_public_key_path = "";
    server_security_private_key_path = "";
    server_security_enabled = false;
    bin_folder = "";
    log_level_set = none;
    public_key = none;
    private_key = none;
    tls_enabled = false;
  }

  -- What each option does.
  unfoldable pub set : Setting → Options x → Options x
  set (name v) o = record o { name = v }
  set (description v) o = record o { description = v }
  set (version v) o = record o { version = v }
  set (address v) o = record o { address = v }
  set (log_level v) o = record o { log_level = v }
  set (stream_container_prefix v) o = record o { stream_container_prefix = v }
  set (data_folder v) o = record o { data_folder = v }
  set (bin_folder v) o = record o { bin_folder = v }
  set (stream_image v) o = record o { stream_image = v }
  set (server_public_key v) o = record o { server_security_public_key_path = v }
  set (server_private_key v) o = record o { server_security_private_key_path = v }
  set (stream_image_registry_auth v) o = record o { stream_image_registry_auth = v }
  set (tls cert key) o = record o { tls_cert_file = cert; tls_key_file = key }
  set (meta v) o = record o { meta = v }
  set (max_avatar_size v) o = record o { max_avatar_size = v }
  set (server_security_enabled v) o = record o { server_security_enabled = v }
  set (pull_image_on_startup v) o = record o { pull_image_on_startup = v }

  -- The loop over the options.
  unfoldable pub set_all : List Setting → Options x → Options x
  unfolding set
  set_all [] o = o
  set_all (f ∷ fs) o = set_all fs (set f o)

module _ {x : Externals} (around : Surroundings x) where
  -- The parts of `newServerOptions`, in their order.
  unfoldable pub with_address : Options x → Options x
  with_address o = record o {
    address =
        if o.address == ""
        then default_server_host & ":" & show_int (around.find_port default_server_host)
        else o.address;
  }

  unfoldable pub with_tls : Options x → Result (Options x)
  with_tls o =
      if o.tls_cert_file == "" && not (o.tls_key_file == "")
      then err (plain "you must provide the TLS cert file along with the TLS key file")
      else if not (o.tls_cert_file == "") && o.tls_key_file == ""
      then err (plain "you must provide the TLS key file along with the TLS cert file")
      else ok (record o { tls_enabled = not (o.tls_cert_file == "") && not (o.tls_key_file == "") })

  unfoldable pub with_log_level : Options x → Options x
  with_log_level o = record o {
    log_level_set =
        if o.log_level == ""
        then none
        else some (elim (around.parse_level o.log_level) [
          | none ↦ default_log_level
          | some level ↦ level
        ]);
  }

  unfoldable pub image_pulled : Options x → Result (Unit {0})
  image_pulled o =
      if o.pull_image_on_startup
      then (do
        wrap_err "could not init docker cli client" around.docker_client
        wrap_err ("could not pull " & o.stream_image & " docker image")
            (around.pull_image o.stream_image o.stream_image_registry_auth))
      else ok tt

  unfoldable pub with_data_folder : Options x → Result (Options x)
  with_data_folder o =
      if o.data_folder == ""
      then (do
        dir ← wrap_err "could not detect working directory path" around.working_directory
        ok (record o { data_folder = around.join_path dir default_server_folder }))
      else ok o

  -- The outcome of `os.MkdirAll`; the errors of `setHidden` are only logged.
  unfoldable pub folder_made : Result (Unit {0}) → Result (Unit {0})
  folder_made (ok u) = ok tt
  folder_made (err e) =
      if around.is_exist e then ok tt else err (wrap "could not create server data folders" e)

  abbrev pub read_public_key : String → Result x.PublicKey
  read_public_key path = do
    bytes ← wrap_err ("could not read " & path & " public key file") (around.read_file path)
    wrap_err "could not parse public key data" (around.parse_public_key bytes)

  abbrev pub read_private_key : String → Result x.PrivateKey
  read_private_key path = do
    bytes ← wrap_err ("could not read " & path & " private key file") (around.read_file path)
    wrap_err "could not parse private key data" (around.parse_private_key bytes)

  -- The keys that were read, if they belong together.
  unfoldable pub keys_compared : Options x → x.PublicKey → x.PrivateKey → Result (Options x)
  keys_compared o public private =
      if around.equal_keys (x.public_key private) public
      then ok (record o { public_key = some public; private_key = some private })
      else err (plain "private key doesn't match public key")

  unfoldable pub keys_read : Options x → Result (Options x)
  unfolding keys_compared
  keys_read o =
      if o.server_security_public_key_path == "" || o.server_security_private_key_path == ""
      then err
          (plain "please provide path to server key files or disable `--with-security-check` flag")
      else (do
        public ← read_public_key o.server_security_public_key_path
        private ← read_private_key o.server_security_private_key_path
        keys_compared o public private)

  unfoldable pub with_keys : Options x → Result (Options x)
  unfolding keys_read
  with_keys o = if o.server_security_enabled then keys_read o else ok o

  unfoldable pub with_bin_folder : Options x → Result (Options x)
  with_bin_folder o =
      if o.bin_folder == ""
      then (do
        dir ← wrap_err "could not detect working directory path" around.working_directory
        ok (record o { bin_folder = dir }))
      else ok o

  -- `newServerOptions`.
  unfoldable pub new_server_options : List Setting → Result (Options x)
  unfolding set_all with_address with_tls with_log_level image_pulled with_data_folder folder_made
      with_keys with_bin_folder
  new_server_options settings = do
    o ← with_tls (with_address (set_all settings no_options))
    image_pulled (with_log_level o)
    o' ← with_data_folder (with_log_level o)
    folder_made (around.make_folder o'.data_folder)
    o'' ← with_keys o'
    with_bin_folder o''
