-- ===== src/Program/Configured.antt =====
-- The server that the program makes of its flags (main.go).
use mathlib.Core.Path.{subst}
use cc_core_server.Common.{
  false, not, none, some, List, Result, ok, err, Run, returns, panics, >>=-eq-ok, wrap_err,
  if◌then◌else◌, ◌≡◌, ◌∙◌, ap, sym, refl,
}
use cc_core_server.Common.Int.{negsuc}
use cc_core_server.Common.Text.{◌==◌, ◌&◌, show_int}
use cc_core_server.Server.{Externals, Options}
use cc_core_server.Setup.Stages.{IsFolder, KeysAdded, unsecured, paired}
use cc_core_server.Setup.Staged.{front, new_server_options-IsStaged}
use cc_core_server.Setup.{
  Surroundings, Setting, no_options, set_all, with_address, with_log_level, new_server_options,
}
use cc_core_server.Storage.{new_storage}
use cc_core_server.Storage.Laws.{wrap_err-eq-ok}
use cc_core_server.Setup.Ready.{IsReady, new_server_options-IsReady}
use cc_core_server.Setup.Building.{Built, new_server}
use cc_core_server.Program.{
  Given, run_flags, flags, config_of, BuildInfo, settings_of, new_configured_server,
}

module _ {x : Externals} (around : Surroundings x) where
  -- The options but for what the last two stages set.
  abbrev fixed : Options x → Options x
  fixed o = record o { public_key = none; private_key = none; bin_folder = "" }

  KeysAdded-fixed : (o o' : Options x) → KeysAdded around o o' → fixed o' ≡ fixed o
  KeysAdded-fixed o o' (unsecured off e) = ap fixed e
  KeysAdded-fixed o o' (paired private on e) = ap fixed e

  -- What a server owes to the flags of the program, and to its build.json.
  pub record IsConfigured (g : Given) (info : BuildInfo) (b : Built x) : Type 0 where
    pub ready : IsReady b.opts
    pub name : b.opts.name ≡ info.name
    pub description : b.opts.description ≡ info.description
    pub version : b.opts.version ≡ info.version
    pub meta : b.opts.meta ≡ info.meta
    pub http_address : b.http_address ≡ (
        if g.text_of "address" "" == ""
        then "127.0.0.1" & ":" & show_int (around.find_port "127.0.0.1")
        else g.text_of "address" "")
    pub tls_cert : b.opts.tls_cert_file ≡ g.text_of "tls-cert" ""
    pub tls_key : b.opts.tls_key_file ≡ g.text_of "tls-key" ""
    pub tls : b.opts.tls_enabled ≡ not (g.text_of "tls-cert" "" == "")
    pub tls_files : (g.text_of "tls-cert" "" == "") ≡ (g.text_of "tls-key" "" == "")
    pub log_level : b.opts.log_level ≡ g.text_of "log" ""
    pub log_level_set : b.opts.log_level_set ≡ (
        if g.text_of "log" "" == ""
        then none
        else some
            (elim (around.parse_level (g.text_of "log" "")) [ none ↦ "info" | some level ↦ level ]))
    pub prefix :
        b.opts.stream_container_prefix ≡ g.text_of "stream-container-prefix" "code-cord.stream"
    pub image : b.opts.stream_image ≡ g.text_of "stream-image" "code-cord.stream"
    pub registry_auth :
        b.opts.stream_image_registry_auth ≡ g.text_of "stream-image-registry-auth" ""
    pub pull_image : b.opts.pull_image_on_startup ≡ g.switch_of "pull-image-on-startup" false
    pub data_folder :
        IsFolder around
          (g.text_of "data-folder" "")
          (λ dir. around.join_path dir ".data")
          b.opts.data_folder
    pub avatar_size : b.opts.max_avatar_size ≡ g.number_of "avatar-size" (negsuc 0)
    pub bin_folder : IsFolder around (g.text_of "bin-path" "") (λ dir. dir) b.opts.bin_folder
    pub secured : b.opts.server_security_enabled ≡ g.switch_of "with-security-check" false
    pub public_key_path : b.opts.server_security_public_key_path ≡ g.text_of "server-public-key" ""
    pub private_key_path :
        b.opts.server_security_private_key_path ≡ g.text_of "server-private-key" ""

  new_server-opts :
      (settings : List Setting) (b : Built x)
      → new_server around settings ≡ ok b
      → (new_server_options around settings ≡ ok b.opts) × (b.http_address ≡ b.opts.address)
  unfolding new_server
  new_server-opts settings b h =
      let (o, e, h1) =
        >>=-eq-ok (wrap_err "could not init server" (new_server_options around settings)) _ h in
      let (streams, e1, h2) = >>=-eq-ok (wrap_err _ (new_storage x.bolt _)) _ h1 in
      let (avatars, e2, h3) = >>=-eq-ok (wrap_err _ (new_storage x.bolt _)) _ h2 in
      let (participants, e3, h4) = >>=-eq-ok (wrap_err _ (new_storage x.bolt _)) _ h3 in
      subst
        (λ (c : Built x).
          (new_server_options around settings ≡ ok c.opts) × (c.http_address ≡ c.opts.address))
        (built_of h4) (wrap_err-eq-ok _ _ e, refl)
    where
      built_of : {a c : Built x} → ok a ≡ ok c → a ≡ c
      built_of k = cc

  settings-IsConfigured :
      (g : Given) (info : BuildInfo) (b : Built x)
      → new_server around (settings_of info (config_of g)) ≡ ok b
      → IsConfigured g info b
  unfolding config_of run_flags flags settings_of set_all with_address with_log_level
  settings-IsConfigured g info b h =
      let (made, same) = new_server-opts (settings_of info (config_of g)) b h in
      let ready = new_server_options-IsReady around (settings_of info (config_of g)) b.opts made in
      let st = new_server_options-IsStaged around (settings_of info (config_of g)) b.opts made in
      let kept : fixed b.opts
          ≡ fixed (
              front around
                (with_address around (set_all (settings_of info (config_of g)) no_options))
                st.data_folder) =
        ap fixed st.last ∙ KeysAdded-fixed _ st.keyed st.keys in
      record {
        ready = ready;
        name = ap (λ (o : Options x). o.name) kept;
        description = ap (λ (o : Options x). o.description) kept;
        version = ap (λ (o : Options x). o.version) kept;
        meta = ap (λ (o : Options x). o.meta) kept;
        tls_cert = ap (λ (o : Options x). o.tls_cert_file) kept;
        tls_key = ap (λ (o : Options x). o.tls_key_file) kept;
        log_level = ap (λ (o : Options x). o.log_level) kept;
        log_level_set = ap (λ (o : Options x). o.log_level_set) kept;
        prefix = ap (λ (o : Options x). o.stream_container_prefix) kept;
        image = ap (λ (o : Options x). o.stream_image) kept;
        registry_auth = ap (λ (o : Options x). o.stream_image_registry_auth) kept;
        pull_image = ap (λ (o : Options x). o.pull_image_on_startup) kept;
        avatar_size = ap (λ (o : Options x). o.max_avatar_size) kept;
        secured = ap (λ (o : Options x). o.server_security_enabled) kept;
        public_key_path = ap (λ (o : Options x). o.server_security_public_key_path) kept;
        private_key_path = ap (λ (o : Options x). o.server_security_private_key_path) kept;
        http_address = same ∙ ap (λ (o : Options x). o.address) kept;
        tls = ready.tls ∙ ap (λ (o : Options x). not (o.tls_cert_file == "")) kept;
        tls_files = st.same_files;
        data_folder =
            subst
              (IsFolder around (g.text_of "data-folder" "") (λ dir. around.join_path dir ".data"))
              (sym (ap (λ (o : Options x). o.data_folder) kept)) st.by_data;
        bin_folder =
            subst (IsFolder around (g.text_of "bin-path" "") (λ dir. dir))
              (sym (ap (λ (o : Options x). o.bin_folder) st.last)) st.by_bin;
      }

  -- A server that the program makes of its flags has what the command line says for each of the
  -- fourteen, with the flag's own default, and what build.json says of it. An empty address is a
  -- free port of the default host, and the folders that are not given are found under the working
  -- directory; an unknown log level is info. The server is secured exactly if asked to, and then
  -- has both halves of one key; it uses TLS exactly if a certificate is given, and then its key is
  -- given too.
  pub new_configured_server-IsConfigured :
      (g : Given) (build : Result (Run BuildInfo)) (b : Built x)
      → new_configured_server around build (config_of g) ≡ returns (ok b)
      → (info : BuildInfo) × (build ≡ ok (returns info)) × IsConfigured g info b
  unfolding new_configured_server
  new_configured_server-IsConfigured g (err e) b h = absurd (cc)
  new_configured_server-IsConfigured g (ok panics) b h = absurd (cc)
  new_configured_server-IsConfigured g (ok (returns info)) b h =
      (info, refl, settings-IsConfigured g info b (made h))
    where
      made : {p q : Result (Built x)} → returns p ≡ returns q → p ≡ q
      made k = cc
