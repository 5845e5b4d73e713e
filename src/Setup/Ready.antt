-- ===== src/Setup/Ready.antt =====
-- What a server that has been set up is ready for.
use mathlib.Core.Path.{subst}
use cc_core_server.Common.{String, true, false, not, none, some, List, [], ◌∷◌, ok, ◌≡◌, sym, refl}
use cc_core_server.Common.Text.{◌==◌}
use cc_core_server.Server.{Externals, Options}
use cc_core_server.Setup.Stages.{KeysAdded, unsecured, paired}
use cc_core_server.Setup.Staged.{new_server_options-IsStaged}
use cc_core_server.Setup.{
  Surroundings, Setting, name, description, version, address, log_level, stream_container_prefix,
  data_folder, bin_folder, stream_image, server_public_key, server_private_key,
  stream_image_registry_auth, tls, meta, max_avatar_size, server_security_enabled,
  pull_image_on_startup, no_options, set, set_all, with_address, with_log_level, new_server_options,
}

-- Options that a server can run with: with security there are two keys that belong together, and
-- TLS is on exactly with both files.
pub record IsReady {x : Externals} (o : Options x) : Type 0 where
  pub keys :
      o.server_security_enabled ≡ true
      → (private : x.PrivateKey) × (o.private_key ≡ some private)
        × (o.public_key ≡ some (x.public_key private))
  pub no_keys : o.server_security_enabled ≡ false → (o.private_key ≡ none) × (o.public_key ≡ none)
  pub same_files : (o.tls_cert_file == "") ≡ (o.tls_key_file == "")
  pub tls : o.tls_enabled ≡ not (o.tls_cert_file == "")

module _ {x : Externals} (around : Surroundings x) where
  abbrev Keyless : Options x → Type 0
  Keyless o = (o.private_key ≡ none) × (o.public_key ≡ none)

  set-Keyless : (f : Setting) (o : Options x) → Keyless o → Keyless (set f o)
  unfolding set
  set-Keyless (name v) o h = h
  set-Keyless (description v) o h = h
  set-Keyless (version v) o h = h
  set-Keyless (address v) o h = h
  set-Keyless (log_level v) o h = h
  set-Keyless (stream_container_prefix v) o h = h
  set-Keyless (data_folder v) o h = h
  set-Keyless (bin_folder v) o h = h
  set-Keyless (stream_image v) o h = h
  set-Keyless (server_public_key v) o h = h
  set-Keyless (server_private_key v) o h = h
  set-Keyless (stream_image_registry_auth v) o h = h
  set-Keyless (tls cert key) o h = h
  set-Keyless (meta v) o h = h
  set-Keyless (max_avatar_size v) o h = h
  set-Keyless (server_security_enabled v) o h = h
  set-Keyless (pull_image_on_startup v) o h = h

  set_all-Keyless : (fs : List Setting) (o : Options x) → Keyless o → Keyless (set_all fs o)
  unfolding set_all
  set_all-Keyless [] o h = h
  set_all-Keyless (f ∷ fs) o h = set_all-Keyless fs (set f o) (set-Keyless f o h)

  KeysAdded-IsReady :
      (o o' : Options x)
      → Keyless o
      → ((o.tls_cert_file == "") ≡ (o.tls_key_file == ""))
      → o.tls_enabled ≡ not (o.tls_cert_file == "")
      → KeysAdded around o o'
      → IsReady o'
  KeysAdded-IsReady o o' k files tls_on (unsecured off e) =
      subst IsReady (sym e)
        (record { keys = λ on. absurd (cc); no_keys = λ h. k; same_files = files; tls = tls_on })
  KeysAdded-IsReady o o' k files tls_on (paired private on e) = subst IsReady (sym e) (record {
    keys = λ h. (private, refl, refl);
    no_keys = λ off. absurd (cc);
    same_files = files;
    tls = tls_on;
  })

  IsReady-bin_folder :
      (o : Options x) (folder : String) → IsReady o → IsReady (record o { bin_folder = folder })
  IsReady-bin_folder o folder f = record {
    keys = f.keys;
    no_keys = f.no_keys;
    same_files = f.same_files;
    tls = f.tls;
  }

  -- The options of a server that starts: with server security it has a private key and the public
  -- half of it, and without it has none; TLS is on exactly if its two files are given, and they are
  -- given both or not at all.
  pub new_server_options-IsReady :
      (settings : List Setting) (o : Options x)
      → new_server_options around settings ≡ ok o
      → IsReady o
  unfolding with_log_level with_address
  new_server_options-IsReady settings o h =
      let st = new_server_options-IsStaged around settings o h in
      subst IsReady (sym st.last) (
        IsReady-bin_folder st.keyed st.bin_folder (
          KeysAdded-IsReady _ st.keyed (set_all-Keyless settings no_options (refl, refl))
            st.same_files refl st.keys))
