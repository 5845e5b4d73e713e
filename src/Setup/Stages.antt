-- ===== src/Setup/Stages.antt =====
-- What each stage of newServerOptions adds to the options (server/server.go).
use cc_core_server.Common.{
  String, Bool, true, false, not, ◌&&◌, ◌||◌, some, plain, ok, err, ◌>>=◌, >>=-eq-ok, wrap_err,
  if◌then◌else◌, ◌≡◌, ◌∙◌, ap, sym, refl,
}
use cc_core_server.Common.Text.{◌==◌}
use cc_core_server.Storage.Laws.{wrap_err-eq-ok}
use cc_core_server.Server.{Externals, Options}
use cc_core_server.Setup.{
  Surroundings, default_server_folder, with_tls, with_data_folder, keys_compared, read_public_key,
  read_private_key, keys_read, with_keys, with_bin_folder,
}

module _ {x : Externals} (around : Surroundings x) where
  -- A folder that is given, or else one that is found under the working directory.
  pub record IsFolder (given : String) (below : String → String) (folder : String) : Type 0 where
    pub as_given : (given == "") ≡ false → folder ≡ given
    pub as_found :
        (given == "") ≡ true
        → (dir : String) × (around.working_directory ≡ ok dir) × (folder ≡ below dir)

  IsFolder-found :
      (given dir : String) (below : String → String)
      → (given == "") ≡ true
      → around.working_directory ≡ ok dir
      → IsFolder given below (below dir)
  IsFolder-found given dir below e h = record {
    as_given = λ k. absurd (cc);
    as_found = λ k. (dir, h, refl);
  }

  IsFolder-given :
      (given : String) (below : String → String)
      → (given == "") ≡ false
      → IsFolder given below given
  IsFolder-given given below e = record { as_given = λ k. refl; as_found = λ k. absurd (cc) }

  made : {a b : Options x} → ok a ≡ ok b → b ≡ a
  made h = cc

  pub with_tls-adds :
      (o o' : Options x)
      → with_tls around o ≡ ok o'
      → ((o.tls_cert_file == "") ≡ (o.tls_key_file == ""))
        × (o' ≡ record o { tls_enabled = not (o.tls_cert_file == "") })
  unfolding with_tls
  with_tls-adds o o' h = go (o.tls_cert_file == "") (o.tls_key_file == "") h
    where
      go :
          (a b : Bool)
          → (if a && not b
              then err (plain "you must provide the TLS cert file along with the TLS key file")
              else if not a && b
              then err (plain "you must provide the TLS key file along with the TLS cert file")
              else ok (record o { tls_enabled = not a && not b }))
            ≡ ok o'
          → (a ≡ b) × (o' ≡ record o { tls_enabled = not a })
      go true true h' = (refl, made h')
      go true false h' = absurd (cc)
      go false true h' = absurd (cc)
      go false false h' = (refl, made h')

  pub with_data_folder-adds :
      (o o' : Options x)
      → with_data_folder around o ≡ ok o'
      → (folder : String) × IsFolder o.data_folder
          (λ dir. around.join_path dir default_server_folder)
          folder
        × (o' ≡ record o { data_folder = folder })
  unfolding with_data_folder
  with_data_folder-adds o o' h = go (o.data_folder == "") refl h
    where
      go :
          (b : Bool)
          → (o.data_folder == "") ≡ b
          → (if b
              then wrap_err "could not detect working directory path" around.working_directory
                >>= (λ dir.
                    ok (record o { data_folder = around.join_path dir default_server_folder }))
              else ok o)
            ≡ ok o'
          → (folder : String) × IsFolder o.data_folder
              (λ dir. around.join_path dir default_server_folder)
              folder
            × (o' ≡ record o { data_folder = folder })
      go true k h' =
          let (dir, e, found) = >>=-eq-ok (wrap_err _ around.working_directory) _ h' in
          (
            around.join_path dir default_server_folder,
            IsFolder-found o.data_folder dir (λ dir. around.join_path dir default_server_folder) k
                (wrap_err-eq-ok _ _ e),
            made found,
          )
      go false k h' = (
        o.data_folder,
        IsFolder-given o.data_folder (λ dir. around.join_path dir default_server_folder) k,
        made h',
      )

  pub with_bin_folder-adds :
      (o o' : Options x)
      → with_bin_folder around o ≡ ok o'
      → (folder : String) × IsFolder o.bin_folder (λ dir. dir) folder
        × (o' ≡ record o { bin_folder = folder })
  unfolding with_bin_folder
  with_bin_folder-adds o o' h = go (o.bin_folder == "") refl h
    where
      go :
          (b : Bool)
          → (o.bin_folder == "") ≡ b
          → (if b
              then wrap_err "could not detect working directory path" around.working_directory
                >>= (λ dir. ok (record o { bin_folder = dir }))
              else ok o)
            ≡ ok o'
          → (folder : String) × IsFolder o.bin_folder (λ dir. dir) folder
            × (o' ≡ record o { bin_folder = folder })
      go true k h' =
          let (dir, e, found) = >>=-eq-ok (wrap_err _ around.working_directory) _ h' in
          (dir, IsFolder-found o.bin_folder dir (λ dir. dir) k (wrap_err-eq-ok _ _ e), made found)
      go false k h' = (o.bin_folder, IsFolder-given o.bin_folder (λ dir. dir) k, made h')

  -- The options with a key and its public half.
  abbrev pub with_pair : Options x → x.PrivateKey → Options x
  with_pair o private = record o {
    public_key = some (x.public_key private);
    private_key = some private;
  }

  keys_compared-adds :
      (o o' : Options x) (public : x.PublicKey) (private : x.PrivateKey)
      → keys_compared around o public private ≡ ok o'
      → o' ≡ with_pair o private
  unfolding keys_compared
  keys_compared-adds o o' public private h =
      go (around.equal_keys (x.public_key private) public) refl h
    where
      go :
          (b : Bool)
          → around.equal_keys (x.public_key private) public ≡ b
          → (if b
              then ok (record o { public_key = some public; private_key = some private })
              else err (plain "private key doesn't match public key"))
            ≡ ok o'
          → o' ≡ with_pair o private
      go true e h' =
          made h'
          ∙ ap (λ k. record o { public_key = some k; private_key = some private })
              (sym (around.equal_keys-eq _ _ e))
      go false e h' = absurd (cc)

  pub keys_read-adds :
      (o o' : Options x)
      → keys_read around o ≡ ok o'
      → (private : x.PrivateKey) × (o' ≡ with_pair o private)
  unfolding keys_read
  keys_read-adds o o' h =
      go (o.server_security_public_key_path == "" || o.server_security_private_key_path == "") h
    where
      go :
          (b : Bool)
          → (if b
              then err (
                  plain
                    "please provide path to server key files or disable `--with-security-check` flag")
              else read_public_key around o.server_security_public_key_path >>= (λ public.
                read_private_key around o.server_security_private_key_path
                >>= (λ private. keys_compared around o public private)))
            ≡ ok o'
          → (private : x.PrivateKey) × (o' ≡ with_pair o private)
      go true h' = absurd (cc)
      go false h' =
          let (public, e, more) =
            >>=-eq-ok (read_public_key around o.server_security_public_key_path) _ h' in
          let (private, e', rest) =
            >>=-eq-ok (read_private_key around o.server_security_private_key_path) _ more in
          (private, keys_compared-adds o o' public private rest)

  -- The keys that the options get: none without server security.
  pub data KeysAdded (o : Options x) : Options x → Type 0 where
    unsecured : {o' : Options x} → o.server_security_enabled ≡ false → o' ≡ o → KeysAdded o o'
    paired :
        {o' : Options x} (private : x.PrivateKey)
        → o.server_security_enabled ≡ true
        → o' ≡ with_pair o private
        → KeysAdded o o'

  pub with_keys-KeysAdded : (o o' : Options x) → with_keys around o ≡ ok o' → KeysAdded o o'
  unfolding with_keys
  with_keys-KeysAdded o o' h = go o.server_security_enabled refl h
    where
      go :
          (b : Bool)
          → o.server_security_enabled ≡ b
          → (if b then keys_read around o else ok o) ≡ ok o'
          → KeysAdded o o'
      go true e h' = let (private, f) = keys_read-adds o o' h' in paired private e f
      go false e h' = unsecured e (made h')
