-- ===== src/Setup/Staged.antt =====
-- How the options of a server come about, from the first stage of newServerOptions to the last
-- (server/server.go).
use mathlib.Core.Path.{subst}
use cc_core_server.Common.{String, not, List, ok, >>=-eq-ok, ◌≡◌, ◌∙◌, ap}
use cc_core_server.Common.Text.{◌==◌}
use cc_core_server.Server.{Externals, Options}
use cc_core_server.Setup.{
  Surroundings, Setting, default_server_folder, no_options, set_all, with_address, with_tls,
  with_log_level, image_pulled, with_data_folder, folder_made, with_keys, new_server_options,
}
use cc_core_server.Setup.Stages.{
  IsFolder, with_tls-adds, with_data_folder-adds, with_bin_folder-adds, KeysAdded, unsecured,
  paired, with_keys-KeysAdded,
}

module _ {x : Externals} (around : Surroundings x) where
  keys-bin_folder : (o o' : Options x) → KeysAdded around o o' → o'.bin_folder ≡ o.bin_folder
  keys-bin_folder o o' (unsecured off e) = ap (λ (a : Options x). a.bin_folder) e
  keys-bin_folder o o' (paired private on e) = ap (λ (a : Options x). a.bin_folder) e

  -- The options before the keys are read.
  abbrev pub front : Options x → String → Options x
  front o folder =
      record (with_log_level around (record o { tls_enabled = not (o.tls_cert_file == "") })) {
        data_folder = folder;
      }

  -- How the options `o` came about, from those with an address, `o0`.
  pub record IsStaged (o0 o : Options x) : Type 0 where
    pub data_folder : String
    pub bin_folder : String
    pub keyed : Options x
    pub by_data :
        IsFolder around o0.data_folder
          (λ dir. around.join_path dir default_server_folder)
          data_folder
    pub by_bin : IsFolder around o0.bin_folder (λ dir. dir) bin_folder
    pub same_files : (o0.tls_cert_file == "") ≡ (o0.tls_key_file == "")
    pub keys : KeysAdded around (front o0 data_folder) keyed
    pub last : o ≡ record keyed { bin_folder = bin_folder }

  pub new_server_options-IsStaged :
      (settings : List Setting) (o : Options x)
      → new_server_options around settings ≡ ok o
      → IsStaged (with_address around (set_all settings no_options)) o
  unfolding new_server_options with_log_level
  new_server_options-IsStaged settings o h =
      let o0 = with_address around (set_all settings no_options) in
      let (o1, e1, h1) = >>=-eq-ok (with_tls around o0) _ h in
      let (u, e2, h2) = >>=-eq-ok (image_pulled around (with_log_level around o1)) _ h1 in
      let (o3, e3, h3) = >>=-eq-ok (with_data_folder around (with_log_level around o1)) _ h2 in
      let (u', e4, h4) = >>=-eq-ok (folder_made around (around.make_folder o3.data_folder)) _ h3 in
      let (o5, e5, h5) = >>=-eq-ok (with_keys around o3) _ h4 in
      let (same, f1) = with_tls-adds around o0 o1 e1 in
      let (folder, by_data, f3) = with_data_folder-adds around (with_log_level around o1) o3 e3 in
      let (bin, by_bin, f6) = with_bin_folder-adds around o5 o h5 in
      let keys : KeysAdded around (front o0 folder) o5 =
        subst (λ a. KeysAdded around a o5)
          (f3 ∙ ap (λ a. record (with_log_level around a) { data_folder = folder }) f1)
          (with_keys-KeysAdded around o3 o5 e5) in
      record {
        data_folder = folder;
        bin_folder = bin;
        keyed = o5;
        by_data =
            subst
              (λ (a : Options x).
                IsFolder around a.data_folder (λ dir. around.join_path dir default_server_folder)
                  folder)
              f1 by_data;
        by_bin =
            subst (λ given. IsFolder around given (λ dir. dir) bin)
              (keys-bin_folder (front o0 folder) o5 keys) by_bin;
        same_files = same;
        keys = keys;
        last = f6;
      }
