-- ===== src/Tests/Flags.antt =====
-- A server that the program makes of its flags.
use cc_core_server.Common.{String, true, [], ◌∷◌, ok, if◌then◌else◌, returns, ◌≡◌, refl}
use cc_core_server.Common.Int.{negsuc}
use cc_core_server.Common.Text.{◌==◌, show_int}
use cc_core_server.Common.SyncMap
use cc_core_server.Storage.{new_storage, create_buckets}
use cc_core_server.Setup.Building.{Built, new_server}
use cc_core_server.Program.{Given, config_of, BuildInfo, new_configured_server}
use cc_core_server.Program.Configured.{IsConfigured, new_configured_server-IsConfigured}
use cc_core_server.Tests.Sample.{sample}
use cc_core_server.Tests.Starts.{around, secured, built}

abbrev given : Given
given = record {
  text_of = texts;
  switch_of = λ label on. if label == "with-security-check" then true else on;
  number_of = λ label n. n;
}
  where
    texts : String → String → String
    texts label otherwise =
        if label == "address"
        then "0.0.0.0:80"
        else if label == "server-public-key"
        then "public.pem"
        else if label == "server-private-key"
        then "private.pem"
        else otherwise

abbrev info : BuildInfo
info = record {
  name = "code-cord server";
  description = "Light weight stream server platform";
  version = "0.0.1";
  meta = ("license", "GNU General Public License v3.0 (GPLv3)") ∷ [];
}

abbrev configured : Built sample
configured = record built {
  opts = record secured {
    name = "code-cord server";
    description = "Light weight stream server platform";
    version = "0.0.1";
    meta = ("license", "GNU General Public License v3.0 (GPLv3)") ∷ [];
    stream_container_prefix = "code-cord.stream";
    stream_image = "code-cord.stream";
    max_avatar_size = negsuc 0;
  };
}

new_configured_server-IsConfigured_example :
    (i : BuildInfo) × (ok (returns info) ≡ ok (returns i)) × IsConfigured around given i configured
unfolding new_configured_server new_server new_storage create_buckets SyncMap.store show_int
    SyncMap.load config_of
new_configured_server-IsConfigured_example =
    new_configured_server-IsConfigured around given (ok (returns info)) configured refl
