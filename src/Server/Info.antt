-- ===== src/Server/Info.antt =====
-- What the server says of itself: Info and Ping (server/server.go), AvatarRestrictions
-- (server/avatar.go).
use cc_core_server.Common.{Result, ok}
use cc_core_server.Service.{ServerInfo, AvatarRestrictions}
use cc_core_server.Server.{Externals, Server}

module _ ⦃x : Externals⦄ where
  unfoldable pub info : Server x → ServerInfo
  info s = record {
    name = s.opts.name;
    description = s.opts.description;
    version = s.opts.version;
    meta = s.opts.meta;
  }

  unfoldable pub ping_server : Server x → Result (Unit {0})
  ping_server s = ok tt

  unfoldable pub avatar_restrictions : Server x → AvatarRestrictions
  avatar_restrictions s = record { max_file_size = s.opts.max_avatar_size }
