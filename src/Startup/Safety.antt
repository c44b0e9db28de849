-- ===== src/Startup/Safety.antt =====
-- A server that src/server.rs has started, and what becomes of it.
use mini_mask.Common.{◌≡◌, Option, none, some, Bool, true, false}
use mini_mask.Disk.{Disk}
use mini_mask.Config.{Config}
use mini_mask.Config.Load.{Toml, IsValid}
use mini_mask.Tls.{TlsAcceptor}
use mini_mask.Startup.Run.{Server}
use mini_mask.Tunnel.Sound.{IsSound}
use mini_mask.Web.Assets.{Assets}

-- TLS is never left out where the configuration asks for it.
abbrev pub Follows : Bool → Option TlsAcceptor → Type 0
Follows true a = (t : TlsAcceptor) × (a ≡ some t)
Follows false a = a ≡ none

pub record IsStarted (toml : Toml) (server : Server) : Type 0 where
  pub sound : IsSound server.state
  pub valid : IsValid toml server.state.config
  pub tunnel : Follows server.state.config.server.tunnel_tls server.tunnel
  pub web : Follows server.state.config.server.web_tls server.web
