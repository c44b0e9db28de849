-- ===== src/Web/Safety.antt =====
-- The server as a whole: the tasks of src/tunnel and src/server.rs and the requests that src/web serves,
-- interleaved.
use mini_mask.Common.{ℕ, Text}
use mini_mask.Disk.{Disk}
use mini_mask.Store.Ports.{HasDistinctPorts}
use mini_mask.Stats.{Stats}
use mini_mask.Stats.Sampler.{Sampler, tick}
use mini_mask.State.{AppState, Deps}
use mini_mask.Tunnel.Sound.{IsSound}
use mini_mask.Tunnel.Steps.{Step}
use mini_mask.Web.Assets.{Assets}
use mini_mask.Web.App.{HttpRequest, Extract, serve_http}

-- What the tasks rely on, and that no two mappings share a port.
pub record IsSafe (s : AppState) : Type 0 where
  pub sound : IsSound s
  pub ports : HasDistinctPorts s.clients

-- A round of the sampler, with what its task holds.
abbrev pub sampled : (now : ℕ) (message : Stats → Text) → Sampler → AppState → AppState
sampled now message v s =
    let (_, stats, ws) = tick now message (v, s.stats, s.ws) in record s { stats = stats; ws = ws }

-- A step of a task of the tunnels or of the sampler, or an HTTP request that is served.
pub data Move (deps : Deps) (e : Extract) (a : Assets) : AppState → AppState → Type 0 where
  tunnels : {s t : AppState} → Step deps s t → Move deps e a s t
  samples :
      {s : AppState} (now : ℕ) (message : Stats → Text) (v : Sampler)
      → Move deps e a s (sampled now message v s)
  requests : {s : AppState} (q : HttpRequest) → Move deps e a s (serve_http deps e a q s).1

-- Any number of moves, the first one first.
pub data Moves (deps : Deps) (e : Extract) (a : Assets) : AppState → AppState → Type 0 where
  stay : {s : AppState} → Moves deps e a s s
  go : {s t u : AppState} → Move deps e a s t → Moves deps e a t u → Moves deps e a s u
