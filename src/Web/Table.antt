-- ===== src/Web/Table.antt =====
-- The routes of src/web/mod.rs as they are written there.
use mini_mask.Common.{List, [], ◌∷◌, Option, none, some, Text, text, text_eq, ◌==◌, if◌then◌else◌}
use mini_mask.Config.{is_empty}
use mini_mask.Web.Cookies.{split_on}
use mini_mask.Web.Paths.{
  me, logout, all_clients, all_mappings, all_logs, all_stats, all_sessions, all_settings, password,
  ws, one_client, client_token, one_mapping, Endpoint, public_login, guarded,
}

-- A part of a pattern: a fixed text, or `{id}`.
pub data Segment : Type 0 where
  fixed : Text → Segment
  id : Segment

-- `{id}` is the only part that begins with a brace.
abbrev pub segment : Text → Segment
segment [] = fixed []
segment (b ∷ s) = if b == b'{' then id else fixed (b ∷ s)

abbrev pub segments : List Text → List Segment
segments [] = []
segments (s ∷ ss) = segment s ∷ segments ss

-- The pattern is what follows the first slash.
abbrev pub pattern_of : Text → List Segment
pattern_of path = segments (split_on b'/' path).1

-- The parameter, if the parts of a path fit a pattern; it is not empty.
abbrev pub fits : List Segment → (found : Text) → List Text → Option Text
fits [] found [] = some found
fits [] found (s ∷ ss) = none
fits (p ∷ ps) found [] = none
fits (fixed t ∷ ps) found (s ∷ ss) = if text_eq s t then fits ps found ss else none
fits (id ∷ ps) found (s ∷ ss) = if is_empty s then none else fits ps s ss

pub record Entry : Type 0 where
  pub pattern : List Segment
  pub endpoint : Text → Endpoint

abbrev pub route : Text → (Text → Endpoint) → Entry
route path endpoint = record { pattern = pattern_of path; endpoint = endpoint }

unfoldable pub routes : List Entry
unfolding text
routes =
    route (text "/api/clients") (λ _. guarded all_clients)
    ∷ route (text "/api/mappings") (λ _. guarded all_mappings)
    ∷ route (text "/api/logs") (λ _. guarded all_logs)
    ∷ route (text "/api/stats") (λ _. guarded all_stats)
    ∷ route (text "/api/sessions") (λ _. guarded all_sessions)
    ∷ route (text "/api/settings") (λ _. guarded all_settings)
    ∷ route (text "/api/ws") (λ _. guarded ws)
    ∷ route (text "/api/auth/me") (λ _. guarded me)
    ∷ route (text "/api/auth/logout") (λ _. guarded logout)
    ∷ route (text "/api/auth/login") (λ _. public_login)
    ∷ route (text "/api/clients/{id}") (λ i. guarded (one_client i))
    ∷ route (text "/api/mappings/{id}") (λ i. guarded (one_mapping i))
    ∷ route (text "/api/settings/password") (λ _. guarded password)
    ∷ route (text "/api/clients/{id}/regenerate-token") (λ i. guarded (client_token i))
    ∷ []

abbrev pub or_later : (Text → Endpoint) → Option Text → Option Endpoint → Option Endpoint
or_later endpoint none later = later
or_later endpoint (some i) later = some (endpoint i)

abbrev pub first_match : List Entry → List Text → Option Endpoint
first_match [] parts = none
first_match (e ∷ es) parts = or_later e.endpoint (fits e.pattern [] parts) (first_match es parts)

abbrev pub match_from_root : List Entry → Text × List Text → Option Endpoint
match_from_root es ([], parts) = first_match es parts
match_from_root es (_ ∷ _, parts) = none

-- All patterns begin with `api`, which is tested once.
abbrev behind : List Segment → List Segment
behind [] = []
behind (p ∷ ps) = ps

abbrev shortened : Entry → Entry
shortened e = record e { pattern = behind e.pattern }

abbrev below : Entry → Entry
below e = record e { pattern = fixed (text "api") ∷ e.pattern }
