-- ===== src/Web/Paths.antt =====
-- The routing table of src/web/mod.rs.
use mini_mask.Common.{
  List, [], ◌∷◌, Option, none, some, Bool, ◌&&◌, not, Text, text, text_eq, if◌then◌else◌,
}
use mini_mask.Config.{is_empty}
use mini_mask.Web.Cookies.{split_on}

-- The routes behind `require_auth`; `{id}` as it stands in the path.
pub data Route : Type 0 where
  me logout all_clients all_mappings all_logs all_stats all_sessions all_settings : Route
  password ws : Route
  one_client client_token one_mapping : (id : Text) → Route

pub data Endpoint : Type 0 where
  public_login : Endpoint
  guarded : Route → Endpoint

abbrev pub when : Bool → Endpoint → Option Endpoint → Option Endpoint
when b e rest = if b then some e else rest

-- The paths below `/api`, by the number of their parts.
abbrev pub one_part : Text → Option Endpoint
one_part a = when (text_eq a (text "clients")) (guarded all_clients) (
    when (text_eq a (text "mappings")) (guarded all_mappings) (
      when (text_eq a (text "logs")) (guarded all_logs) (
        when (text_eq a (text "stats")) (guarded all_stats) (
          when (text_eq a (text "sessions")) (guarded all_sessions) (
            when (text_eq a (text "settings")) (guarded all_settings)
              (when (text_eq a (text "ws")) (guarded ws) none))))))

abbrev pub two_parts : Text → Text → Option Endpoint
two_parts a b =
    let is_auth = text_eq a (text "auth") in
    let has_id = not (is_empty b) in
    when (is_auth && text_eq b (text "me")) (guarded me) (
      when (is_auth && text_eq b (text "logout")) (guarded logout) (
        when (is_auth && text_eq b (text "login")) public_login (
          when (text_eq a (text "clients") && has_id) (guarded (one_client b)) (
            when (text_eq a (text "mappings") && has_id) (guarded (one_mapping b)) (
              when (text_eq a (text "settings") && text_eq b (text "password")) (guarded password)
                none)))))

abbrev pub three_parts : Text → Text → Text → Option Endpoint
three_parts a b c =
    when (text_eq a (text "clients") && not (is_empty b) && text_eq c (text "regenerate-token"))
      (guarded (client_token b)) none

abbrev pub below_api : List Text → Option Endpoint
below_api (a ∷ []) = one_part a
below_api (a ∷ b ∷ []) = two_parts a b
below_api (a ∷ b ∷ c ∷ []) = three_parts a b c
below_api _ = none

abbrev pub from_root : Text × List Text → Option Endpoint
from_root ([], a ∷ parts) = if text_eq a (text "api") then below_api parts else none
from_root _ = none

-- None is the fallback.
unfoldable pub find_route : (path : Text) → Option Endpoint
find_route path = from_root (split_on b'/' path)
