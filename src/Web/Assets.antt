-- ===== src/Web/Assets.antt =====
-- The static files of the front end: src/web/embed.rs.
use mini_mask.Common.{
  ℕ, List, [], ◌∷◌, Option, none, some, Bool, true, false, Text, text, text_eq, ◌==◌, if◌then◌else◌,
}
use mini_mask.Config.{is_empty}
use mini_mask.Web.Cookies.{strip_prefix}

-- The embedded files by their name, and the type that is guessed from a name.
pub record Assets : Type 0 where
  pub get : (name : Text) → Option (List ℕ)
  pub mime : (name : Text) → Text

pub record Page : Type 0 where
  pub content_type : Text
  pub never_cached : Bool
  pub body : List ℕ

unfoldable pub index_html : Text
unfolding text
index_html = text "index.html"

-- `starts_with`.
abbrev starts_with : Text → Text → Bool
starts_with prefix s = elim (strip_prefix prefix s) [ none ↦ false | some _ ↦ true ]

-- `trim_start_matches('/')`.
abbrev trim_slashes : Text → Text
trim_slashes [] = []
trim_slashes (b ∷ s) = if b == b'/' then trim_slashes s else b ∷ s

module _ (a : Assets) where
  unfoldable pub make_response : (name : Text) → List ℕ → Page
  make_response name bytes = record {
    content_type = a.mime name;
    never_cached = text_eq name index_html;
    body = bytes;
  }

  abbrev found : (name : Text) → Option (List ℕ) → Option Page → Option Page
  found name none other = other
  found name (some bytes) other = some (make_response name bytes)

  -- None is the answer 404.
  unfoldable pub serve_embed : (path : Text) → Option Page
  serve_embed full =
      let path = trim_slashes full in
      let name = if is_empty path then index_html else path in
      if starts_with (text "/api/") full
      then none
      else found name (a.get name) (found index_html (a.get index_html) none)
