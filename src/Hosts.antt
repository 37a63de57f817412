-- ===== src/Hosts.antt =====
-- portal/middleware.py: the app that a request's host names.
pub mod Slugs
use mathlib.Core.List.{reverse}
use claude_pwa_portal.Base.{
  ℕ, Text, Text-Eq, codes, Bool, true, false, not, ◌&&◌, ◌||◌, Option, none, some, List, [], ◌∷◌,
  ◌++◌, leb, ◌==◌, ℕ-Eq, if◌then◌else◌, contains,
}
use claude_pwa_portal.Base.Chars.{lower, rstrip_by, starts_with, matches_slug}

-- `host.rsplit(":", 1)[0]`, of a text with a colon
before_last : ℕ → Text → Text
before_last sep [] = []
before_last sep (c ∷ s) = let rest = before_last sep s in if contains s sep then c ∷ rest else []

unfoldable pub strip_port : Text → Text
unfolding before_last starts_with
strip_port host =
    if contains host 58 && not (starts_with host (codes "[")) then before_last 58 host else host

-- The text without the suffix, where it ends with it.
unfoldable pub without_suffix : Text → Text → Option Text
without_suffix base [] = if [] == base then some [] else none
without_suffix base (c ∷ s) =
    let rest = without_suffix base s in
    if c ∷ s == base then some [] else elim rest [ none ↦ none | some slug ↦ some (c ∷ slug) ]

abbrev pub is_dot : ℕ → Bool
is_dot c = c == 46

-- The host as it is compared.
unfoldable pub normal_host : Text → Text
unfolding strip_port lower rstrip_by
normal_host host = rstrip_by is_dot (lower (strip_port host))

-- `.apps.<site>`
unfoldable pub apps_base : Text → Text
unfolding lower rstrip_by
apps_base site_url = codes ".apps." ++ rstrip_by is_dot (lower site_url)

valid_slug : Option Text → Option Text
unfolding matches_slug
valid_slug none = none
valid_slug (some slug) = if matches_slug slug then some slug else none

unfoldable pub resolve_app_slug_from_host : Text → Text → Option Text
unfolding without_suffix valid_slug normal_host apps_base
resolve_app_slug_from_host host site_url =
    if host == [] || site_url == []
    then none
    else valid_slug (without_suffix (apps_base site_url) (normal_host host))
