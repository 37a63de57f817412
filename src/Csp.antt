-- ===== src/Csp.antt =====
-- portal/middleware.py, "Per-app CSP": the `Content-Security-Policy` of an app's responses. The
-- header is a text, the requests are those that reach an app, and a nonce is what
-- `secrets.token_urlsafe` draws. The settings are those that the code reads. The lookup of the app
-- does not fail here; where it does the code takes no origin and the permissive policy.
pub mod Directives
pub mod Listed
pub mod Words
use claude_pwa_portal.Base.{
  ℕ, Text, Text-Eq, codes, Bool, true, false, not, ◌&&◌, Option, none, some, List, [], ◌∷◌, ◌++◌,
  ◌==◌, if◌then◌else◌, is_none,
}
use claude_pwa_portal.Base.Chars.{starts_with}
use claude_pwa_portal.Models.{App, Db}
use claude_pwa_portal.Apps.{find_app}

-- `" ".join(origins)`, from the second item on
join_rest : List Text → Text
join_rest [] = []
join_rest (o ∷ origins) = codes " " ++ (o ++ join_rest origins)

-- The allowed origins that begin as they should.
https_origins : List Text → List Text
unfolding starts_with
https_origins [] = []
https_origins (o ∷ origins) =
    let rest = https_origins origins in if starts_with o (codes "https://") then o ∷ rest else rest

connect_src : List Text → Text
unfolding join_rest https_origins
connect_src origins = codes "'self'" ++ join_rest (https_origins origins)

frame_src_directive : Option Text → Text
frame_src_directive none = []
frame_src_directive (some src) = if src == [] then [] else codes "frame-src " ++ (src ++ codes "; ")

abbrev nonce_src : Text → Text
nonce_src nonce = codes "'self' 'nonce-" ++ (nonce ++ codes "'")

pub strict_csp : List Text → Text → Option Text → Text → Text
unfolding connect_src frame_src_directive
strict_csp allowed frame_ancestors frame_src nonce =
    codes "default-src 'self'; script-src "
    ++ (nonce_src nonce
        ++ (codes "; style-src "
            ++ (nonce_src nonce
                ++ (codes "; img-src 'self' data: blob:; font-src 'self' data:; connect-src "
                    ++ (connect_src allowed
                        ++ (codes "; "
                            ++ (frame_src_directive frame_src
                                ++ (codes "frame-ancestors "
                                    ++ (frame_ancestors
                                        ++ codes
                                            "; base-uri 'self'; form-action 'self'; object-src 'none'")))))))))

pub permissive_csp : List Text → Text → Option Text → Text
unfolding connect_src frame_src_directive
permissive_csp allowed frame_ancestors frame_src =
    codes "default-src 'self' 'unsafe-inline' 'unsafe-eval' data: blob:; connect-src "
    ++ (connect_src allowed
        ++ (codes "; "
            ++ (frame_src_directive frame_src
                ++ (codes "frame-ancestors "
                    ++ (frame_ancestors ++ codes "; base-uri 'self'; form-action 'self'")))))

strict_with : List Text → Text → Option Text → Option Text → Option Text
unfolding strict_csp
strict_with allowed frame_ancestors frame_src none = none
strict_with allowed frame_ancestors frame_src (some nonce) =
    if nonce == [] then none else some (strict_csp allowed frame_ancestors frame_src nonce)

-- None where the code raises `ValueError`.
unfoldable pub build_child_app_csp :
    List Text → Text → Option Text → Bool → Option Text → Option Text
unfolding strict_with permissive_csp
build_child_app_csp allowed frame_ancestors frame_src strict nonce =
    if strict
    then strict_with allowed frame_ancestors frame_src nonce
    else some (permissive_csp allowed frame_ancestors frame_src)

unfoldable pub subdomain_frame_ancestors : Text → Bool → Text
subdomain_frame_ancestors site_url http_only =
    if http_only
    then codes "http://" ++ (site_url ++ (codes " https://" ++ site_url))
    else codes "https://" ++ site_url

unfoldable pub launcher_frame_src : Text → Text → Bool → Bool → Text
launcher_frame_src slug site_url cookies_secure http_only =
    let origin = slug ++ (codes ".apps." ++ site_url) in
    if http_only
    then codes "http://" ++ (origin ++ (codes " https://" ++ origin))
    else if cookies_secure
    then codes "https://" ++ origin
    else codes "http://" ++ origin

pub record Settings : Type 0 where
  pub site_url : Text
  pub http_only : Bool
  pub cookies_secure : Bool
  pub child_apps_same_origin : Bool

-- Strict on the subdomain of an app that asks for it, but not on the portal's own form pages there.
abbrev pub is_strict : Bool → Text → App → Bool
is_strict on_subdomain path app_row =
    on_subdomain && not (starts_with path (codes "/forms/")) && app_row.csp_strict

policy : Settings → Bool → Text → Text → Text → App → Option Text
unfolding build_child_app_csp subdomain_frame_ancestors launcher_frame_src starts_with
policy settings on_subdomain slug path nonce app_row =
    let strict = is_strict on_subdomain path app_row in
    let drawn = if strict then some nonce else none in
    if on_subdomain
    then build_child_app_csp app_row.allowed_origins
        (subdomain_frame_ancestors settings.site_url settings.http_only) none strict drawn
    else if settings.child_apps_same_origin
    then build_child_app_csp app_row.allowed_origins (codes "'self'") none strict drawn
    else build_child_app_csp app_row.allowed_origins (codes "'self'")
        (some
          (launcher_frame_src slug settings.site_url settings.cookies_secure settings.http_only))
        strict drawn

-- The header of a response for a slug, by its host or its path; none for an app that is not there.
unfoldable pub app_csp : Settings → Bool → Text → Text → Text → Db → Option Text
unfolding policy find_app
app_csp settings on_subdomain slug path nonce db = elim (find_app slug db) [
  | none ↦ none
  | some app_row ↦ policy settings on_subdomain slug path nonce app_row
]
