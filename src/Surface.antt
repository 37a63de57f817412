-- ===== src/Surface.antt =====
-- portal/middleware.py, `AppHostGateMiddleware` and `BodySizeLimitMiddleware`: which requests reach a
-- handler of the portal on the host of an app, and how much of a body. A request is its path and its
-- method; a body is the list of the lengths of its chunks.
pub mod Confined
pub mod Bodies
use claude_pwa_portal.Base.{
  ℕ, ◌+◌, ◌*◌, String, String-Eq, Text, Text-Eq, codes, Bool, true, false, not, ◌&&◌, ◌||◌, Option,
  none, some, List, [], ◌∷◌, ◌++◌, ltb, ◌==◌, ℕ-Eq, if◌then◌else◌, contains,
}
use claude_pwa_portal.Base.Chars.{starts_with, split_on, chop_newline}

-- `APP_BUNDLE_ROUTE_PREFIX`
abbrev pub app_bundle_route_prefix : Text
app_bundle_route_prefix = codes "/__app_bundle__"

-- `_APP_HOST_PORTAL_PATHS`
abbrev pub app_host_portal_paths : List Text
app_host_portal_paths =
    codes "/portal-sdk.js"
    ∷ codes "/api/v1/user/me"
    ∷ codes "/api/v1/csrf-token"
    ∷ codes "/api/v1/session/exchange"
    ∷ codes "/api/v1/pdf/render"
    ∷ codes "/api/v1/email/send"
    ∷ codes "/api/v1/storage"
    ∷ codes "/api/v1/share/create"
    ∷ []

-- A path `/forms/<name>`, with a slash behind it or without.
form_segments : List Text → Bool
form_segments (root ∷ forms ∷ name ∷ []) = root == [] && forms == codes "forms" && not (name == [])
form_segments (root ∷ forms ∷ name ∷ last ∷ []) =
    root == [] && forms == codes "forms" && not (name == []) && last == []
form_segments segments = false

-- `_APP_HOST_FORM_RE`, whose `$` also matches before a line break that ends the text
unfoldable pub matches_form_path : Text → Bool
unfolding split_on chop_newline form_segments
matches_form_path path =
    form_segments (split_on 47 path) || form_segments (split_on 47 (chop_newline path))

unfoldable pub is_portal_path_on_app_host : Text → Bool
unfolding matches_form_path starts_with
is_portal_path_on_app_host path =
    contains app_host_portal_paths path
    || starts_with path (codes "/api/v1/storage/")
    || matches_form_path path

-- The path that the portal routes; none where the gate answers 404.
unfoldable pub app_host_gate : Option Text → String → Text → Option Text
unfolding is_portal_path_on_app_host
app_host_gate none method path = some path
app_host_gate (some slug) method path =
    if slug == [] || is_portal_path_on_app_host path
    then some path
    else if method == "GET" || method == "HEAD"
    then some (app_bundle_route_prefix ++ path)
    else none

upload_segments : List Text → Bool
upload_segments (root ∷ api ∷ v1 ∷ apps ∷ name ∷ []) =
    root == []
    && not (name == [])
    && (api == codes "api" && v1 == codes "v1" && apps == codes "apps"
        || api == codes "admin"
          && v1 == codes "apps"
          && not (apps == [])
          && name == codes "replace")
upload_segments (root ∷ admin ∷ apps ∷ upload ∷ []) =
    root == [] && admin == codes "admin" && apps == codes "apps" && upload == codes "upload"
upload_segments segments = false

-- `_BUNDLE_UPLOAD_PATH_RE`
unfoldable pub matches_upload_path : Text → Bool
unfolding split_on chop_newline upload_segments
matches_upload_path path =
    upload_segments (split_on 47 path) || upload_segments (split_on 47 (chop_newline path))

abbrev mb : ℕ
mb = 1024 * 1024

unfoldable pub body_limit_for : Text → ℕ
unfolding matches_upload_path starts_with
body_limit_for path =
    if matches_upload_path path || path == codes "/mcp" || path == codes "/mcp/"
    then 80 * mb
    else if starts_with path (codes "/api/v1/storage/")
    then 11 * mb
    else if path == codes "/api/v1/pdf/render"
        || path == codes "/api/v1/share/create"
        || path == codes "/api/v1/email/send"
    then 5 * mb
    else if path == codes "/admin/settings"
    then 2 * mb
    else mb

-- The chunks that the handler receives, and whether the body was cut off.
unfoldable pub limited_receive : ℕ → ℕ → List ℕ → List ℕ × Bool
limited_receive limit received [] = ([], false)
limited_receive limit received (chunk ∷ chunks) =
    let (passed, exceeded) = limited_receive limit (received + chunk) chunks in
    if ltb limit (received + chunk) then ([], true) else (chunk ∷ passed, exceeded)

-- A length that was declared and does not read as a number counts as 0.
abbrev declared_over : ℕ → Option ℕ → Bool
declared_over limit none = false
declared_over limit (some declared) = ltb limit declared

-- None where the declared length is refused before anything is read.
unfoldable pub limit_body : Text → Option ℕ → List ℕ → Option (List ℕ × Bool)
unfolding body_limit_for limited_receive
limit_body path declared chunks =
    let limit = body_limit_for path in
    if declared_over limit declared then none else some (limited_receive limit 0 chunks)
