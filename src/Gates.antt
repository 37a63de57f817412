-- ===== src/Gates.antt =====
-- portal/api.py: the gates that a handler of the SDK passes before it serves a request, and the
-- app that a request acts in. An HTTP error is its status.
pub mod Passed
use claude_pwa_portal.Base.{
  ℕ, String, Text, Text-Eq, codes, Bool, true, false, not, ◌&&◌, Option, none, some, List, [], ◌∷◌,
  ◌==◌, Result, ok, err, String-Eq, ℕ-Eq, if◌then◌else◌, contains,
}
use mathlib.Core.List.{reverse}
use claude_pwa_portal.Base.Chars.{starts_with, drop}
use claude_pwa_portal.Base.Table.{first}
use claude_pwa_portal.Models.{User, App, Db}
use claude_pwa_portal.Auth.{AuthMethod, app_session, token, cookie}
use claude_pwa_portal.Security.{check_csrf_header}
use claude_pwa_portal.Access.{is_admin_role, user_can_access_app}

-- What a handler reads of a request: the slug of the host, how the request was authenticated, the
-- header `X-Portal-App`, `Referer` or else `Origin` (empty where both are missing), the header
-- `X-CSRF-Token`, and the token in the request's session.
pub record Request : Type 0 where
  pub app_slug : Option Text
  pub auth_method : Option AuthMethod
  pub x_portal_app : Option Text
  pub referer : Text
  pub x_csrf : Option String
  pub session_csrf : Option String

-- One gate after another: the first that raises answers.
abbrev pub and_then : {A B : Type 0} → Result ℕ A → (A → Result ℕ B) → Result ℕ B
and_then (err status) k = err status
and_then (ok a) k = k a

-- An empty string counts as missing.
abbrev pub named : Option Text → Option Text
named none = none
named (some slug) = if slug == codes "" then none else some slug

unfoldable pub require_user : Option User → Result ℕ User
require_user none = err 401
require_user (some me) = ok me

unfoldable pub require_admin : Option User → Result ℕ User
unfolding require_user
require_admin account =
    and_then (require_user account) (λ me. if is_admin_role me.role then ok me else err 403)

abbrev pub is_child : Option AuthMethod → Bool
is_child none = false
is_child (some method) = elim method [ app_session ↦ true | token ↦ false | cookie ↦ false ]

abbrev pub is_token : Option AuthMethod → Bool
is_token none = false
is_token (some method) = elim method [ app_session ↦ false | token ↦ true | cookie ↦ false ]

abbrev pub is_cookie : Option AuthMethod → Bool
is_cookie none = false
is_cookie (some method) = elim method [ app_session ↦ false | token ↦ false | cookie ↦ true ]

unfoldable pub require_app_manager : Request → Option User → Result ℕ User
unfolding require_admin
require_app_manager request account =
    and_then (require_admin account) (λ me. if is_child request.auth_method then err 403 else ok me)

unfoldable pub require_csrf_for_cookie : Request → Result ℕ (Unit {0})
unfolding check_csrf_header
require_csrf_for_cookie request =
    if is_token request.auth_method
    then ok tt
    else if check_csrf_header request.session_csrf request.x_csrf
    then ok tt
    else err 403

abbrev pub is_enabled_slug : Text → App → Bool
is_enabled_slug slug a = a.slug == slug && a.enabled

found_app : Option App → Result ℕ App
found_app none = err 400
found_app (some app_row) = ok app_row

unfoldable pub require_app : Db → Option Text → Result ℕ App
unfolding found_app
require_app db slug = elim (named slug) [
  | none ↦ err 400
  | some wanted ↦ found_app (first (is_enabled_slug wanted) db.apps)
]

-- The text up to the first slash, where that text is not empty, and what follows the slash.
segment_from : Text → Text → Option (Text × Text)
segment_from seen [] = none
segment_from seen (c ∷ s) =
    let longer = segment_from (c ∷ seen) s in
    if c == 47 then (if seen == codes "" then none else some (reverse seen, s)) else longer

segment : Text → Option (Text × Text)
unfolding segment_from
segment = segment_from []

-- The slug in a path that follows `http` and perhaps `s`.
slug_in : Text → Option Text
unfolding segment starts_with drop
slug_in rest = if not (starts_with rest (codes "://")) then none else elim (segment (drop 3 rest)) [
  | none ↦ none
  | some (host, path) ↦
      if not (starts_with path (codes "apps/"))
      then none
      else elim (segment (drop 5 path)) [ none ↦ none | some (slug, _) ↦ some slug ]
]

-- The group of `_REFERER_APP_RE`, `^https?://[^/]+/apps/([^/]+)/`.
unfoldable pub referer_slug : Text → Option Text
unfolding slug_in starts_with drop
referer_slug ref =
    if starts_with ref (codes "https")
    then slug_in (drop 5 ref)
    else if starts_with ref (codes "http")
    then slug_in (drop 4 ref)
    else none

optional_app : Db → Option Text → Result ℕ (Option App)
unfolding require_app
optional_app db none = ok none
optional_app db (some slug) = and_then (require_app db (some slug)) (λ a. ok (some a))

-- The method of a request that carries no app host, for an endpoint that needs no app.
maybe_without_host : Request → Db → Result ℕ (Option App)
unfolding optional_app referer_slug
maybe_without_host request db = elim request.auth_method [
  | none ↦ ok none
  | some token ↦ optional_app db (named request.x_portal_app)
  | some cookie ↦ optional_app db (referer_slug request.referer)
  | some app_session ↦ optional_app db (referer_slug request.referer)
]

unfoldable pub maybe_resolve_app : Request → Db → Result ℕ (Option App)
unfolding maybe_without_host
maybe_resolve_app request db = elim (named request.app_slug) [
  | some slug ↦ optional_app db (some slug)
  | none ↦ maybe_without_host request db
]

unfoldable pub require_service : Option App → String → Result ℕ (Unit {0})
require_service none service = ok tt
require_service (some app_row) service = elim app_row.services [
  | [] ↦
      if app_row.services_ungated
      then ok tt
      else if contains app_row.allowed_services service
      then ok tt
      else err 403
  | _ ∷ _ ↦ if contains app_row.allowed_services service then ok tt else err 403
]

unfoldable pub require_app_access : User → Option App → Db → Result ℕ (Unit {0})
require_app_access me none db = ok tt
require_app_access me (some app_row) db =
    if user_can_access_app db me app_row then ok tt else err 403

app_of_referer : Db → Option Text → Result ℕ App
app_of_referer db none = err 400
app_of_referer db (some slug) = require_app db (some slug)

unfoldable pub resolve_app_slug : Request → Db → Result ℕ App
unfolding app_of_referer
resolve_app_slug request db = elim (named request.app_slug) [
  | some slug ↦ require_app db (some slug)
  | none ↦
      if is_token request.auth_method
      then require_app db request.x_portal_app
      else if is_cookie request.auth_method
      then app_of_referer db (referer_slug request.referer)
      else err 401
]

-- The gates of a handler that reads the caller's storage, in their order.
unfoldable pub read_gate : Request → Option User → Db → Result ℕ (User × App)
unfolding require_user resolve_app_slug require_app_access require_service
read_gate request account db = and_then (require_user account) (λ me.
    and_then (resolve_app_slug request db) (λ app_row.
      and_then (require_app_access me (some app_row) db)
        (λ _. and_then (require_service (some app_row) "storage") (λ _. ok (me, app_row)))))

-- Those of a handler that changes it.
unfoldable pub write_gate : Request → Option User → Db → Result ℕ (User × App)
unfolding require_user require_csrf_for_cookie resolve_app_slug require_app_access require_service
write_gate request account db = and_then (require_user account) (λ me.
    and_then (require_csrf_for_cookie request) (λ _.
      and_then (resolve_app_slug request db) (λ app_row.
        and_then (require_app_access me (some app_row) db)
          (λ _. and_then (require_service (some app_row) "storage") (λ _. ok (me, app_row))))))
