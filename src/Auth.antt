-- ===== src/Auth.antt =====
-- portal/deps.py: who a request acts for. The digest of a token, `hashlib.sha256(…).hexdigest()`, is
-- the parameter `hash`; `max_age` is `settings.session_max_age`. The line that an unknown bearer
-- token writes to the security log is not part of the result.
pub mod Origin
pub mod SignedOut
use claude_pwa_portal.Base.{
  ℕ, ◌-◌, String, Text, Text-Eq, codes, Bool, true, false, not, ◌&&◌, Option, none, some, List, [],
  ltb, ◌==◌, String-Eq, ℕ-Eq, if◌then◌else◌,
}
use claude_pwa_portal.Base.Chars.{lower, starts_with, strip, drop}
use claude_pwa_portal.Base.Table.{first, update}
use claude_pwa_portal.Models.{
  Time, seconds, Role, admin, user, User, ApiToken, UserSession, AppSession, Db,
}
use claude_pwa_portal.Sessions.{get_active_session, touch_session}
use claude_pwa_portal.AppSessions.{get_active_app_session, touch_app_session}
use claude_pwa_portal.Launch.{given_slug}

-- What a request carries: the slug that the host was resolved to, the cookie of the app session, the
-- `session_id` of the signed portal cookie, and the header `Authorization`.
pub record Credentials : Type 0 where
  pub app_slug : Option Text
  pub app_cookie : Option String
  pub session_id : Option String
  pub authorization : Option Text

-- `request.state.auth_method`
pub data AuthMethod : Type 0 where
  app_session token cookie : AuthMethod

-- The user, the method that the request is marked with, and the database.
abbrev pub Identified : Type 0
Identified = Option User × Option AuthMethod × Db

-- `db.get(User, id)`
unfoldable pub get_user : ℕ → Db → Option User
get_user user_id db = first (λ u. u.id == user_id) db.users

-- `_TOKEN_LAST_USED_REFRESH`
abbrev token_last_used_refresh : Time
token_last_used_refresh = seconds 60

-- The raw token of the header `Authorization: Bearer <token>`.
unfoldable pub bearer_token : Option Text → Option Text
unfolding lower starts_with strip drop
bearer_token none = none
bearer_token (some header) =
    let raw = strip (drop 7 header) in
    if not (starts_with (lower header) (codes "bearer "))
    then none
    else if raw == codes ""
    then none
    else some raw

-- `last is None or (now - last) > _TOKEN_LAST_USED_REFRESH`
is_stale : Time → Option Time → Bool
is_stale now none = true
is_stale now (some last) = ltb token_last_used_refresh (now - last)

touch_api_token : Time → ApiToken → Db → Db
unfolding is_stale
touch_api_token now row db =
    if is_stale now row.last_used_at
    then record db {
      api_tokens =
          update (λ r. r.id == row.id) (λ r. record r { last_used_at = some now }) db.api_tokens;
    }
    else db

owner_of_token : Time → Option ApiToken → Db → Option User × Db
unfolding touch_api_token get_user
owner_of_token now none db = (none, db)
owner_of_token now (some row) db =
    let db' = touch_api_token now row db in (get_user row.created_by db', db')

module _ (hash : Text → String) where
  unfoldable pub authenticate_bearer : Time → Option Text → Db → Option User × Db
  unfolding owner_of_token
  authenticate_bearer now authorization db = elim (bearer_token authorization) [
    | none ↦ (none, db)
    | some raw ↦ owner_of_token now (first (λ r. r.token_hash == hash raw) db.api_tokens) db
  ]

module _ (max_age : ℕ) (now : Time) where
  from_session : Option UserSession → Db → Identified
  from_session none db = (none, none, db)
  from_session (some row) db =
      let db' = touch_session now row db in (get_user row.user_id db', some cookie, db')

  unfoldable pub current_user : Credentials → Db → Identified
  unfolding from_session
  current_user req db = from_session (get_active_session max_age now req.session_id db) db

  from_app_owner : AppSession → Option User → Db → Identified
  from_app_owner row none db = (none, none, db)
  from_app_owner row (some owner) db = (some owner, some app_session, touch_app_session now row db)

  -- On the host of an app only the app's own session counts.
  from_app_session : Text → Option AppSession → Db → Identified
  unfolding from_app_owner
  from_app_session slug none db = (none, none, db)
  from_app_session slug (some row) db =
      if row.slug == slug then from_app_owner row (get_user row.user_id db) db else (none, none, db)

  -- A bearer that names no user falls through to the portal's cookie.
  from_bearer : Credentials → Option User × Db → Identified
  from_bearer req (some owner, db) = (some owner, some token, db)
  from_bearer req (none, db) = current_user req db

  unfoldable pub current_user_or_token : (Text → String) → Credentials → Db → Identified
  unfolding from_app_session from_bearer current_user
  current_user_or_token hash req db = elim (given_slug req.app_slug) [
    | some slug ↦ from_app_session slug (get_active_app_session max_age now req.app_cookie db) db
    | none ↦ from_bearer req (authenticate_bearer hash now req.authorization db)
  ]

-- `user.role == "admin"`
unfoldable pub is_admin : User → Bool
is_admin u = elim u.role [ admin ↦ true | user ↦ false ]
