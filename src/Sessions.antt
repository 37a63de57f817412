-- ===== src/Sessions.antt =====
-- portal/sessions.py: portal sessions, child-app sessions and the revocation of credentials.
-- `now` is what `_utcnow()` returns to the call, and a new session's id, which
-- `secrets.token_urlsafe` draws, is an argument. An `Optional` session id is that of a cookie.
pub mod Revocation
pub mod Lifetime
pub mod Creation
use claude_pwa_portal.Base.{
  suc, ℕ, ◌+◌, ◌-◌, ◌*◌, String, Bool, true, false, not, ◌&&◌, ◌||◌, Option, none, some, List, ltb,
  ◌==◌, String-Eq, ℕ-Eq, if◌then◌else◌, is_none, contains,
}
use claude_pwa_portal.Base.Table.{first, select, delete, update, count, insert}
use claude_pwa_portal.Models.{
  Time, seconds, User, ApiToken, OAuthCode, OAuthToken, UserSession, AppLaunchToken, AppSession,
  ScheduledRun, Db,
}

-- `_LAST_SEEN_REFRESH`
abbrev pub last_seen_refresh : Time
last_seen_refresh = seconds 60

-- `SESSION_ABSOLUTE_MAX_AGE`
abbrev pub session_absolute_max_age : Time
session_absolute_max_age = seconds (30 * 86400)

-- `_expired`, of a row's two times. A difference of datetimes is negative if the clock went back,
-- and then the test fails, as it does for the difference 0. `max_age` is `settings.session_max_age`.
unfoldable pub expired : ℕ → Time → Time → Time → Bool
expired max_age now created last_seen =
    ltb session_absolute_max_age (now - created) || ltb (seconds max_age) (now - last_seen)

-- `row is None or row.revoked_at is not None or _expired(row)`
active_session : ℕ → Time → Option UserSession → Option UserSession
active_session max_age now none = none
active_session max_age now (some row) =
    if not (is_none row.revoked_at) || expired max_age now row.created_at row.last_seen_at
    then none
    else some row

-- `if not session_id`
abbrev pub given : Option String → Option String
given none = none
given (some sid) = if sid == "" then none else some sid

-- `WHERE id = …`
abbrev pub has_id : String → UserSession → Bool
has_id sid row = row.id == sid

unfoldable pub find_session : Option String → Db → Option UserSession
find_session none db = none
find_session (some sid) db = first (has_id sid) db.user_sessions

-- The id is new: an id that is there would make the commit fail.
unfoldable pub create_session : String → Time → ℕ → Db → String × Db
create_session sid now user_id db =
    let row : UserSession = record {
      id = sid;
      user_id = user_id;
      created_at = now;
      last_seen_at = now;
      revoked_at = none;
    } in
    (sid, record db { user_sessions = insert row db.user_sessions })

abbrev pub close_session : Time → UserSession → UserSession
close_session now row = record row { revoked_at = some now }

-- A row that is read by its primary key is written back by it.
revoke_found : Time → Option UserSession → Db → Db
revoke_found now none db = db
revoke_found now (some row) db =
    if not (is_none row.revoked_at)
    then db
    else record db { user_sessions = update (has_id row.id) (close_session now) db.user_sessions }

unfoldable pub revoke_session : Time → Option String → Db → Db
unfolding revoke_found find_session
revoke_session now session_id db = revoke_found now (find_session (given session_id) db) db

-- `WHERE user_id = … AND revoked_at IS NULL`
abbrev pub is_open_of : ℕ → UserSession → Bool
is_open_of user_id row = row.user_id == user_id && is_none row.revoked_at

-- The commit is made only if there is a row; without one there is nothing to write either.
unfoldable pub revoke_all_for_user : Time → ℕ → Db → ℕ × Db
revoke_all_for_user now user_id db = (
  count (is_open_of user_id) db.user_sessions,
  record db { user_sessions = update (is_open_of user_id) (close_session now) db.user_sessions },
)

unfoldable pub get_active_session : ℕ → Time → Option String → Db → Option UserSession
unfolding active_session find_session expired
get_active_session max_age now session_id db =
    active_session max_age now (find_session (given session_id) db)

unfoldable pub touch_session : Time → UserSession → Db → Db
touch_session now session db =
    if ltb last_seen_refresh (now - session.last_seen_at)
    then record db {
      user_sessions =
          update (has_id session.id) (λ r. record r { last_seen_at = now }) db.user_sessions;
    }
    else db
