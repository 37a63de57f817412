-- ===== src/AppSessions.antt =====
-- portal/sessions.py, "AppSession helpers": the session of a user in one child app, on its subdomain.
-- Times and ids are given as in Sessions.antt.
pub mod Revocation
use claude_pwa_portal.Base.{
  ℕ, ◌-◌, String, Bool, not, ◌&&◌, ◌||◌, Option, none, some, List, [], ◌∷◌, ltb, ◌==◌, String-Eq,
  Text, Text-Eq, ℕ-Eq, if◌then◌else◌, is_none, contains,
}
use claude_pwa_portal.Base.Table.{first, update, count, insert}
use claude_pwa_portal.Models.{Time, AppSession, Db}
use claude_pwa_portal.Sessions.{expired, given, last_seen_refresh}

-- The id is new: an id that is there would make the commit fail.
unfoldable pub create_app_session : String → Time → ℕ → Text → Db → String × Db
create_app_session sid now user_id slug db =
    let row : AppSession = record {
      id = sid;
      user_id = user_id;
      slug = slug;
      created_at = now;
      last_seen_at = now;
      revoked_at = none;
    } in
    (sid, record db { app_sessions = insert row db.app_sessions })

-- `row is None or row.revoked_at is not None or _expired(row)`
active_app_session : ℕ → Time → Option AppSession → Option AppSession
active_app_session max_age now none = none
active_app_session max_age now (some row) =
    if not (is_none row.revoked_at) || expired max_age now row.created_at row.last_seen_at
    then none
    else some row

-- `WHERE id = …`
abbrev pub has_id : String → AppSession → Bool
has_id sid row = row.id == sid

unfoldable pub find_app_session : Option String → Db → Option AppSession
find_app_session none db = none
find_app_session (some sid) db = first (has_id sid) db.app_sessions

unfoldable pub get_active_app_session : ℕ → Time → Option String → Db → Option AppSession
unfolding active_app_session find_app_session expired
get_active_app_session max_age now session_id db =
    active_app_session max_age now (find_app_session (given session_id) db)

abbrev pub close_app_session : Time → AppSession → AppSession
close_app_session now row = record row { revoked_at = some now }

revoke_found : Time → Option AppSession → Db → Db
revoke_found now none db = db
revoke_found now (some row) db =
    if not (is_none row.revoked_at)
    then db
    else record db { app_sessions = update (has_id row.id) (close_app_session now) db.app_sessions }

unfoldable pub revoke_app_session : Time → Option String → Db → Db
unfolding revoke_found find_app_session
revoke_app_session now session_id db = revoke_found now (find_app_session (given session_id) db) db

-- The loop that the functions below share: it closes the rows that a query found, and counts them.
unfoldable pub close_where : (AppSession → Bool) → Time → Db → ℕ × Db
close_where found now db = (
  count found db.app_sessions,
  record db { app_sessions = update found (close_app_session now) db.app_sessions },
)

-- `WHERE user_id = … AND revoked_at IS NULL`
abbrev pub is_open_of : ℕ → AppSession → Bool
is_open_of user_id row = row.user_id == user_id && is_none row.revoked_at

unfoldable pub revoke_all_app_sessions_for_user : Time → ℕ → Db → ℕ × Db
unfolding close_where
revoke_all_app_sessions_for_user now user_id = close_where (is_open_of user_id) now

-- An empty set of slugs returns before the query; `None` does not restrict it.
unfoldable pub revoke_app_sessions_for_user : Time → ℕ → Option (List Text) → Db → ℕ × Db
unfolding close_where
revoke_app_sessions_for_user now user_id none db = close_where (is_open_of user_id) now db
revoke_app_sessions_for_user now user_id (some []) db = (0, db)
revoke_app_sessions_for_user now user_id (some (slug ∷ slugs)) db =
    close_where (λ row. is_open_of user_id row && contains (slug ∷ slugs) row.slug) now db

unfoldable pub revoke_all_app_sessions_for_slug : Time → Text → Db → ℕ × Db
unfolding close_where
revoke_all_app_sessions_for_slug now slug =
    close_where (λ row. row.slug == slug && is_none row.revoked_at) now

unfoldable pub touch_app_session : Time → AppSession → Db → Db
touch_app_session now session db =
    if ltb last_seen_refresh (now - session.last_seen_at)
    then record db {
      app_sessions =
          update (has_id session.id) (λ r. record r { last_seen_at = now }) db.app_sessions;
    }
    else db
