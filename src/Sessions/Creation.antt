-- ===== src/Sessions/Creation.antt =====
-- portal/sessions.py, `create_session`: what the ids of sessions name after it.
use claude_pwa_portal.Base.{
  ℕ, ◌+◌, ◌≤◌, String, ◌≡◌, ◌≢◌, refl, ap, Bool-cases, inl, inr, false, Option, none, some, arith,
  ◌==◌, String-Eq, eq_iff,
}
use claude_pwa_portal.Base.Table.{first-append, first-append_other}
use claude_pwa_portal.Models.{Time, seconds, UserSession, Db}
use claude_pwa_portal.Sessions.{
  has_id, expired, active_session, find_session, create_session, get_active_session, revoke_found,
  revoke_session,
}

-- The row that a login writes.
abbrev pub new_session : String → Time → ℕ → UserSession
new_session sid now user_id = record {
  id = sid;
  user_id = user_id;
  created_at = now;
  last_seen_at = now;
  revoked_at = none;
}

not_empty : (sid : String) → sid ≢ "" → (sid == "") ≡ false
not_empty sid h = ground (arith, eq_iff sid "")

-- An id that names no row yet names the new session at once.
pub get_active_session-create_session :
    (max_age : ℕ) (now : Time) (sid : String) (user_id : ℕ) (db : Db)
    → sid ≢ ""
    → find_session (some sid) db ≡ none
    → get_active_session max_age now (some sid) (create_session sid now user_id db).1
      ≡ some (new_session sid now user_id)
unfolding get_active_session create_session find_session
get_active_session-create_session max_age now sid user_id db named fresh =
    rw (not_empty sid named) (
      rw (first-append (has_id sid) db.user_sessions (new_session sid now user_id) fresh)
        (unfold active_session expired in ground (arith, eq_iff sid sid)))

-- It names it for as long as the session may live without being used.
pub get_active_session-create_later :
    (max_age : ℕ) (now later : Time) (sid : String) (user_id : ℕ) (db : Db)
    → sid ≢ ""
    → find_session (some sid) db ≡ none
    → later ≤ now + seconds 2592000
    → later ≤ now + seconds max_age
    → get_active_session max_age later (some sid) (create_session sid now user_id db).1
      ≡ some (new_session sid now user_id)
unfolding get_active_session create_session find_session
get_active_session-create_later max_age now later sid user_id db named fresh young used =
    rw (not_empty sid named) (
      rw (first-append (has_id sid) db.user_sessions (new_session sid now user_id) fresh)
        (unfold active_session expired in ground (arith, young, used, eq_iff sid sid)))

-- Every other id names what it did.
pub get_active_session-create_other :
    (max_age : ℕ) (now later : Time) (sid t : String) (user_id : ℕ) (db : Db)
    → t ≢ sid
    → get_active_session max_age later (some t) (create_session sid now user_id db).1
      ≡ get_active_session max_age later (some t) db
unfolding get_active_session create_session find_session
get_active_session-create_other max_age now later sid t user_id db other =
    elim (Bool-cases (t == "")) [
      | inl e ↦ rw e refl
      | inr e ↦ rw e (
          ap (active_session max_age later) (
            first-append_other (has_id t) db.user_sessions (new_session sid now user_id)
              (ground (arith, eq_iff sid t))))
    ]

revoke_found-app_sessions :
    (now : Time) (found : Option UserSession) (db : Db)
    → (revoke_found now found db).app_sessions ≡ db.app_sessions
unfolding revoke_found
revoke_found-app_sessions now none db = refl
revoke_found-app_sessions now (some row) db = ground arith

-- The revocation of a portal session leaves the app sessions alone.
pub revoke_session-app_sessions :
    (now : Time) (sid : Option String) (db : Db)
    → (revoke_session now sid db).app_sessions ≡ db.app_sessions
unfolding revoke_session
revoke_session-app_sessions now sid db = revoke_found-app_sessions now _ db
