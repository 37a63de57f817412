-- ===== src/Sessions/Revocation.antt =====
-- What the revocation of portal sessions does to the sessions that a cookie can name.
use claude_pwa_portal.Base.{
  ap, ℕ, String, ◌≡◌, refl, Option, none, some, arith, ◌==◌, String-Eq, ℕ-Eq, if◌then◌else◌, inl,
  inr, Bool-cases, eq_iff,
}
use claude_pwa_portal.Base.Table.{first, update, updated, first-update, first_sound}
use claude_pwa_portal.Models.{Time, UserSession, Db}
use claude_pwa_portal.Sessions.{
  has_id, active_session, find_session, close_session, revoke_found, revoke_session, is_open_of,
  revoke_all_for_user, get_active_session,
}

module _ (now : Time) (db : Db) where
  -- A session that is closed by its id is found closed, and any other session as it was.
  find-close :
      (t s : String)
      → first (has_id t) (update (has_id s) (close_session now) db.user_sessions)
        ≡ updated (has_id s) (close_session now) (find_session (some t) db)
  unfolding find_session
  find-close t s =
      first-update (has_id t) (has_id s) (close_session now) (λ x. refl) db.user_sessions

  find_session-has_id :
      (t : String) {row : UserSession} → find_session (some t) db ≡ some row → row.id ≡ t
  unfolding find_session
  find_session-has_id t {row} e = (eq_iff row.id t).0 (first_sound (has_id t) db.user_sessions e)

  -- What `t` names after the session that was found under `s` is closed.
  active-revoke_found :
      (max_age : ℕ) (later : Time) (s t : String) (found owned : Option UserSession)
      → find_session (some s) db ≡ found
      → find_session (some t) db ≡ owned
      → active_session max_age later (find_session (some t) (revoke_found now found db))
        ≡ (if s == t then none else active_session max_age later owned)
  unfolding revoke_found active_session
  active-revoke_found max_age later s t none owned p q = ground (arith, eq_iff s t)
  active-revoke_found max_age later s t (some row) none p q =
      unfold find_session in ground (arith, find-close t row.id, eq_iff s t)
  active-revoke_found max_age later s t (some row) (some other) p q =
      unfold find_session in
      ground (
        arith,
        find-close t row.id,
        eq_iff s t,
        find_session-has_id s {row = row},
        find_session-has_id t {row = other},
        eq_iff other.id row.id,
      )

-- After a session is revoked its id names no active session, at any later or earlier time; what
-- every other id names is unchanged.
pub get_active_session-revoke_session :
    (max_age : ℕ) (now later : Time) (s t : String) (db : Db)
    → get_active_session max_age later (some t) (revoke_session now (some s) db)
      ≡ (if s == t then none else get_active_session max_age later (some t) db)
unfolding get_active_session revoke_session
get_active_session-revoke_session max_age now later s t db = ground (
  arith,
  active-revoke_found now db max_age later s t (find_session (some s) db) (find_session (some t) db)
      refl refl,
  eq_iff s t,
  eq_iff s "",
  eq_iff t "",
)

-- The session, unless it is the user's.
abbrev pub unless_of : ℕ → Option UserSession → Option UserSession
unless_of user_id none = none
unless_of user_id (some row) = if row.user_id == user_id then none else some row

pub find-revoke_all :
    (now : Time) (user_id : ℕ) (t : String) (db : Db)
    → find_session (some t) (revoke_all_for_user now user_id db).1
      ≡ updated (is_open_of user_id) (close_session now) (find_session (some t) db)
unfolding find_session revoke_all_for_user
find-revoke_all now user_id t db =
    first-update (has_id t) (is_open_of user_id) (close_session now) (λ x. refl) db.user_sessions

active-close_all :
    (max_age : ℕ) (now later : Time) (user_id : ℕ) (found : Option UserSession)
    → active_session max_age later (updated (is_open_of user_id) (close_session now) found)
      ≡ unless_of user_id (active_session max_age later found)
unfolding active_session
active-close_all max_age now later user_id none = refl
active-close_all max_age now later user_id (some row) = ground arith

-- After all sessions of a user are revoked, a cookie names an active session exactly if it did
-- before and the session is another user's.
pub get_active_session-revoke_all :
    (max_age : ℕ) (now later : Time) (user_id : ℕ) (t : Option String) (db : Db)
    → get_active_session max_age later t (revoke_all_for_user now user_id db).1
      ≡ unless_of user_id (get_active_session max_age later t db)
unfolding get_active_session
get_active_session-revoke_all max_age now later user_id none db = refl
get_active_session-revoke_all max_age now later user_id (some t) db = elim (Bool-cases (t == "")) [
  | inl e ↦ rw e refl
  | inr e ↦
      rw e
        (rw find-revoke_all (active-close_all max_age now later user_id (find_session (some t) db)))
]

-- Only the table of portal sessions is read.
pub get_active_session_reads :
    (max_age : ℕ) (later : Time) (t : Option String) (db db' : Db)
    → db.user_sessions ≡ db'.user_sessions
    → get_active_session max_age later t db ≡ get_active_session max_age later t db'
unfolding get_active_session
get_active_session_reads max_age later none db db' e = refl
get_active_session_reads max_age later (some t) db db' e = elim (Bool-cases (t == "")) [
  | inl h ↦ rw h refl
  | inr h ↦ rw h (ap (λ rows. active_session max_age later (first (has_id t) rows)) e)
]
