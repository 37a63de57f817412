-- ===== src/AppSessions/Revocation.antt =====
-- Which child-app sessions a revocation ends.
use claude_pwa_portal.Base.{
  ap, ℕ, String, ◌≡◌, refl, Bool, ◌&&◌, Option, none, some, List, [], ◌∷◌, arith, ◌==◌, String-Eq,
  Text, Text-Eq, ℕ-Eq, if◌then◌else◌, is_none, contains, inl, inr, Bool-cases,
}
use claude_pwa_portal.Base.Table.{first, updated, first-update}
use claude_pwa_portal.Models.{Time, AppSession, Db}
use claude_pwa_portal.AppSessions.{
  active_app_session, has_id, find_app_session, close_app_session, close_where, is_open_of,
  revoke_app_sessions_for_user, revoke_all_app_sessions_for_slug, revoke_all_app_sessions_for_user,
  get_active_app_session,
}

-- The session, unless it is one of those.
abbrev pub unless : (AppSession → Bool) → Option AppSession → Option AppSession
unless ended none = none
unless ended (some row) = if ended row then none else some row

-- Where the query takes the open rows among `ended`, exactly those stop being active.
module _ (max_age : ℕ) (now later : Time) (found ended : AppSession → Bool)
    (open_ones : (x : AppSession) → found x ≡ (ended x && is_none x.revoked_at)) where
  find-close_where :
      (t : String) (db : Db)
      → find_app_session (some t) (close_where found now db).1
        ≡ updated found (close_app_session now) (find_app_session (some t) db)
  unfolding find_app_session close_where
  find-close_where t db =
      first-update (has_id t) found (close_app_session now) (λ x. refl) db.app_sessions

  active-closed :
      (row : Option AppSession)
      → active_app_session max_age later (updated found (close_app_session now) row)
        ≡ unless ended (active_app_session max_age later row)
  unfolding active_app_session
  active-closed none = refl
  active-closed (some row) = ground (arith, open_ones row)

  get_active-close_where :
      (t : Option String) (db : Db)
      → get_active_app_session max_age later t (close_where found now db).1
        ≡ unless ended (get_active_app_session max_age later t db)
  unfolding get_active_app_session
  get_active-close_where none db = refl
  get_active-close_where (some t) db = elim (Bool-cases (t == "")) [
    | inl e ↦ rw e refl
    | inr e ↦ rw e (rw find-close_where (active-closed (find_app_session (some t) db)))
  ]

-- The sessions of the user in the apps of a list, or in all apps.
abbrev pub lost_by : ℕ → Option (List Text) → AppSession → Bool
lost_by user_id none row = row.user_id == user_id
lost_by user_id (some slugs) row = row.user_id == user_id && contains slugs row.slug

unless_nothing :
    (user_id : ℕ) (found : Option AppSession) → unless (lost_by user_id (some [])) found ≡ found
unless_nothing user_id none = refl
unless_nothing user_id (some row) = ground arith

-- When a user loses some apps, a cookie names an active app session afterwards exactly if it did
-- before and the session is not one of that user in one of those apps; without a list of apps the
-- user loses the sessions of all.
pub get_active-revoke_app_sessions :
    (max_age : ℕ) (now later : Time) (user_id : ℕ) (slugs : Option (List Text)) (t : Option String)
    (db : Db)
    → get_active_app_session max_age later t (revoke_app_sessions_for_user now user_id slugs db).1
      ≡ unless (lost_by user_id slugs) (get_active_app_session max_age later t db)
unfolding revoke_app_sessions_for_user
get_active-revoke_app_sessions max_age now later user_id none t db =
    get_active-close_where max_age now later (is_open_of user_id) (lost_by user_id none) (λ x. refl)
      t db
get_active-revoke_app_sessions max_age now later user_id (some []) t db =
    rw (unless_nothing user_id (get_active_app_session max_age later t db)) refl
get_active-revoke_app_sessions max_age now later user_id (some (slug ∷ slugs)) t db =
    get_active-close_where max_age now later _ (lost_by user_id (some (slug ∷ slugs)))
      (λ x. ground arith) t db

-- When an app is disabled or deleted its sessions end, of every user, and no others do.
pub get_active-revoke_slug :
    (max_age : ℕ) (now later : Time) (slug : Text) (t : Option String) (db : Db)
    → get_active_app_session max_age later t (revoke_all_app_sessions_for_slug now slug db).1
      ≡ unless (λ row. row.slug == slug) (get_active_app_session max_age later t db)
unfolding revoke_all_app_sessions_for_slug
get_active-revoke_slug max_age now later slug t db =
    get_active-close_where max_age now later _ (λ row. row.slug == slug) (λ x. refl) t db

pub get_active-revoke_all :
    (max_age : ℕ) (now later : Time) (user_id : ℕ) (t : Option String) (db : Db)
    → get_active_app_session max_age later t (revoke_all_app_sessions_for_user now user_id db).1
      ≡ unless (lost_by user_id none) (get_active_app_session max_age later t db)
unfolding revoke_all_app_sessions_for_user
get_active-revoke_all max_age now later user_id t db =
    get_active-close_where max_age now later (is_open_of user_id) (lost_by user_id none) (λ x. refl)
      t db

-- Only the table of app sessions is read.
pub get_active_app_session_reads :
    (max_age : ℕ) (later : Time) (t : Option String) (db db' : Db)
    → db.app_sessions ≡ db'.app_sessions
    → get_active_app_session max_age later t db ≡ get_active_app_session max_age later t db'
unfolding get_active_app_session
get_active_app_session_reads max_age later none db db' e = refl
get_active_app_session_reads max_age later (some t) db db' e = elim (Bool-cases (t == "")) [
  | inl h ↦ rw h refl
  | inr h ↦ rw h (ap (λ rows. active_app_session max_age later (first (has_id t) rows)) e)
]
