-- ===== src/Login/Passwords.antt =====
-- portal/main.py, the self-serve password change and the logout, and the sessions after them.
use mathlib.Core.Path.{subst}
use claude_pwa_portal.Base.{
  ℕ, ◌≤◌, ltb, length, codes, arith, ◌∷◌, eq_iff, Bool-cases, String, ◌≡◌, ◌≢◌, refl, ap, ◌∙◌, Bool,
  true, false, Option, none, some, List, [], ◌++◌, ◌==◌, String-Eq, ℕ-Eq, if◌then◌else◌, inl, inr,
  List-cases,
}
use claude_pwa_portal.Base.Table.{update}
use claude_pwa_portal.Models.{Time, User, UserSession, Db}
use claude_pwa_portal.Audit.{record_event}
use claude_pwa_portal.Users.{has_user_id}
use claude_pwa_portal.Security.{validate_password, utf8_length}
use claude_pwa_portal.Sessions.{find_session, create_session, revoke_session, get_active_session}
use claude_pwa_portal.Sessions.Creation.{
  new_session, get_active_session-create_session, get_active_session-create_other,
  revoke_session-app_sessions,
}
use claude_pwa_portal.Sessions.Revocation.{
  unless_of, find-revoke_all, get_active_session-revoke_session, get_active_session_reads,
}
use claude_pwa_portal.AppSessions.{get_active_app_session, revoke_all_app_sessions_for_user}
use claude_pwa_portal.AppSessions.Revocation.{
  unless, lost_by, get_active-revoke_all, get_active_app_session_reads,
}
use claude_pwa_portal.Credentials.{sign_out_everywhere}
use claude_pwa_portal.Credentials.Cascade.{sign_out-SignedOut, sign_out_user_sessions}
use claude_pwa_portal.Login.{
  logout, logout_cascade, complaint, change_password_errors, changed_password,
  profile_change_password,
}

abbrev pub rehashed : (String → String) → User → String → Db → Db
rehashed hash_password account new_password db = record db {
  users =
      update (has_user_id account.id) (λ u. record u { password_hash = hash_password new_password })
        db.users;
}

-- Every other session of the account is closed, and the new one is active.
pub record OnlyNew (max_age : ℕ) (now : Time) (sid : String) (user_id : ℕ) (db db' : Db)
    : Type 0 where
  pub session : get_active_session max_age now (some sid) db' ≡ some (new_session sid now user_id)
  pub others :
      (later : Time) (t : String)
      → t ≢ sid
      → get_active_session max_age later (some t) db'
        ≡ unless_of user_id (get_active_session max_age later (some t) db)
  pub app_sessions :
      (later : Time) (t : Option String)
      → get_active_app_session max_age later t db'
        ≡ unless (lost_by user_id none) (get_active_app_session max_age later t db)

fresh-sign_out :
    (now : Time) (user_id : ℕ) (sid : String) (db : Db)
    → find_session (some sid) db ≡ none
    → find_session (some sid) (sign_out_everywhere now user_id true db) ≡ none
unfolding find_session
fresh-sign_out now user_id sid db fresh =
    rw (sign_out_user_sessions now user_id true db)
      (find-revoke_all now user_id sid db ∙ rw fresh refl)

create-OnlyNew :
    (max_age : ℕ) (now : Time) (sid : String) (user_id : ℕ) (db : Db)
    → sid ≢ ""
    → find_session (some sid) db ≡ none
    → OnlyNew max_age now sid user_id db
        (create_session sid now user_id (sign_out_everywhere now user_id true db)).1
create-OnlyNew max_age now sid user_id db named fresh = record {
  session =
      get_active_session-create_session max_age now sid user_id _ named
        (fresh-sign_out now user_id sid db fresh);
  others = λ later t other.
      get_active_session-create_other max_age now later sid t user_id _ other
      ∙ (sign_out-SignedOut max_age now later user_id true db).sessions (some t);
  app_sessions = λ later t.
      unfold create_session in
      get_active_app_session_reads max_age later t _ (sign_out_everywhere now user_id true db) refl
      ∙ (sign_out-SignedOut max_age now later user_id true db).app_sessions t;
}

event-OnlyNew :
    (max_age : ℕ) (now : Time) (sid : String) (user_id : ℕ) (db db' : Db) (actor : Option User)
    (action : String)
    → OnlyNew max_age now sid user_id db db'
    → OnlyNew max_age now sid user_id db (record_event actor action db')
unfolding record_event
event-OnlyNew max_age now sid user_id db db' actor action o = record {
  session = get_active_session_reads max_age now (some sid) _ db' refl ∙ o.session;
  others = λ later t other.
      get_active_session_reads max_age later (some t) _ db' refl ∙ o.others later t other;
  app_sessions =
      λ later t. get_active_app_session_reads max_age later t _ db' refl ∙ o.app_sessions later t;
}

complaint_none :
    (fine : Bool) (message : String) (rest : List String)
    → complaint fine message ++ rest ≡ []
    → (fine ≡ true) × (rest ≡ [])
complaint_none true message rest e = (refl, e)
complaint_none false message rest e = absurd (cc)

no_first : (xs ys : List String) → xs ++ ys ≡ [] → (xs ≡ []) × (ys ≡ [])
no_first [] ys e = (refl, e)
no_first (x ∷ xs) ys e = absurd (cc)

append_nil : {xs : List String} → xs ≡ [] → xs ++ [] ≡ []
append_nil e = rw e refl

-- A password that may be set: long enough, within what the hash reads, and typed twice.
abbrev pub Chosen : String → String → Type 0
Chosen new_password confirm =
    (8 ≤ length (codes new_password))
    × (utf8_length (codes new_password) ≤ 72)
    × (new_password ≡ confirm)

validate_password-none :
    (password : String)
    → validate_password password ≡ []
    → (8 ≤ length (codes password)) × (utf8_length (codes password) ≤ 72)
unfolding validate_password
validate_password-none password e = elim (Bool-cases (ltb (length (codes password)) 8)) [
  | inl t ↦ absurd (cc (rw t at e))
  | inr t ↦ elim (Bool-cases (ltb 72 (utf8_length (codes password)))) [
    | inl k ↦ absurd (cc (rw k at (rw t at e)))
    | inr k ↦ (ground (arith, t), ground (arith, k))
  ]
]

module _ (verify_password : String → String → Bool) (hash_password : String → String) (max_age : ℕ)
    (now : Time) (sid : String) (account : User) (old_password new_password confirm : String)
    (db : Db) where
  changed-OnlyNew :
      sid ≢ ""
      → find_session (some sid) db ≡ none
      → OnlyNew max_age now sid account.id db
          (changed_password verify_password hash_password now sid account new_password [] db).1
  unfolding changed_password create_session find_session
  changed-OnlyNew named fresh =
      let db1 = rehashed hash_password account new_password db in
      let o =
        event-OnlyNew max_age now sid account.id db1 _ (some account) "profile.password.change"
          (create-OnlyNew max_age now sid account.id db1 named fresh) in
      record {
        session = o.session;
        others = λ later t other.
            o.others later t other
            ∙ ap (unless_of account.id)
                (get_active_session_reads max_age later (some t) db1 db refl);
        app_sessions = λ later t.
            o.app_sessions later t
            ∙ ap (unless (lost_by account.id none))
                (get_active_app_session_reads max_age later t db1 db refl);
      }

  changed-sid :
      (changed_password verify_password hash_password now sid account new_password [] db).0
      ≡ some sid
  unfolding changed_password create_session
  changed-sid = refl

  change_password_errors-checked :
      change_password_errors verify_password hash_password account old_password new_password confirm
        ≡ []
      → (verify_password old_password account.password_hash ≡ true) × Chosen new_password confirm
  unfolding change_password_errors
  change_password_errors-checked e =
      let (right, rest) =
        complaint_none (verify_password old_password account.password_hash) _ _ e in
      let (fine, last) = no_first (validate_password new_password) _ rest in
      let long = validate_password-none new_password fine in
      let same = complaint_none (new_password == confirm) _ [] (append_nil last) in
      (right, (long.0, long.1, (eq_iff new_password confirm).0 same.0))

  changed-users :
      (changed_password verify_password hash_password now sid account new_password [] db).1.users
      ≡ (rehashed hash_password account new_password db).users
  unfolding changed_password create_session record_event sign_out_everywhere
      claude_pwa_portal.Sessions.revoke_all_for_user
      claude_pwa_portal.AppSessions.revoke_all_app_sessions_for_user
      claude_pwa_portal.Credentials.delete_oauth_grants
      claude_pwa_portal.Credentials.delete_launch_tokens
  changed-users = refl

  -- A password change that is answered with a session had the account's old password, and a new one
  -- of at least 8 characters and at most 72 bytes that was given twice, whose hash the account then
  -- has; where the new id names no row yet, it then is the only portal session of the account that is
  -- active, no app session of the account is, and the sessions of others are as they were.
  pub profile_change_password-OnlyNew :
      {t : String} {db' : Db}
      → sid ≢ ""
      → find_session (some sid) db ≡ none
      → profile_change_password verify_password hash_password now sid account old_password
          new_password confirm db
        ≡ (some t, db')
      → (verify_password old_password account.password_hash ≡ true)
        × Chosen new_password confirm
        × (t ≡ sid)
        × (db'.users ≡ (rehashed hash_password account new_password db).users)
        × OnlyNew max_age now sid account.id db db'
  unfolding profile_change_password changed_password
  profile_change_password-OnlyNew {t} {db'} named fresh e =
      elim (List-cases (
        change_password_errors verify_password hash_password account old_password new_password
          confirm)) [
            | inr (error, errors, wrong) ↦ absurd (cc (rw (wrong, changed_password) at e))
            | inl right ↦ (
              (change_password_errors-checked right).0,
              (change_password_errors-checked right).1,
              cc (ap (λ r. r.0) (rw right at e), changed-sid),
              subst (λ d. d.users ≡ (rehashed hash_password account new_password db).users)
                  (ap (λ r. r.1) (rw right at e)) changed-users,
              subst (OnlyNew max_age now sid account.id db) (ap (λ r. r.1) (rw right at e))
                  (changed-OnlyNew named fresh),
            )
          ]

cascade-user_sessions :
    (now : Time) (found : Option UserSession) (db : Db)
    → (logout_cascade now found db).user_sessions ≡ db.user_sessions
unfolding logout_cascade revoke_all_app_sessions_for_user
cascade-user_sessions now none db = refl
cascade-user_sessions now (some row) db = refl

module _ (max_age : ℕ) (now : Time) (sid : String) (db : Db) where
  -- A logout closes the session of the cookie, for every later time; every other portal session is as
  -- it was.
  pub logout-closed :
      (later : Time) (t : String)
      → get_active_session max_age later (some t) (logout max_age now (some sid) db)
        ≡ (if sid == t then none else get_active_session max_age later (some t) db)
  unfolding logout record_event
  logout-closed later t =
      get_active_session_reads max_age later (some t) _
        (revoke_session now (some sid)
          (logout_cascade now (get_active_session max_age now (some sid) db) db))
        refl
      ∙ get_active_session-revoke_session max_age now later sid t _
      ∙ ap (λ row. if sid == t then none else row)
          (get_active_session_reads max_age later (some t) _ db
            (cascade-user_sessions now (get_active_session max_age now (some sid) db) db))

  pub logout-app_sessions :
      (row : UserSession) (later : Time) (t : Option String)
      → get_active_session max_age now (some sid) db ≡ some row
      → get_active_app_session max_age later t (logout max_age now (some sid) db)
        ≡ unless (lost_by row.user_id none) (get_active_app_session max_age later t db)
  unfolding logout record_event logout_cascade
  logout-app_sessions row later t active =
      get_active_app_session_reads max_age later t _
        (logout_cascade now (get_active_session max_age now (some sid) db) db)
        (revoke_session-app_sessions now (some sid) _)
      ∙ rw active (get_active-revoke_all max_age now later row.user_id t db)
