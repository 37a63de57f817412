-- ===== src/Login.antt =====
-- portal/main.py, "Setup", "Login / logout" and "Self-serve profile": how a browser gets a session
-- and loses it. The CSRF check has passed. The session cookie is the `Optional` session id in it,
-- and an answer that signs in carries the new one. Parameters: the password hash with its check,
-- the e-mail validator, and the new session's id. `mono` is the monotonic clock in seconds.
pub mod Signed
pub mod Passwords
pub mod Setup
use claude_pwa_portal.Base.{
  ℕ, String, Text, Text-Eq, codes, Bool, true, false, not, ◌&&◌, ◌||◌, Option, none, some, List, [],
  ◌∷◌, ◌++◌, leb, ◌==◌, String-Eq, ℕ-Eq, if◌then◌else◌, is_none,
}
use claude_pwa_portal.Base.Chars.{strip, lower, take, starts_with, all_chars, chop_newline}
use claude_pwa_portal.Base.Table.{first, update, insert}
use claude_pwa_portal.Models.{Time, admin, User, UserSession, LoginAttempt, Db}
use claude_pwa_portal.Audit.{record_event}
use claude_pwa_portal.Security.{validate_password}
use claude_pwa_portal.Access.{is_admin_role, get_setting, set_setting}
use claude_pwa_portal.Auth.{get_user}
use claude_pwa_portal.Users.{has_user_id, insert_user}
use claude_pwa_portal.Sessions.{create_session, revoke_session, get_active_session}
use claude_pwa_portal.AppSessions.{revoke_all_app_sessions_for_user}
use claude_pwa_portal.Credentials.{sign_out_everywhere}
use claude_pwa_portal.Throttle.{LoginKey, Throttle, reserve_login_attempt, clear_login_failures}

unfoldable pub admin_exists : Db → Bool
admin_exists db = elim (get_setting "setup_complete" db) [
  | none ↦ not (is_none (first (λ u. is_admin_role u.role) db.users))
  | some cached ↦
      if cached == codes "true"
      then true
      else not (is_none (first (λ u. is_admin_role u.role) db.users))
]

-- `[A-Za-z0-9._~/?&=#%+\-]`
abbrev is_url_char : ℕ → Bool
is_url_char c =
    leb 65 c && leb c 90
    || leb 97 c && leb c 122
    || leb 47 c && leb c 57
    || leb 45 c && leb c 46
    || c == 95
    || c == 126
    || c == 63
    || c == 38
    || c == 61
    || c == 35
    || c == 37
    || c == 43

-- `_SAFE_NEXT_RE`, whose `$` also matches before a line break that ends the text
unfoldable pub matches_safe_next : Text → Bool
unfolding all_chars chop_newline
matches_safe_next [] = false
matches_safe_next (c ∷ s) = c == 47 && all_chars is_url_char (chop_newline s)

unfoldable pub safe_next : Text → Text
unfolding matches_safe_next starts_with
safe_next value =
    if matches_safe_next value && not (starts_with value (codes "//")) then value else codes "/"

-- portal/health.py, `record_login_attempt`
unfoldable pub record_login_attempt : Text → Bool → String → Db → Db
unfolding strip lower take
record_login_attempt email success reason db =
    let row : LoginAttempt = record {
      email = take 200 (lower (strip email));
      success = success;
      reason = reason;
    } in
    record db { login_attempts = insert row db.login_attempts }

-- `_MAX_EMAIL_INPUT`
abbrev pub max_email_input : ℕ
max_email_input = 254

-- `_login_key`, of the client's network
unfoldable pub login_key : Text → Text → LoginKey
unfolding strip lower take
login_key network email = record {
  network = network;
  email = take max_email_input (lower (strip email));
}

-- What the login page answers.
pub data LoginAnswer : Type 0 where
  rate_limited bad_credentials : LoginAnswer
  signed_in : String → Text → LoginAnswer

refuse_login : Text → String → Db → Db
unfolding record_login_attempt record_event
refuse_login email reason db =
    record_event none "login.failure" (record_login_attempt email false reason db)

-- The account whose password was given.
unfoldable pub check_credentials : (String → String → Bool) → Text → String → Db → Option User
check_credentials verify_password normalized password db =
    elim (first (λ u. codes u.email == normalized) db.users) [
      | none ↦ none
      | some account ↦ if verify_password password account.password_hash then some account else none
    ]

finish_login :
    Time
    → String
    → LoginKey
    → Text
    → Text
    → Option User
    → Db
    → Throttle
    → LoginAnswer × Db × Throttle
unfolding refuse_login record_login_attempt record_event clear_login_failures create_session
    safe_next
finish_login now sid key email next none db th =
    (bad_credentials, refuse_login email "bad_credentials" db, th)
finish_login now sid key email next (some account) db th =
    let db1 =
      record_event (some account) "login.success" (record_login_attempt email true "ok" db) in
    let (new_sid, db2) = create_session sid now account.id db1 in
    (signed_in new_sid (safe_next next), db2, clear_login_failures key th)

module _ (verify_password : String → String → Bool) where
  unfoldable pub login_submit :
      Time → ℕ → String → Text → Text → String → Text → Db → Throttle → LoginAnswer × Db × Throttle
  unfolding login_key check_credentials finish_login refuse_login reserve_login_attempt strip lower
      take
  login_submit now mono sid network given_email password next db th =
      let email = take max_email_input given_email in
      let key = login_key network email in
      let (admitted, th1) = reserve_login_attempt mono key th in
      if admitted
      then finish_login now sid key email next
          (check_credentials verify_password (lower (strip email)) password db) db th1
      else (rate_limited, refuse_login email "rate_limited" db, th1)

logout_actor : Option UserSession → Db → Option User
logout_actor none db = none
logout_actor (some session_row) db = get_user session_row.user_id db

logout_cascade : Time → Option UserSession → Db → Db
logout_cascade now none db = db
logout_cascade now (some session_row) db =
    (revoke_all_app_sessions_for_user now session_row.user_id db).1

unfoldable pub logout : ℕ → Time → Option String → Db → Db
unfolding logout_actor logout_cascade
logout max_age now sid db =
    let session_row = get_active_session max_age now sid db in
    let db1 = revoke_session now sid (logout_cascade now session_row db) in
    record_event (logout_actor session_row db) "login.logout" db1

-- `errors.append`, where the test fails
abbrev pub complaint : Bool → String → List String
complaint fine message = if fine then [] else message ∷ []

module _ (verify_password : String → String → Bool) (hash_password : String → String) where
  unfoldable pub change_password_errors : User → String → String → String → List String
  unfolding validate_password
  change_password_errors account old_password new_password new_password_confirm =
      complaint (verify_password old_password account.password_hash)
        "Current password is incorrect."
      ++ (validate_password new_password
          ++ complaint (new_password == new_password_confirm) "New passwords do not match.")

  changed_password : Time → String → User → String → List String → Db → Option String × Db
  changed_password now sid account new_password (error ∷ errors) db = (none, db)
  changed_password now sid account new_password [] db =
      let db1 = record db {
        users =
            update (has_user_id account.id)
              (λ u. record u { password_hash = hash_password new_password }) db.users;
      } in
      let (new_sid, db2) =
        create_session sid now account.id (sign_out_everywhere now account.id true db1) in
      (some new_sid, record_event (some account) "profile.password.change" db2)

  -- The new session's id, or none where the form shows errors.
  unfoldable pub profile_change_password :
      Time → String → User → String → String → String → Db → Option String × Db
  unfolding change_password_errors changed_password
  profile_change_password now sid account old_password new_password new_password_confirm db =
      changed_password now sid account new_password
        (change_password_errors account old_password new_password new_password_confirm) db

-- What the form of the first run answers.
pub data SetupAnswer : Type 0 where
  already_set_up integrity_error : SetupAnswer
  setup_errors : List String → SetupAnswer
  set_up : String → SetupAnswer

set_site_url : Text → Db → Db
set_site_url site_url db =
    if is_none (first (λ s. s.key == "site_url") db.settings)
    then record db { settings = insert (record { key = "site_url"; value = site_url }) db.settings }
    else record db {
      settings = update (λ s. s.key == "site_url") (λ s. record s { value = site_url }) db.settings;
    }

-- The unique index on the addresses refuses the commit of one that is there.
save_setup : Time → String → String → String → Text → Db → SetupAnswer × Db
unfolding set_site_url
save_setup now sid address password_hash site_url db =
    if not (is_none (first (λ u. u.email == address) db.users))
    then (integrity_error, db)
    else (let (row, db1) = insert_user address password_hash admin db in
        let db2 = set_setting "setup_complete" (codes "true") (set_site_url site_url db1) in
        let (new_sid, db3) = create_session sid now row.id db2 in
        (set_up new_sid, record_event (some row) "setup.complete" db3))

module _ (hash_password : String → String) (normalise_email : String → Option String) where
  unfoldable pub setup_form_errors : String → String → String → Text → List String
  unfolding validate_password strip
  setup_form_errors email password password_confirm site_url =
      complaint (not (is_none (normalise_email email))) "Please enter a valid email address."
      ++ (validate_password password
          ++ (complaint (password == password_confirm) "Passwords do not match."
              ++ complaint (not (strip site_url == [])) "Site URL is required."))

  checked_setup :
      Time → String → String → String → Text → Option String → List String → Db → SetupAnswer × Db
  unfolding save_setup strip
  checked_setup now sid email password site_url address (error ∷ errors) db =
      (setup_errors (error ∷ errors), db)
  checked_setup now sid email password site_url none [] db =
      save_setup now sid email (hash_password password) (strip site_url) db
  checked_setup now sid email password site_url (some address) [] db =
      save_setup now sid address (hash_password password) (strip site_url) db

  -- `_complete_setup`, under its lock
  unfoldable pub complete_setup :
      Time → String → String → String → String → Text → Db → SetupAnswer × Db
  unfolding admin_exists checked_setup setup_form_errors
  complete_setup now sid email password password_confirm site_url db =
      if admin_exists db
      then (already_set_up, db)
      else checked_setup now sid email password site_url (normalise_email email)
          (setup_form_errors email password password_confirm site_url) db
