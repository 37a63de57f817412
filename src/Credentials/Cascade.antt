-- ===== src/Credentials/Cascade.antt =====
-- What signing a user out and deleting a user's credentials leave in the database.
use claude_pwa_portal.Base.{
  ℕ, String, ◌≡◌, refl, Bool, true, false, not, Option, none, List, arith, ◌==◌, ℕ-Eq,
  if◌then◌else◌, ◌∙◌,
}
use claude_pwa_portal.Base.Table.{select, delete, All, All-delete-false, select-delete}
use claude_pwa_portal.Models.{Time, Db}
use claude_pwa_portal.Sessions.{revoke_all_for_user, get_active_session}
use claude_pwa_portal.Sessions.Revocation.{
  unless_of, get_active_session-revoke_all, get_active_session_reads,
}
use claude_pwa_portal.AppSessions.{revoke_all_app_sessions_for_user, get_active_app_session}
use claude_pwa_portal.AppSessions.Revocation.{
  unless, lost_by, get_active-revoke_all, get_active_app_session_reads,
}
use claude_pwa_portal.Credentials.{
  sign_out_everywhere, revoke_admin_credentials, revoke_all_credentials_for_user,
}

-- The rows of `after` are those of `before` that `owned` does not hold of.
pub record Sheds {A : Type 0} (owned : A → Bool) (before after : List A) : Type 0 where
  pub gone : All (λ x. owned x ≡ false) after
  pub kept : select (λ x. not (owned x)) after ≡ select (λ x. not (owned x)) before

delete-Sheds : {A : Type 0} (owned : A → Bool) (xs : List A) → Sheds owned xs (delete owned xs)
delete-Sheds owned xs = record {
  gone = All-delete-false owned xs;
  kept = select-delete (λ x. not (owned x)) owned (λ x h. ground arith) xs;
}

module _ (user_id : ℕ) (keep : Bool) (db : Db) where
  -- The tables whose rows are deleted.
  pub record Shed (db' : Db) : Type 0 where
    pub launches : Sheds (λ r. r.user_id == user_id) db.launch_tokens db'.launch_tokens
    pub grants : Sheds (λ r. r.user_id == user_id) db.tokens db'.tokens
    pub codes : Sheds (λ r. r.user_id == user_id) db.codes db'.codes
    pub api_tokens :
        if keep
        then db'.api_tokens ≡ db.api_tokens
        else Sheds (λ r. r.created_by == user_id) db.api_tokens db'.api_tokens

module _ (max_age : ℕ) (later : Time) (user_id : ℕ) (keep : Bool) (db : Db) where
  -- What is left of the user's sessions and grants when the user is signed out.
  pub record SignedOut (db' : Db) : Type 0 where
    pub sessions :
        (t : Option String)
        → get_active_session max_age later t db'
          ≡ unless_of user_id (get_active_session max_age later t db)
    pub app_sessions :
        (t : Option String)
        → get_active_app_session max_age later t db'
          ≡ unless (lost_by user_id none) (get_active_app_session max_age later t db)
    pub rows : Shed user_id keep db db'

module _ (now : Time) (user_id : ℕ) (keep : Bool) (db : Db) where
  pub sign_out_user_sessions :
      (sign_out_everywhere now user_id keep db).user_sessions
      ≡ (revoke_all_for_user now user_id db).1.user_sessions
  unfolding sign_out_everywhere revoke_all_app_sessions_for_user revoke_all_for_user
  sign_out_user_sessions = ground arith

  sign_out_app_sessions :
      (sign_out_everywhere now user_id keep db).app_sessions
      ≡ (revoke_all_app_sessions_for_user now user_id db).1.app_sessions
  unfolding sign_out_everywhere revoke_all_app_sessions_for_user revoke_all_for_user
  sign_out_app_sessions = ground arith

sign_out-Shed :
    (now : Time) (user_id : ℕ) (keep : Bool) (db : Db)
    → Shed user_id keep db (sign_out_everywhere now user_id keep db)
unfolding sign_out_everywhere revoke_all_for_user revoke_all_app_sessions_for_user
sign_out-Shed now user_id true db = record {
  launches = delete-Sheds _ db.launch_tokens;
  grants = delete-Sheds _ db.tokens;
  codes = delete-Sheds _ db.codes;
  api_tokens = refl;
}
sign_out-Shed now user_id false db = record {
  launches = delete-Sheds _ db.launch_tokens;
  grants = delete-Sheds _ db.tokens;
  codes = delete-Sheds _ db.codes;
  api_tokens = delete-Sheds _ db.api_tokens;
}

-- Signing a user out ends the user's portal sessions and app sessions, deletes the user's launch
-- tokens, OAuth tokens and OAuth codes, and deletes the user's API tokens unless they are kept.
-- The sessions and rows of other users are as they were.
pub sign_out-SignedOut :
    (max_age : ℕ) (now later : Time) (user_id : ℕ) (keep : Bool) (db : Db)
    → SignedOut max_age later user_id keep db (sign_out_everywhere now user_id keep db)
sign_out-SignedOut max_age now later user_id keep db = record {
  sessions = λ t.
      get_active_session_reads max_age later t _ _ (sign_out_user_sessions now user_id keep db)
      ∙ get_active_session-revoke_all max_age now later user_id t db;
  app_sessions = λ t.
      get_active_app_session_reads max_age later t _ _ (sign_out_app_sessions now user_id keep db)
      ∙ get_active-revoke_all max_age now later user_id t db;
  rows = sign_out-Shed now user_id keep db;
}

-- The rows of a user in every table that holds a credential or acts in the user's name.
pub record Deleted (user_id : ℕ) (db db' : Db) : Type 0 where
  pub api_tokens : Sheds (λ r. r.created_by == user_id) db.api_tokens db'.api_tokens
  pub user_sessions : Sheds (λ r. r.user_id == user_id) db.user_sessions db'.user_sessions
  pub app_sessions : Sheds (λ r. r.user_id == user_id) db.app_sessions db'.app_sessions
  pub launches : Sheds (λ r. r.user_id == user_id) db.launch_tokens db'.launch_tokens
  pub grants : Sheds (λ r. r.user_id == user_id) db.tokens db'.tokens
  pub codes : Sheds (λ r. r.user_id == user_id) db.codes db'.codes
  pub schedules : Sheds (λ r. r.user_id == user_id) db.schedules db'.schedules

-- The cascade of a user's deletion leaves no row of the user in the seven tables of credentials and
-- scheduled runs, and every other row.
pub revoke_all_credentials-Deleted :
    (user_id : ℕ) (db : Db) → Deleted user_id db (revoke_all_credentials_for_user user_id db)
unfolding revoke_all_credentials_for_user
revoke_all_credentials-Deleted user_id db = record {
  api_tokens = delete-Sheds _ db.api_tokens;
  user_sessions = delete-Sheds _ db.user_sessions;
  app_sessions = delete-Sheds _ db.app_sessions;
  launches = delete-Sheds _ db.launch_tokens;
  grants = delete-Sheds _ db.tokens;
  codes = delete-Sheds _ db.codes;
  schedules = delete-Sheds _ db.schedules;
}

-- Demoting an administrator deletes the API tokens and the OAuth grants, those of nobody else, and
-- leaves every session open.
pub revoke_admin-Shed :
    (user_id : ℕ) (db : Db)
    → Sheds
        (λ r. r.created_by == user_id)
        db.api_tokens
        (revoke_admin_credentials user_id db).api_tokens
      × Sheds (λ r. r.user_id == user_id) db.tokens (revoke_admin_credentials user_id db).tokens
      × Sheds (λ r. r.user_id == user_id) db.codes (revoke_admin_credentials user_id db).codes
      × ((revoke_admin_credentials user_id db).user_sessions ≡ db.user_sessions)
      × ((revoke_admin_credentials user_id db).app_sessions ≡ db.app_sessions)
unfolding revoke_admin_credentials
revoke_admin-Shed user_id db =
    (delete-Sheds _ db.api_tokens, delete-Sheds _ db.tokens, delete-Sheds _ db.codes, refl, refl)
