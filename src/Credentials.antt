-- ===== src/Credentials.antt =====
-- portal/sessions.py, from "Revocation on admin action" on: what an administrator's action takes
-- from a user, over all the tables that hold credentials.
pub mod Cascade
use claude_pwa_portal.Base.{
  ℕ, ◌+◌, ◌*◌, Bool, true, false, Option, none, some, ltb, ◌==◌, ℕ-Eq, if◌then◌else◌,
}
use claude_pwa_portal.Base.Table.{delete, count}
use claude_pwa_portal.Models.{Time, seconds, Db}
use claude_pwa_portal.Sessions.{revoke_all_for_user}
use claude_pwa_portal.AppSessions.{revoke_all_app_sessions_for_user}

unfoldable pub delete_launch_tokens : ℕ → Db → Db
delete_launch_tokens user_id db = record db {
  launch_tokens = delete (λ r. r.user_id == user_id) db.launch_tokens;
}

unfoldable pub delete_oauth_grants : ℕ → Db → Db
delete_oauth_grants user_id db = record db {
  tokens = delete (λ r. r.user_id == user_id) db.tokens;
  codes = delete (λ r. r.user_id == user_id) db.codes;
}

unfoldable pub delete_api_tokens : ℕ → Db → Db
delete_api_tokens user_id db = record db {
  api_tokens = delete (λ r. r.created_by == user_id) db.api_tokens;
}

unfoldable pub sign_out_everywhere : Time → ℕ → Bool → Db → Db
unfolding delete_launch_tokens delete_oauth_grants delete_api_tokens
sign_out_everywhere now user_id keep_api_tokens db =
    let db1 = (revoke_all_for_user now user_id db).1 in
    let db2 = (revoke_all_app_sessions_for_user now user_id db1).1 in
    let db3 = delete_oauth_grants user_id (delete_launch_tokens user_id db2) in
    if keep_api_tokens then db3 else delete_api_tokens user_id db3

unfoldable pub revoke_admin_credentials : ℕ → Db → Db
unfolding delete_oauth_grants delete_api_tokens
revoke_admin_credentials user_id db = delete_oauth_grants user_id (delete_api_tokens user_id db)

unfoldable pub revoke_all_credentials_for_user : ℕ → Db → Db
unfolding delete_launch_tokens delete_oauth_grants delete_api_tokens
revoke_all_credentials_for_user user_id db =
    let db1 = delete_api_tokens user_id db in
    let db2 = record db1 {
      user_sessions = delete (λ r. r.user_id == user_id) db1.user_sessions;
      app_sessions = delete (λ r. r.user_id == user_id) db1.app_sessions;
    } in
    let db3 = delete_oauth_grants user_id (delete_launch_tokens user_id db2) in
    record db3 { schedules = delete (λ r. r.user_id == user_id) db3.schedules }

-- `created_at < now - timedelta(hours=max_age_hours)`
unfoldable pub purge_expired_launch_tokens : Time → ℕ → Db → ℕ × Db
purge_expired_launch_tokens now max_age_hours db = (
  count (λ r. ltb (r.created_at + seconds (max_age_hours * 3600)) now) db.launch_tokens,
  record db {
    launch_tokens =
        delete (λ r. ltb (r.created_at + seconds (max_age_hours * 3600)) now) db.launch_tokens;
  },
)
