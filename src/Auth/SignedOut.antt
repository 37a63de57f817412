-- ===== src/Auth/SignedOut.antt =====
-- portal/deps.py and portal/sessions.py: requests after a user was signed out everywhere.
use claude_pwa_portal.Base.{
  ap, sym, ◌∙◌, ℕ, String, Text, ◌≡◌, refl, Bool, true, false, Option, none, some, arith, ◌==◌,
  ℕ-Eq, String-Eq,
}
use claude_pwa_portal.Base.Table.{first-All}
use claude_pwa_portal.Models.{Time, User, UserSession, AppSession, Db}
use claude_pwa_portal.Sessions.Revocation.{unless_of}
use claude_pwa_portal.AppSessions.Revocation.{unless, lost_by}
use claude_pwa_portal.Credentials.{sign_out_everywhere}
use claude_pwa_portal.Credentials.Cascade.{SignedOut, sign_out-SignedOut}
use claude_pwa_portal.Auth.{Credentials, AuthMethod, token, current_user_or_token}
use claude_pwa_portal.Auth.Origin.{Source, by_app, by_token, by_cookie, method, current_user-Source}

unless-some :
    (ended : AppSession → Bool) (o : Option AppSession) {row : AppSession}
    → unless ended o ≡ some row
    → ended row ≡ false
unless-some ended none e = cc
unless-some ended (some x) {row} e = ground arith

unless_of-some :
    (user_id : ℕ) (o : Option UserSession) {row : UserSession}
    → unless_of user_id o ≡ some row
    → (row.user_id == user_id) ≡ false
unless_of-some user_id none e = cc
unless_of-some user_id (some x) {row} e = ground arith

not_owner : (a user_id : ℕ) {id : ℕ} → (a == user_id) ≡ false → id ≡ a → id ≡ user_id → ⊥
not_owner a user_id h e f = ground arith

-- The only credential of a signed-out user that a request can be identified by is an API token that
-- was kept.
kept_token :
    (hash : Text → String) (max_age : ℕ) (later : Time) (req : Credentials) (user_id : ℕ)
    (keep : Bool) (db db' : Db) {u : User}
    → SignedOut max_age later user_id keep db db'
    → (s : Source hash max_age later req db' u) → u.id ≡ user_id
    → (keep ≡ true) × (method s ≡ token)
unfolding method
kept_token hash max_age later req user_id keep db db' out (by_app slug row a found c owner) own =
    absurd (
      not_owner row.user_id user_id
        (unless-some (lost_by user_id none) _ (sym (out.app_sessions req.app_cookie) ∙ found)) owner
        own)
kept_token hash max_age later req user_id keep db db' out (by_cookie row a found owner) own =
    absurd (
      not_owner row.user_id user_id
        (unless_of-some user_id _ (sym (out.sessions req.session_id) ∙ found)) owner own)
kept_token hash max_age later req user_id true db db' out (by_token raw row a b found owner) own =
    (refl, refl)
kept_token hash max_age later req user_id false db db' out (by_token raw row a b found owner) own =
    absurd (
      not_owner row.created_by user_id
        (first-All (λ r. (r.created_by == user_id) ≡ false) (λ r. r.token_hash == hash raw)
          db'.api_tokens out.rows.api_tokens.gone found)
        owner own)

-- After a user was signed out everywhere, no request at any time, with any cookies and header, is
-- taken for that user, except by an API token, if those were kept.
pub signed_out_everywhere :
    (hash : Text → String) (max_age : ℕ) (now later : Time) (req : Credentials) (user_id : ℕ)
    (keep : Bool) (db : Db) {u : User} {m : Option AuthMethod} {db' : Db}
    → current_user_or_token max_age later hash req (sign_out_everywhere now user_id keep db)
      ≡ (some u, m, db')
    → u.id ≡ user_id
    → (keep ≡ true) × (m ≡ some token)
signed_out_everywhere hash max_age now later req user_id keep db e own =
    let s =
      current_user-Source hash max_age later req (sign_out_everywhere now user_id keep db) e in
    let k =
      kept_token hash max_age later req user_id keep db _
        (sign_out-SignedOut max_age now later user_id keep db) s.0 own in
    (k.0, s.1 ∙ ap some k.1)
