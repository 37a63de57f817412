-- ===== src/OAuth/Consent.antt =====
-- portal/oauth.py, `consent_form` and `consent_submit`: the page on which an administrator answers a
-- parked request, and the answer. `urlsplit` is that of Security.antt, `construct_redirect_uri` the
-- SDK's function, `raw_code` what `_gen` draws, and `expected` the CSRF token of the session.
pub mod Approval
use claude_pwa_portal.Base.{
  ◌+◌, String, Text, codes, Bool, true, false, not, Option, none, some, List, [], ◌∷◌, ◌++◌, ltb,
  ◌==◌, String-Eq, if◌then◌else◌, is_none,
}
use claude_pwa_portal.Base.Table.{first, delete, insert}
use claude_pwa_portal.Models.{Time, seconds, User, OAuthCode, OAuthPendingAuthorization, Db}
use claude_pwa_portal.Audit.{record_event}
use claude_pwa_portal.Auth.{is_admin}
use claude_pwa_portal.Security.{UrlParts, check_csrf, is_allowed_redirect_uri}
use claude_pwa_portal.Sessions.{given}
use claude_pwa_portal.OAuth.Tokens.{or_scope}

-- `CODE_TTL`
abbrev pub code_ttl : Time
code_ttl = seconds 60

-- The pages and redirects that the two handlers answer with.
pub data Response : Type 0 where
  not_found csrf_failed request_expired admin_only unsafe_redirect : Response
  login_redirect : String → Response
  consent_page : OAuthPendingAuthorization → Response
  client_redirect : String → Response

-- `WHERE txn = …`
abbrev pub has_txn : String → OAuthPendingAuthorization → Bool
has_txn txn row = row.txn == txn

unfoldable pub drop_pending : OAuthPendingAuthorization → Db → Db
drop_pending row db = record db { pendings = delete (has_txn row.txn) db.pendings }

-- The parameters that go back to the client, with `state` if there was one.
abbrev pub with_state : Option String → List (String × String) → List (String × String)
with_state state params = elim (given state) [
  | none ↦ params
  | some s ↦ params ++ (("state", s) ∷ [])
]

-- The code of an approval, bound to the administrator.
unfoldable pub mint : (Text → String) → Time → String → User → OAuthPendingAuthorization → OAuthCode
mint hash now raw_code me pending = record {
  code_hash = hash (codes raw_code);
  client_id = pending.client_id;
  user_id = me.id;
  redirect_uri = pending.redirect_uri;
  redirect_uri_provided_explicitly = pending.redirect_uri_provided_explicitly;
  code_challenge = pending.code_challenge;
  scope = or_scope pending.scope;
  resource = pending.resource;
  expires_at = now + code_ttl;
}

module _ (urlsplit : String → Option UrlParts)
    (construct_redirect_uri : String → List (String × String) → String) where
  -- `_client_redirect`
  to_client : String → Response
  to_client url =
      if not (is_allowed_redirect_uri urlsplit url) then unsafe_redirect else client_redirect url

  show_pending : Time → User → Option OAuthPendingAuthorization → Response
  show_pending now me none = request_expired
  show_pending now me (some pending) =
      if ltb pending.expires_at now
      then request_expired
      else if not (is_admin me)
      then admin_only
      else if not (is_allowed_redirect_uri urlsplit pending.redirect_uri)
      then unsafe_redirect
      else consent_page pending

  unfoldable pub consent_form : Time → Option Text → Option User → String → Db → Response
  unfolding show_pending
  consent_form now app_slug none txn db =
      if not (is_none app_slug) then not_found else login_redirect txn
  consent_form now app_slug (some me) txn db =
      if not (is_none app_slug)
      then not_found
      else show_pending now me (first (has_txn txn) db.pendings)

  deny : User → OAuthPendingAuthorization → Db → Response × Db
  unfolding to_client drop_pending record_event
  deny me pending db = (
    to_client (
        construct_redirect_uri pending.redirect_uri
          (with_state pending.state (("error", "access_denied") ∷ []))),
    record_event (some me) "oauth.deny" (drop_pending pending db),
  )

  module _ (hash : Text → String) where
    approve : Time → String → User → OAuthPendingAuthorization → Db → Response × Db
    unfolding mint to_client drop_pending record_event
    approve now raw_code me pending db = (
      to_client (
          construct_redirect_uri pending.redirect_uri
            (with_state pending.state (("code", raw_code) ∷ []))),
      record_event (some me) "oauth.authorize" (
          drop_pending pending
            (record db { codes = insert (mint hash now raw_code me pending) db.codes })),
    )

    answer : Time → String → User → String → Option OAuthPendingAuthorization → Db → Response × Db
    unfolding deny approve drop_pending
    answer now raw_code me decision none db = (request_expired, db)
    answer now raw_code me decision (some pending) db =
        if ltb pending.expires_at now
        then (request_expired, db)
        else if not (is_admin me)
        then (admin_only, db)
        else if not (is_allowed_redirect_uri urlsplit pending.redirect_uri)
        then (unsafe_redirect, drop_pending pending db)
        else if not (decision == "approve")
        then deny me pending db
        else approve now raw_code me pending db

    unfoldable pub consent_submit :
        Time
        → String
        → Option Text
        → Option User
        → Option String
        → String
        → String
        → String
        → Db
        → Response × Db
    unfolding answer
    consent_submit now raw_code app_slug none expected txn decision csrf db =
        if not (is_none app_slug) then (not_found, db) else (login_redirect txn, db)
    consent_submit now raw_code app_slug (some me) expected txn decision csrf db =
        if not (is_none app_slug)
        then (not_found, db)
        else if not (check_csrf expected csrf)
        then (csrf_failed, db)
        else answer now raw_code me decision (first (has_txn txn) db.pendings) db
