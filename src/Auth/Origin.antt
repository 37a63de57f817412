-- ===== src/Auth/Origin.antt =====
-- Which credential a request is identified by.
use claude_pwa_portal.Base.{
  ap, sym, ◌∙◌, ℕ, String, Text, Text-Eq, text_eq_iff, ◌≡◌, refl, Option, none, some, arith, ◌==◌,
  String-Eq, ℕ-Eq, nat_eq_iff,
}
use claude_pwa_portal.Base.Table.{first, first_sound}
use claude_pwa_portal.Models.{Time, User, ApiToken, UserSession, AppSession, Db}
use claude_pwa_portal.Sessions.{get_active_session}
use claude_pwa_portal.Sessions.Revocation.{get_active_session_reads}
use claude_pwa_portal.AppSessions.{get_active_app_session}
use claude_pwa_portal.Launch.{given_slug}
use claude_pwa_portal.Auth.{
  Credentials, AuthMethod, app_session, token, cookie, Identified, get_user, bearer_token,
  touch_api_token, owner_of_token, authenticate_bearer, from_session, current_user,
  from_app_session, from_bearer, current_user_or_token,
}

get_user-id : (user_id : ℕ) (db : Db) {u : User} → get_user user_id db ≡ some u → u.id ≡ user_id
unfolding get_user
get_user-id user_id db {u} e =
    (nat_eq_iff u.id user_id).0 (first_sound (λ r. r.id == user_id) db.users e)

-- The session, token or app session that a user was identified by, and that it is the user's.
pub data Source (hash : Text → String) (max_age : ℕ) (now : Time) (req : Credentials) (db : Db)
    (u : User) : Type 0 where
  by_app :
      (slug : Text) (row : AppSession)
      → given_slug req.app_slug ≡ some slug
      → get_active_app_session max_age now req.app_cookie db ≡ some row
      → row.slug ≡ slug
      → u.id ≡ row.user_id
      → Source hash max_age now req db u
  by_token :
      (raw : Text) (row : ApiToken)
      → given_slug req.app_slug ≡ none
      → bearer_token req.authorization ≡ some raw
      → first (λ r. r.token_hash == hash raw) db.api_tokens ≡ some row
      → u.id ≡ row.created_by
      → Source hash max_age now req db u
  by_cookie :
      (row : UserSession)
      → given_slug req.app_slug ≡ none
      → get_active_session max_age now req.session_id db ≡ some row
      → u.id ≡ row.user_id
      → Source hash max_age now req db u

-- The method that each source is marked with.
unfoldable pub method :
    {hash : Text → String} {max_age : ℕ} {now : Time} {req : Credentials} {db : Db} {u : User}
    → Source hash max_age now req db u
    → AuthMethod
method (by_app slug row a b c d) = app_session
method (by_token raw row a b c d) = token
method (by_cookie row a b c) = cookie

module _ (max_age : ℕ) (now : Time) where
  from_session-row :
      (found : Option UserSession) (db : Db) {u : User} {m : Option AuthMethod} {db' : Db}
      → from_session max_age now found db ≡ (some u, m, db')
      → (row : UserSession) × (found ≡ some row) × (u.id ≡ row.user_id) × (m ≡ some cookie)
  unfolding from_session
  from_session-row none db e = cc
  from_session-row (some row) db {u} e =
      (row, refl, get_user-id row.user_id _ (ap (λ (r : Identified). r.0) e), cc)

  from_app_session-row :
      (slug : Text) (found : Option AppSession) (db : Db) {u : User} {m : Option AuthMethod}
      {db' : Db}
      → from_app_session max_age now slug found db ≡ (some u, m, db')
      → (row : AppSession) × (found ≡ some row)
        × (row.slug ≡ slug)
        × (u.id ≡ row.user_id)
        × (m ≡ some app_session)
  unfolding from_app_session
  from_app_session-row slug none db e = cc
  from_app_session-row slug (some row) db {u} e = (
    row,
    refl,
    ground (arith, text_eq_iff row.slug slug),
    get_user-id row.user_id db {u = u} (ground arith),
    ground arith,
  )

module _ (hash : Text → String) (now : Time) where
  bearer-row :
      (raw : Text) (found : Option ApiToken) (db : Db) {u : User}
      → (owner_of_token now found db).0 ≡ some u
      → (row : ApiToken) × (found ≡ some row) × (u.id ≡ row.created_by)
  unfolding owner_of_token
  bearer-row raw none db e = cc
  bearer-row raw (some row) db e =
      (row, refl, get_user-id row.created_by (touch_api_token now row db) e)

  bearer-user_sessions :
      (found : Option ApiToken) (db : Db)
      → (owner_of_token now found db).1.user_sessions ≡ db.user_sessions
  unfolding owner_of_token
  bearer-user_sessions none db = refl
  bearer-user_sessions (some row) db = ground arith

module _ (hash : Text → String) (max_age : ℕ) (now : Time) (req : Credentials) (db : Db) where
  SourceOf : User → Option AuthMethod → Type 0
  SourceOf u m = (s : Source hash max_age now req db u) × (m ≡ some (method s))

  cookie-Source :
      (db2 : Db) {u : User} {m : Option AuthMethod} {db' : Db}
      → given_slug req.app_slug ≡ none
      → db2.user_sessions ≡ db.user_sessions
      → current_user max_age now req db2 ≡ (some u, m, db')
      → SourceOf u m
  unfolding SourceOf current_user method
  cookie-Source db2 no_slug same e =
      let r =
        from_session-row max_age now (get_active_session max_age now req.session_id db2) db2 e in
      (
        by_cookie r.0 no_slug
            (sym (get_active_session_reads max_age now req.session_id db2 db same) ∙ r.1) r.2,
        r.3,
      )

  bearer-Source :
      (raw : Text) (found : Option User) (db2 : Db) {u : User} {m : Option AuthMethod} {db' : Db}
      → given_slug req.app_slug ≡ none
      → bearer_token req.authorization ≡ some raw
      → owner_of_token now (first (λ r. r.token_hash == hash raw) db.api_tokens) db ≡ (found, db2)
      → from_bearer max_age now req (found, db2) ≡ (some u, m, db')
      → SourceOf u m
  unfolding SourceOf from_bearer method
  bearer-Source raw none db2 no_slug b o e =
      cookie-Source db2 no_slug
        (sym (ap (λ (r : Option User × Db). r.1.user_sessions) o)
          ∙ bearer-user_sessions hash now _ db)
        e
  bearer-Source raw (some owner) db2 {u} no_slug b o e =
      let r = bearer-row hash now raw _ db (ap (λ (r : Option User × Db). r.0) o) in
      (
        by_token raw r.0 no_slug b r.1
            (ap (λ (x : User). x.id) {x = u} {y = owner} (ground arith) ∙ r.2),
        ground arith,
      )

  off_app :
      (bearer : Option Text) {u : User} {m : Option AuthMethod} {db' : Db}
      → given_slug req.app_slug ≡ none
      → bearer_token req.authorization ≡ bearer
      → from_bearer max_age now req (authenticate_bearer hash now req.authorization db)
        ≡ (some u, m, db')
      → SourceOf u m
  unfolding from_bearer authenticate_bearer
  off_app none {u} {m} {db'} no_slug b e =
      cookie-Source db no_slug refl (rw (b, authenticate_bearer, from_bearer) at e)
  off_app (some raw) no_slug b e =
      bearer-Source raw
        (owner_of_token now (first (λ r. r.token_hash == hash raw) db.api_tokens) db).0
        (owner_of_token now (first (λ r. r.token_hash == hash raw) db.api_tokens) db).1 no_slug b
        refl (rw (b, authenticate_bearer, from_bearer) at e)

  on_host :
      (slug : Option Text) {u : User} {m : Option AuthMethod} {db' : Db}
      → given_slug req.app_slug ≡ slug
      → current_user_or_token max_age now hash req db ≡ (some u, m, db')
      → SourceOf u m
  unfolding SourceOf current_user_or_token method
  on_host none s e =
      off_app (bearer_token req.authorization) s refl (rw (s, current_user_or_token) at e)
  on_host (some slug) s e =
      let r =
        from_app_session-row max_age now slug (get_active_app_session max_age now req.app_cookie db)
          db (rw (s, current_user_or_token) at e) in
      (by_app slug r.0 s r.1 r.2 r.3, r.4)

  -- Whoever a request is taken for was identified by a live app session for the very app of the
  -- host, or off the hosts of apps by a stored API token or a live portal session, each of which
  -- is that user's; and the request is marked with the method that was used.
  pub current_user-Source :
      {u : User} {m : Option AuthMethod} {db' : Db}
      → current_user_or_token max_age now hash req db ≡ (some u, m, db')
      → (s : Source hash max_age now req db u) × (m ≡ some (method s))
  unfolding SourceOf
  current_user-Source e = on_host (given_slug req.app_slug) refl e
