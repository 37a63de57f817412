-- ===== src/OAuth/Tokens.antt =====
-- portal/oauth.py, the provider's codes and tokens. `hash` is `_hash`, the digest of SHA-256; the
-- tokens that `_gen` draws are arguments, and so is what `_utcnow` returns. An exchange reads its row
-- and then claims it by a conditional statement: the two are functions of their own, since another
-- request may run between them.
pub mod Rotation
use claude_pwa_portal.Base.{
  ℕ, ◌+◌, ◌*◌, ◌/◌, String, Text, Bool, true, false, not, ◌&&◌, ◌||◌, Option, none, some, Result,
  ok, err, ltb, ◌==◌, String-Eq, ℕ-Eq, if◌then◌else◌, is_none, List, [], ◌∷◌,
}
use claude_pwa_portal.Base.Table.{first, update, delete, count, insert}
use claude_pwa_portal.Models.{Time, seconds, User, OAuthCode, OAuthToken, Db}
use claude_pwa_portal.Auth.{get_user, bearer_token}

-- `ACCESS_TTL` and `REFRESH_TTL`
abbrev pub access_ttl : Time
access_ttl = seconds 3600

abbrev pub refresh_ttl : Time
refresh_ttl = seconds (30 * 86400)

-- `scopes or [SCOPE]`
abbrev pub or_scope : List String → List String
or_scope [] = "mcp" ∷ []
or_scope (scope ∷ scopes) = scope ∷ scopes

-- `scopes or refresh_token.scopes`
abbrev pub scopes_or : List String → List String → List String
scopes_or [] others = others
scopes_or (scope ∷ scopes) others = scope ∷ scopes

-- The objects of the SDK that the provider hands over and takes back. A POSIX time is in seconds.
pub record AuthorizationCode : Type 0 where
  pub code : Text
  pub scopes : List String
  pub expires_at : Time
  pub client_id : String
  pub code_challenge : String
  pub redirect_uri : String
  pub redirect_uri_provided_explicitly : Bool
  pub resource : Option String

pub record RefreshToken : Type 0 where
  pub token : Text
  pub client_id : String
  pub scopes : List String
  pub expires_at : Option ℕ

pub record AccessToken : Type 0 where
  pub token : Text
  pub client_id : String
  pub scopes : List String
  pub expires_at : Option ℕ
  pub resource : Option String

pub record TokenResponse : Type 0 where
  pub access_token : Text
  pub refresh_token : Text
  pub expires_in : ℕ
  pub scope : List String

-- `TokenError("invalid_grant", …)`
pub data TokenError : Type 0 where
  code_already_used refresh_token_not_found : TokenError

-- `int(exp.timestamp()) if exp else None`
abbrev timestamp : Option Time → Option ℕ
timestamp none = none
timestamp (some t) = some (t / 1000000)

abbrev Outcome : Type 0
Outcome = Result TokenError TokenResponse × Db

-- `WHERE refresh_token_hash = …`
abbrev pub has_refresh : String → OAuthToken → Bool
has_refresh h row = elim row.refresh_token_hash [ none ↦ false | some r ↦ r == h ]

-- `WHERE refresh_token_hash = … AND revoked_at IS NULL`
abbrev pub live_refresh : String → OAuthToken → Bool
live_refresh h row = has_refresh h row && is_none row.revoked_at

-- `WHERE access_token_hash = …`
abbrev pub has_access : String → OAuthToken → Bool
has_access h row = row.access_token_hash == h

-- `WHERE (access_token_hash = … OR refresh_token_hash = …) AND revoked_at IS NULL`
abbrev pub live_either : String → OAuthToken → Bool
live_either h row = (has_access h row || has_refresh h row) && is_none row.revoked_at

-- `WHERE code_hash = …`
abbrev pub has_code : String → OAuthCode → Bool
has_code h row = row.code_hash == h

abbrev pub revoke_row : Time → OAuthToken → OAuthToken
revoke_row now row = record row { revoked_at = some now }

load_code : String → Text → Option OAuthCode → Option AuthorizationCode
load_code client_id raw none = none
load_code client_id raw (some row) =
    if not (row.client_id == client_id)
    then none
    else some (record {
      code = raw;
      scopes = row.scope;
      expires_at = row.expires_at;
      client_id = row.client_id;
      code_challenge = row.code_challenge;
      redirect_uri = row.redirect_uri;
      redirect_uri_provided_explicitly = row.redirect_uri_provided_explicitly;
      resource = row.resource;
    })

load_refresh : String → Text → Option OAuthToken → Option RefreshToken
load_refresh client_id raw none = none
load_refresh client_id raw (some row) =
    if not (is_none row.revoked_at) || not (row.client_id == client_id)
    then none
    else some (record {
      token = raw;
      client_id = row.client_id;
      scopes = row.scope;
      expires_at = timestamp row.refresh_expires_at;
    })

-- `row is None or row.revoked_at is not None`, `exp < _utcnow()`
unfoldable pub live_access : Time → Option OAuthToken → Option OAuthToken
live_access now none = none
live_access now (some row) =
    if not (is_none row.revoked_at) || ltb row.access_expires_at now then none else some row

access_token_of : Text → Option OAuthToken → Option AccessToken
access_token_of raw none = none
access_token_of raw (some row) = some (record {
  token = raw;
  client_id = row.client_id;
  scopes = row.scope;
  expires_at = timestamp (some row.access_expires_at);
  resource = row.resource;
})

owner_of : Option OAuthToken → Db → Option User
unfolding get_user
owner_of none db = none
owner_of (some row) db = get_user row.user_id db

module _ (hash : Text → String) where
  unfoldable pub load_authorization_code : String → Text → Db → Option AuthorizationCode
  unfolding load_code
  load_authorization_code client_id raw db =
      load_code client_id raw (first (has_code (hash raw)) db.codes)

  -- `_issue`
  unfoldable pub issue :
      Time → Text → Text → String → ℕ → List String → Option String → Db → TokenResponse × Db
  issue now access refresh client_id user_id scopes resource db =
      let row : OAuthToken = record {
        access_token_hash = hash access;
        refresh_token_hash = some (hash refresh);
        client_id = client_id;
        user_id = user_id;
        scope = or_scope scopes;
        resource = resource;
        access_expires_at = now + access_ttl;
        refresh_expires_at = some (now + refresh_ttl);
        revoked_at = none;
      } in
      let response : TokenResponse = record {
        access_token = access;
        refresh_token = refresh;
        expires_in = access_ttl / 1000000;
        scope = or_scope scopes;
      } in
      (response, record db { tokens = insert row db.tokens })

  -- `DELETE … WHERE code_hash = …`, and a pair of tokens if that removed one row.
  unfoldable pub claim_code :
      Time
      → Text
      → Text
      → String
      → ℕ
      → AuthorizationCode
      → Db
      → Result TokenError TokenResponse × Db
  unfolding issue
  claim_code now access refresh client_id user_id auth_code db =
      let db' : Db = record db { codes = delete (has_code (hash auth_code.code)) db.codes } in
      if not (count (has_code (hash auth_code.code)) db.codes == 1)
      then (err code_already_used, db')
      else (let (response, db'') =
            issue now access refresh client_id user_id auth_code.scopes auth_code.resource db' in
          (ok response, db''))

  unfoldable pub exchange_authorization_code :
      Time → Text → Text → String → AuthorizationCode → Db → Result TokenError TokenResponse × Db
  unfolding claim_code
  exchange_authorization_code now access refresh client_id auth_code db =
      elim (first (has_code (hash auth_code.code)) db.codes) [
        | none ↦ (err code_already_used, db)
        | some row ↦ claim_code now access refresh client_id row.user_id auth_code db
      ]

  unfoldable pub load_refresh_token : String → Text → Db → Option RefreshToken
  unfolding load_refresh
  load_refresh_token client_id raw db =
      load_refresh client_id raw (first (has_refresh (hash raw)) db.tokens)

  -- `UPDATE … SET revoked_at WHERE refresh_token_hash = … AND revoked_at IS NULL`, and a new pair of
  -- tokens if that touched one row.
  unfoldable pub claim_refresh :
      Time
      → Text
      → Text
      → String
      → ℕ
      → Option String
      → List String
      → RefreshToken
      → Db
      → Result TokenError TokenResponse × Db
  unfolding issue
  claim_refresh now access refresh client_id user_id resource scopes token db =
      let db' : Db = record db {
        tokens = update (live_refresh (hash token.token)) (revoke_row now) db.tokens;
      } in
      if not (count (live_refresh (hash token.token)) db.tokens == 1)
      then (err refresh_token_not_found, db')
      else (let (response, db'') =
            issue now access refresh client_id user_id (scopes_or scopes token.scopes) resource
              db' in
          (ok response, db''))

  rotate :
      Time → Text → Text → String → RefreshToken → List String → Option OAuthToken → Db → Outcome
  unfolding claim_refresh
  rotate now access refresh client_id token scopes none db = (err refresh_token_not_found, db)
  rotate now access refresh client_id token scopes (some row) db =
      if not (is_none row.revoked_at)
      then (err refresh_token_not_found, db)
      else claim_refresh now access refresh client_id row.user_id row.resource scopes token db

  unfoldable pub exchange_refresh_token :
      Time
      → Text
      → Text
      → String
      → RefreshToken
      → List String
      → Db
      → Result TokenError TokenResponse × Db
  unfolding rotate
  exchange_refresh_token now access refresh client_id token scopes db =
      rotate now access refresh client_id token scopes
        (first (has_refresh (hash token.token)) db.tokens) db

  unfoldable pub load_access_token : Time → Text → Db → Option AccessToken
  unfolding live_access access_token_of
  load_access_token now raw db =
      access_token_of raw (live_access now (first (has_access (hash raw)) db.tokens))

  unfoldable pub revoke_token : Time → Text → Db → Db
  revoke_token now raw db = record db {
    tokens = update (live_either (hash raw)) (revoke_row now) db.tokens;
  }

  unfoldable pub authenticate_oauth_token : Time → Option Text → Db → Option User
  unfolding live_access owner_of
  authenticate_oauth_token now authorization db = elim (bearer_token authorization) [
    | none ↦ none
    | some raw ↦ owner_of (live_access now (first (has_access (hash raw)) db.tokens)) db
  ]
