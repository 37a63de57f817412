-- ===== src/OAuth/Tokens/Rotation.antt =====
-- portal/oauth.py: claims of codes and refresh tokens, and what loads after a rotation or revocation.
use claude_pwa_portal.Base.{
  ap, sym, ◌∙◌, ℕ, String, Text, ◌≡◌, refl, Bool, true, false, Option, none, some, Result, ok, err,
  arith, ◌==◌, String-Eq, ℕ-Eq, is_none, List, inl, inr, Bool-cases,
}
use claude_pwa_portal.Base.Table.{
  first, update, delete, count, insert, updated, first-update, count-delete_none, count-update_none,
  count-append, first-append_found, first_sound,
}
use claude_pwa_portal.Models.{Time, OAuthToken, Db}
use claude_pwa_portal.Auth.{bearer_token}
use claude_pwa_portal.OAuth.Tokens.{
  AuthorizationCode, RefreshToken, TokenResponse, TokenError, code_already_used,
  refresh_token_not_found, has_refresh, live_refresh, live_either, has_access, has_code, revoke_row,
  claim_code, load_refresh, load_refresh_token, claim_refresh, rotate, exchange_refresh_token,
  live_access, access_token_of, load_access_token, revoke_token, owner_of, authenticate_oauth_token,
}

-- What a query for `p` finds after an update that revokes all open rows of `p` is revoked.
live_access-revoked :
    (later now : Time) (q : OAuthToken → Bool) (found : Option OAuthToken)
    → ((row : OAuthToken) → found ≡ some row → is_none row.revoked_at ≡ true → q row ≡ true)
    → live_access later (updated q (revoke_row now) found) ≡ none
unfolding live_access
live_access-revoked later now q none h = refl
live_access-revoked later now q (some row) h = ground (arith, h row refl)

module _ (hash : Text → String) where
  claim_code-codes :
      (now : Time) (access refresh : Text) (client_id : String) (user_id : ℕ)
      (code : AuthorizationCode) (db : Db)
      → (claim_code hash now access refresh client_id user_id code db).1.codes
        ≡ delete (has_code (hash code.code)) db.codes
  unfolding claim_code
  claim_code-codes now access refresh client_id user_id code db = ground arith

  claim_code-spent :
      (now : Time) (access refresh : Text) (client_id : String) (user_id : ℕ)
      (code : AuthorizationCode) (db : Db)
      → count (has_code (hash code.code)) db.codes ≡ 0
      → (claim_code hash now access refresh client_id user_id code db).0 ≡ err code_already_used
  unfolding claim_code
  claim_code-spent now access refresh client_id user_id code db e = rw e refl

  -- Of two requests that have both read an authorization code's row, whatever they claim it with,
  -- only the first to claim it can be given tokens: the second is refused.
  pub claim_code_once :
      (now later : Time) (access refresh access' refresh' : Text) (client_id client_id' : String)
      (user_id user_id' : ℕ) (code code' : AuthorizationCode) (db : Db)
      → code.code ≡ code'.code
      → (claim_code hash later access' refresh' client_id' user_id' code'
          (claim_code hash now access refresh client_id user_id code db).1).0
        ≡ err code_already_used
  claim_code_once now later access refresh access' refresh' client_id client_id' user_id user_id'
        code code' db same =
      claim_code-spent later access' refresh' client_id' user_id' code' _ (
        rw (claim_code-codes, same)
          (count-delete_none (has_code (hash code'.code)) (has_code (hash code'.code)) (λ x h. h)
            db.codes))

  module _ (now : Time) (access refresh : Text) (client_id : String) (user_id : ℕ)
      (resource : Option String) (scopes : List String) (token : RefreshToken) (db : Db) where
    claim_refresh-live :
        (hash refresh == hash token.token) ≡ false
        → count
            (live_refresh (hash token.token))
            (claim_refresh hash now access refresh client_id user_id resource scopes token
              db).1.tokens
          ≡ 0
    unfolding claim_refresh
    claim_refresh-live fresh =
        elim (Bool-cases (count (live_refresh (hash token.token)) db.tokens == 1)) [
          | inl one ↦ rw one (rw count-append (rw (fresh, revoked) (omega arith)))
          | inr other ↦ rw other revoked
        ]
      where
        revoked :
            count
              (live_refresh (hash token.token))
              (update (live_refresh (hash token.token)) (revoke_row now) db.tokens)
            ≡ 0
        revoked =
            count-update_none (live_refresh (hash token.token)) (revoke_row now) (λ x. ground arith)
              db.tokens

    claim_refresh-spent :
        count (live_refresh (hash token.token)) db.tokens ≡ 0
        → (claim_refresh hash now access refresh client_id user_id resource scopes token db).0
          ≡ err refresh_token_not_found
    unfolding claim_refresh
    claim_refresh-spent e = rw e refl

  -- Of two requests that have both read the row of a refresh token, only the first to claim it can
  -- be given a new pair: the second is refused, if the refresh token that `_gen` drew for the first
  -- does not have the digest of the old one.
  pub claim_refresh_once :
      (now later : Time) (access refresh access' refresh' : Text) (client_id client_id' : String)
      (user_id user_id' : ℕ) (resource resource' : Option String) (scopes scopes' : List String)
      (token token' : RefreshToken) (db : Db)
      → token.token ≡ token'.token
      → (hash refresh == hash token.token) ≡ false
      → (claim_refresh hash later access' refresh' client_id' user_id' resource' scopes' token'
          (claim_refresh hash now access refresh client_id user_id resource scopes token db).1).0
        ≡ err refresh_token_not_found
  claim_refresh_once now later access refresh access' refresh' client_id client_id' user_id user_id'
        resource resource' scopes scopes' token token' db same fresh =
      claim_refresh-spent later access' refresh' client_id' user_id' resource' scopes' token' _ (
        rw (← same)
          (claim_refresh-live now access refresh client_id user_id resource scopes token db fresh))

  module _ (now : Time) (access refresh : Text) (client_id : String) (scopes : List String)
      (token : RefreshToken) (db : Db) where
    -- A successful rotation: the open rows of the refresh token are revoked, and one row is added.
    abbrev Rotated : Db → Type 0
    Rotated db' =
        (row : OAuthToken) × (db'.tokens
          ≡ insert row (update (live_refresh (hash token.token)) (revoke_row now) db.tokens))

    claim_refresh-Rotated :
        (user_id : ℕ) (resource : Option String) {response : TokenResponse} {db' : Db}
        → claim_refresh hash now access refresh client_id user_id resource scopes token db
          ≡ (ok response, db')
        → Rotated db'
    unfolding claim_refresh
    claim_refresh-Rotated user_id resource e =
        elim (Bool-cases (count (live_refresh (hash token.token)) db.tokens == 1)) [
          | inl one ↦ (
            _,
            ap (λ (r : Result TokenError TokenResponse × Db). r.1.tokens)
                (sym (rw (one, claim_refresh) at e)),
          )
          | inr other ↦ absurd (cc ((rw (other, claim_refresh) at e)))
        ]

    rotate-Rotated :
        (found : Option OAuthToken) {response : TokenResponse} {db' : Db}
        → rotate hash now access refresh client_id token scopes found db ≡ (ok response, db')
        → Rotated db'
    unfolding rotate
    rotate-Rotated none e = absurd (cc)
    rotate-Rotated (some row) e = elim (Bool-cases (is_none row.revoked_at)) [
      | inl open_row ↦ claim_refresh-Rotated row.user_id row.resource (rw (open_row, rotate) at e)
      | inr closed ↦ absurd (cc (rw (closed, rotate) at e))
    ]

  -- A refreshed pair's access token stops working at once: at whatever time it is asked for, the access
  -- token whose row has the presented refresh token is refused after an exchange that gave a new pair.
  pub load_access-rotated :
      (now later : Time) (access refresh old : Text) (client_id : String) (scopes : List String)
      (token : RefreshToken) (row : OAuthToken) (db : Db)
      → first (has_access (hash old)) db.tokens ≡ some row
      → has_refresh (hash token.token) row ≡ true
      → {response : TokenResponse} {db' : Db}
      → exchange_refresh_token hash now access refresh client_id token scopes db
        ≡ (ok response, db')
      → load_access_token hash later old db' ≡ none
  unfolding exchange_refresh_token load_access_token access_token_of
  load_access-rotated now later access refresh old client_id scopes token row db f r e =
      let rotated =
        rotate-Rotated now access refresh client_id scopes token db
          (first (has_refresh (hash token.token)) db.tokens) e in
      rw rotated.1 (
        rw
          (first-append_found (has_access (hash old)) _ rotated.0 (
            first-update (has_access (hash old)) (live_refresh (hash token.token)) (revoke_row now)
              (λ x. refl) db.tokens
            ∙ ap (updated (live_refresh (hash token.token)) (revoke_row now)) f))
          (ground arith))

  module _ (now later : Time) (raw : Text) (db : Db) where
    find-revoked :
        (p : OAuthToken → Bool)
        → ((x : OAuthToken) → p (revoke_row now x) ≡ p x)
        → first p (update (live_either (hash raw)) (revoke_row now) db.tokens)
          ≡ updated (live_either (hash raw)) (revoke_row now) (first p db.tokens)
    find-revoked p keeps = first-update p (live_either (hash raw)) (revoke_row now) keeps db.tokens

    access-revoked :
        live_access later (first (has_access (hash raw)) (revoke_token hash now raw db).tokens)
        ≡ none
    unfolding revoke_token
    access-revoked = rw (find-revoked (has_access (hash raw)) (λ x. refl)) (
        live_access-revoked later now (live_either (hash raw)) _ (λ row f open_row.
          ground (arith, first_sound (has_access (hash raw)) db.tokens {x = row} f)))

    refresh-revoked :
        (client_id : String) (found : Option OAuthToken)
        → first (has_refresh (hash raw)) db.tokens ≡ found
        → load_refresh client_id raw (updated (live_either (hash raw)) (revoke_row now) found)
          ≡ none
    unfolding load_refresh
    refresh-revoked client_id none f = refl
    refresh-revoked client_id (some row) f =
        ground (arith, first_sound (has_refresh (hash raw)) db.tokens {x = row} f)

  -- A revoked token, be it given as access token or as refresh token, is of no use at any time: it
  -- does not load as the one or the other, for any client, and as a bearer it names no user.
  pub revoke_token-useless :
      (now later : Time) (raw : Text) (client_id : String) (header : Option Text) (db : Db)
      → bearer_token header ≡ some raw
      → (load_access_token hash later raw (revoke_token hash now raw db) ≡ none)
        × (load_refresh_token hash client_id raw (revoke_token hash now raw db) ≡ none)
        × (authenticate_oauth_token hash later header (revoke_token hash now raw db) ≡ none)
  revoke_token-useless now later raw client_id header db b = (by_access, by_refresh, by_header)
    where
      by_access : load_access_token hash later raw (revoke_token hash now raw db) ≡ none
      by_access = unfold load_access_token access_token_of in rw access-revoked refl

      by_refresh : load_refresh_token hash client_id raw (revoke_token hash now raw db) ≡ none
      by_refresh =
          unfold load_refresh_token revoke_token in
          rw (find-revoked now later raw db (has_refresh (hash raw)) (λ x. refl))
            (refresh-revoked now later raw db client_id _ refl)

      by_header : authenticate_oauth_token hash later header (revoke_token hash now raw db) ≡ none
      by_header =
          unfold authenticate_oauth_token owner_of in
          rw (b, authenticate_oauth_token) (rw access-revoked refl)
