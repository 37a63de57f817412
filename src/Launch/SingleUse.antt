-- ===== src/Launch/SingleUse.antt =====
-- portal/api.py, `session_exchange`: the token, the session it opens, and a second exchange.
use mathlib.Core.Path.{subst}
use claude_pwa_portal.Base.{
  ◌≤◌, String, Text, Text-Eq, text_eq_iff, ◌≡◌, ◌≢◌, refl, Option, none, some, ok, err, arith, ◌==◌,
  String-Eq, ℕ-Eq, [], ◌∷◌, text_eq,
}
use claude_pwa_portal.Base.Table.{
  first, update, count, insert, updated, first-update, count-update_none, update-count_none,
  first-count_one, count_mono, count_pos_of_first, first_sound,
}
use claude_pwa_portal.Models.{Time, User, AppLaunchToken, Db}
use claude_pwa_portal.AppSessions.{create_app_session}
use claude_pwa_portal.Launch.{
  Refusal, invalid_token, has_token, unclaimed, consume, exchange_on, check_claimed, open_session,
  session_exchange,
}

-- An exchange leaves no row of its token to claim.
exchange_on-claims :
    (now : Time) (sid : String) (slug : Text) (token : String) (db : Db)
    → (exchange_on now sid slug token db).1.launch_tokens
      ≡ update (unclaimed token) (consume now) db.launch_tokens
unfolding exchange_on check_claimed open_session create_app_session
exchange_on-claims now sid slug token db = ground arith

exchange_on-claimed :
    (now : Time) (sid : String) (slug : Text) (token : String) (db : Db)
    → count (unclaimed token) db.launch_tokens ≡ 0
    → exchange_on now sid slug token db ≡ (err invalid_token, db)
unfolding exchange_on
exchange_on-claimed now sid slug token db e =
    rw (e, update-count_none (unclaimed token) (consume now) db.launch_tokens e) refl

session_exchange-on :
    (now : Time) (sid : String) (slug : Text) (token : String) (db : Db)
    → slug ≢ []
    → session_exchange now sid (some slug) token db ≡ exchange_on now sid slug token db
unfolding session_exchange
session_exchange-on now sid [] token db h = absurd (h refl)
session_exchange-on now sid (c ∷ slug) token db h = unfold text_eq in refl

-- Once a request on an app's subdomain has presented a launch token, whatever came of it, every
-- later exchange of that token is refused and changes nothing.
pub session_exchange_once :
    (now later : Time) (sid sid' : String) (slug slug' : Text) (token : String) (db : Db)
    → slug ≢ []
    → slug' ≢ []
    → session_exchange later sid'
        (some slug')
        token
        (session_exchange now sid (some slug) token db).1
      ≡ (err invalid_token, (session_exchange now sid (some slug) token db).1)
session_exchange_once now later sid sid' slug slug' token db h h' =
    rw
      (session_exchange-on now sid slug token db h, session_exchange-on later sid' slug' token _ h')
      (exchange_on-claimed later sid' slug' token _ (
        rw exchange_on-claims
          (count-update_none (unclaimed token) (consume now) (λ x. ground arith) db.launch_tokens)))

-- What the database held and holds when an exchange succeeds.
pub record Minted (now : Time) (sid : String) (slug : Text) (token : String) (db db' : Db)
    : Type 0 where
  pub launch : AppLaunchToken
  pub found : first (has_token token) db.launch_tokens ≡ some launch
  pub unused : launch.consumed_at ≡ none
  pub in_time : now ≤ launch.expires_at
  pub for_app : launch.slug ≡ slug
  pub owner : User
  pub owned : first (λ u. u.id == launch.user_id) db.users ≡ some owner
  pub opened :
      db'.app_sessions
      ≡ insert
          (record {
            id = sid;
            user_id = launch.user_id;
            slug = slug;
            created_at = now;
            last_seen_at = now;
            revoked_at = none;
          })
          db.app_sessions

module _ (now : Time) (sid : String) (slug : Text) (token : String) where
  claim_first :
      (db : Db)
      → first (has_token token) (update (unclaimed token) (consume now) db.launch_tokens)
        ≡ updated (unclaimed token) (consume now) (first (has_token token) db.launch_tokens)
  claim_first db =
      first-update (has_token token) (unclaimed token) (consume now) (λ x. refl) db.launch_tokens

  -- With one row at most for a token, the row that a claim finds was unclaimed.
  claimed-unused :
      (db : Db)
      → count (has_token token) db.launch_tokens ≤ 1
      → count (unclaimed token) db.launch_tokens ≡ 1
      → {launch : AppLaunchToken} → first (has_token token) db.launch_tokens ≡ some launch
      → launch.consumed_at ≡ none
  claimed-unused db unique one {launch} e = ground (
    arith,
    first_sound (unclaimed token) db.launch_tokens {x = launch},
    first-count_one (unclaimed token) (has_token token) (λ x h. ground arith) db.launch_tokens
        unique,
  )

  claimed-Minted :
      (db : Db) (launch : AppLaunchToken) (user : Option User) {cookie : String} {db' : Db}
      → first (has_token token) db.launch_tokens ≡ some launch
      → first (λ u. u.id == launch.user_id) db.users ≡ user
      → (count (unclaimed token) db.launch_tokens ≡ 1 → launch.consumed_at ≡ none)
      → exchange_on now sid slug token db ≡ (ok cookie, db')
      → Minted now sid slug token db db'
  unfolding exchange_on check_claimed open_session create_app_session
  claimed-Minted db launch none f u fresh e = absurd (ground (arith, claim_first db))
  claimed-Minted db launch (some owner) f u fresh e = record {
    launch = launch;
    found = f;
    unused = ground (arith, claim_first db);
    in_time = ground (arith, claim_first db);
    for_app = ground (arith, claim_first db, text_eq_iff launch.slug slug);
    owner = owner;
    owned = u;
    opened = ground (arith, claim_first db);
  }

  exchange_on-Minted :
      (db : Db) (found : Option AppLaunchToken) {cookie : String} {db' : Db}
      → count (has_token token) db.launch_tokens ≤ 1
      → first (has_token token) db.launch_tokens ≡ found
      → exchange_on now sid slug token db ≡ (ok cookie, db')
      → Minted now sid slug token db db'
  unfolding exchange_on check_claimed
  exchange_on-Minted db none unique f e = absurd (ground (arith, claim_first db))
  exchange_on-Minted db (some launch) unique f e =
      claimed-Minted db launch _ f refl (λ one. claimed-unused db unique one f) e

-- Where an exchange on an app's subdomain succeeds, for a token that at most one row has, the row was
-- unused, unexpired, minted for this very subdomain's app and for a user that exists, and exactly one
-- app session, of that user in that app, is opened.
pub session_exchange-Minted :
    (now : Time) (sid : String) (slug : Text) (token : String) (db : Db) {cookie : String}
    {db' : Db}
    → slug ≢ []
    → count (has_token token) db.launch_tokens ≤ 1
    → session_exchange now sid (some slug) token db ≡ (ok cookie, db')
    → Minted now sid slug token db db'
session_exchange-Minted now sid slug token db {cookie} {db'} h unique e =
    exchange_on-Minted now sid slug token db _ unique refl
      (subst (λ r. r ≡ (ok cookie, db')) (session_exchange-on now sid slug token db h) e)

-- On an app's subdomain, a token that no other row has, that is unused and unexpired, and that was
-- minted for that app and for a user that exists, is exchanged for an app session.
pub session_exchange_complete :
    (now : Time) (sid : String) (slug : Text) (token : String) (db : Db) (launch : AppLaunchToken)
    (owner : User)
    → slug ≢ []
    → count (has_token token) db.launch_tokens ≤ 1
    → first (has_token token) db.launch_tokens ≡ some launch
    → launch.consumed_at ≡ none
    → now ≤ launch.expires_at
    → launch.slug ≡ slug
    → first (λ u. u.id == launch.user_id) db.users ≡ some owner
    → (session_exchange now sid (some slug) token db).0 ≡ ok sid
unfolding exchange_on check_claimed open_session create_app_session
session_exchange_complete now sid slug token db launch owner h unique f unused in_time for_app u =
    rw (session_exchange-on now sid slug token db h) (
      ground (
        arith,
        claim_first now sid slug token db,
        first_sound (has_token token) db.launch_tokens {x = launch},
        count_mono (unclaimed token) (has_token token) (λ x h. ground arith) db.launch_tokens,
        count_pos_of_first (unclaimed token) (has_token token) db.launch_tokens {x = launch},
        text_eq_iff launch.slug slug,
      ))

-- A refused exchange opens no session, and changes only the table of launch tokens.
pub session_exchange_refused :
    (now : Time) (sid : String) (slug : Option Text) (token : String) (db : Db) {e : Refusal}
    {db' : Db}
    → session_exchange now sid slug token db ≡ (err e, db')
    → db' ≡ record db { launch_tokens = db'.launch_tokens }
unfolding session_exchange
session_exchange_refused now sid slug token db {e} {db'} h = ground arith
