-- ===== src/Launch.antt =====
-- portal/api.py, `session_exchange`: a child app's subdomain trades the launch token that the portal
-- minted for an app session. The body is one that its schema accepts. `app_slug` is
-- `request.state.app_slug`; the result is the cookie's value, or the status of the refusal.
pub mod SingleUse
use claude_pwa_portal.Base.{
  codes, ℕ, String, Text, Text-Eq, Bool, true, false, not, ◌&&◌, Option, none, some, Result, ok,
  err, ltb, ◌==◌, String-Eq, ℕ-Eq, if◌then◌else◌, is_none,
}
use claude_pwa_portal.Base.Table.{first, update, count}
use claude_pwa_portal.Models.{Time, User, AppLaunchToken, Db}
use claude_pwa_portal.AppSessions.{create_app_session}

pub data Refusal : Type 0 where
  not_on_subdomain invalid_token : Refusal

-- `if not slug`, of a slug.
abbrev pub given_slug : Option Text → Option Text
given_slug none = none
given_slug (some slug) = if slug == codes "" then none else some slug

-- `WHERE token = …`
abbrev pub has_token : String → AppLaunchToken → Bool
has_token token row = row.token == token

-- `WHERE token = … AND consumed_at IS NULL`
abbrev pub unclaimed : String → AppLaunchToken → Bool
unclaimed token row = row.token == token && is_none row.consumed_at

abbrev pub consume : Time → AppLaunchToken → AppLaunchToken
consume now row = record row { consumed_at = some now }

abbrev Outcome : Type 0
Outcome = Result Refusal String × Db

open_session : Time → String → Text → AppLaunchToken → Option User → Db → Outcome
open_session now sid slug launch none db = (err invalid_token, db)
open_session now sid slug launch (some _) db =
    let (cookie, db') = create_app_session sid now launch.user_id slug db in (ok cookie, db')

-- The checks of a token that this request has claimed. It stays claimed when one of them fails.
check_claimed : Time → String → Text → Option AppLaunchToken → Db → Outcome
check_claimed now sid slug none db = (err invalid_token, db)
check_claimed now sid slug (some launch) db =
    if ltb launch.expires_at now
    then (err invalid_token, db)
    else if not (launch.slug == slug)
    then (err invalid_token, db)
    else open_session now sid slug launch (first (λ u. u.id == launch.user_id) db.users) db

exchange_on : Time → String → Text → String → Db → Outcome
exchange_on now sid slug token db =
    let rowcount = count (unclaimed token) db.launch_tokens in
    let db' : Db = record db {
      launch_tokens = update (unclaimed token) (consume now) db.launch_tokens;
    } in
    if not (rowcount == 1)
    then (err invalid_token, db')
    else check_claimed now sid slug (first (has_token token) db'.launch_tokens) db'

unfoldable pub session_exchange :
    Time → String → Option Text → String → Db → Result Refusal String × Db
unfolding exchange_on check_claimed open_session create_app_session
session_exchange now sid app_slug token db = elim (given_slug app_slug) [
  | none ↦ (err not_on_subdomain, db)
  | some slug ↦ exchange_on now sid slug token db
]
