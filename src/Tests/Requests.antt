-- ===== src/Tests/Requests.antt =====
-- The theorems on requests, sessions and launches at the small portal.
use claude_pwa_portal.Base.{
  ℕ, String, Text, codes, ◌≡◌, ◌≢◌, ◌↔◌, refl, Bool, true, false, Option, none, some, List, [], ◌∷◌,
  Result, ok, err, arith, ◌==◌, Text-Eq,
}
use claude_pwa_portal.Base.Table.{first, count, update}
use claude_pwa_portal.Tests.Data.{
  bob, notes, hash, portal_session, closed_session, portal, child_request, bearer_request,
}
use claude_pwa_portal.Sessions.{
  find_session, create_session, get_active_session, revoke_all_for_user,
}
use claude_pwa_portal.Sessions.Lifetime.{
  IsLive, Reach, Step, closed_forever, get_active_session-IsLive,
}
use claude_pwa_portal.AppSessions.{
  get_active_app_session, revoke_app_sessions_for_user, revoke_all_app_sessions_for_slug,
}
use claude_pwa_portal.Credentials.{sign_out_everywhere}
use claude_pwa_portal.Credentials.Cascade.{SignedOut, sign_out-SignedOut}
use claude_pwa_portal.Auth.{AuthMethod, token, app_session, current_user_or_token}
use claude_pwa_portal.Auth.Origin.{Source, method, current_user-Source}
use claude_pwa_portal.Auth.SignedOut.{signed_out_everywhere}
use claude_pwa_portal.Launch.{invalid_token, session_exchange}
use claude_pwa_portal.Launch.SingleUse.{Minted, session_exchange_once, session_exchange-Minted}

notes_named : notes ≢ []
notes_named h = cc

signed_out_everywhere_example : (true ≡ true) × (some token ≡ some token)
unfolding current_user_or_token sign_out_everywhere claude_pwa_portal.Auth.authenticate_bearer
    claude_pwa_portal.Auth.bearer_token claude_pwa_portal.Base.text_eq first
    claude_pwa_portal.AppSessions.revoke_all_app_sessions_for_user revoke_all_for_user
signed_out_everywhere_example =
    signed_out_everywhere hash 3600 10 20 bearer_request 2 true portal refl refl

current_user-Source_example :
    (s : Source hash 3600 5 child_request portal bob) × (some app_session ≡ some (method s))
unfolding current_user_or_token claude_pwa_portal.Base.text_eq get_active_app_session first
    claude_pwa_portal.Auth.get_user
current_user-Source_example = current_user-Source hash 3600 5 child_request portal refl

session_exchange_once_example :
    session_exchange 6 "n2" (some notes) "lt" (session_exchange 5 "n1" (some notes) "lt" portal).1
    ≡ (err invalid_token, (session_exchange 5 "n1" (some notes) "lt" portal).1)
session_exchange_once_example =
    session_exchange_once 5 6 "n1" "n2" notes notes "lt" portal notes_named notes_named

session_exchange-Minted_example :
    Minted 5 "n1" notes "lt" portal (session_exchange 5 "n1" (some notes) "lt" portal).1
unfolding session_exchange count claude_pwa_portal.Base.text_eq first update
session_exchange-Minted_example =
    session_exchange-Minted 5 "n1" notes "lt" portal notes_named (omega arith) refl

closed_forever_example :
    get_active_session 3600 9 (some "s3") (create_session "s9" 5 1 portal).1 ≡ none
unfolding find_session first
closed_forever_example =
    closed_forever 3600 "s3" closed_session {db = portal}
      (Reach.next Reach.here (Step.login "s9" 5 1)) refl 9 refl

get_active_session-IsLive_example :
    (get_active_session 3600 5 (some "s2") portal ≡ some portal_session)
    ↔ ((find_session (some "s2") portal ≡ some portal_session) × IsLive 3600 5 portal_session)
get_active_session-IsLive_example =
    get_active_session-IsLive 3600 5 "s2" portal portal_session (λ h. cc)

sign_out-SignedOut_example : SignedOut 3600 9 2 false portal (sign_out_everywhere 5 2 false portal)
sign_out-SignedOut_example = sign_out-SignedOut 3600 5 9 2 false portal
