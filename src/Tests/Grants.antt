-- ===== src/Tests/Grants.antt =====
-- The theorems on OAuth, accounts and app access at the small portal.
use claude_pwa_portal.Base.{
  ℕ, ◌≤◌, String, Text, codes, ◌≡◌, ◌⊎◌, refl, Bool, true, false, not, ◌||◌, Option, none, some,
  List, [], ◌∷◌, Result, ok, err, arith, ◌==◌, ℕ-Eq, String-Eq,
}
use claude_pwa_portal.Base.Table.{first, count, delete}
use claude_pwa_portal.Models.{User, Db}
use claude_pwa_portal.Tests.Data.{
  ada, hash, portal, parked, grant, split_https, construct, read_code, read_refresh,
}
use claude_pwa_portal.Security.{check_csrf}
use claude_pwa_portal.OAuth.Pending.{AuthorizationParams, of_client, every, in_range, authorize}
use claude_pwa_portal.OAuth.Pending.Bounds.{authorize_bounded}
use claude_pwa_portal.Security.Csrf.{IsToken}
use claude_pwa_portal.OAuth.Consent.{consent_submit}
use claude_pwa_portal.OAuth.Consent.Approval.{Approved, consent_submit-Approved}
use claude_pwa_portal.OAuth.Tokens.{
  code_already_used, refresh_token_not_found, claim_code, claim_refresh, exchange_refresh_token,
  load_access_token, load_refresh_token, revoke_token, authenticate_oauth_token,
}
use claude_pwa_portal.OAuth.Tokens.Rotation.{
  claim_code_once, claim_refresh_once, load_access-rotated, revoke_token-useless,
}
use claude_pwa_portal.Users.{count_admins, delete_user, users_set_role}
use claude_pwa_portal.Users.Admins.{Accounts}
use claude_pwa_portal.Users.Administered.{Reach, Step, Reach-Accounts}
use claude_pwa_portal.Users.Removal.{Removed, delete_user-Removed}

abbrev approved_portal : Db
approved_portal =
    (consent_submit split_https construct hash 5 "r2" none (some ada) (some "k") "t" "approve" "k"
      portal).1

consent_submit-Approved_example :
    (approved_portal.codes ≡ portal.codes)
    ⊎ ((me : User) × (some ada ≡ some me)
        × (◌≡◌ {A = Option Text} none none)
        × IsToken (some "k") "k"
        × Approved split_https construct hash 5 "r2" me "t" "approve" portal approved_portal)
unfolding consent_submit
consent_submit-Approved_example =
    consent_submit-Approved split_https construct hash 5 "r2" none (some ada) (some "k") "t"
      "approve" "k" portal refl

parked-Approved :
    Approved split_https construct hash 5 "r2" ada "t" "approve" portal approved_portal
unfolding consent_submit first delete claude_pwa_portal.Auth.is_admin
    claude_pwa_portal.Security.is_allowed_redirect_uri claude_pwa_portal.Base.text_eq check_csrf
parked-Approved = record {
  pending = parked;
  found = refl;
  in_time = omega arith;
  by_admin = refl;
  safe = refl;
  approved = refl;
  minted = refl;
  dropped = refl;
}

claim_code_once_example :
    (claim_code hash 6
      (codes "a3")
      (codes "b3")
      "c"
      1
      read_code
      (claim_code hash 5 (codes "a2") (codes "b2") "c" 1 read_code portal).1).0
    ≡ err code_already_used
claim_code_once_example =
    claim_code_once hash 5 6 (codes "a2") (codes "b2") (codes "a3") (codes "b3") "c" "c" 1 1
      read_code read_code portal refl

claim_refresh_once_example :
    (claim_refresh hash 6
      (codes "a3")
      (codes "b3")
      "c"
      1
      none
      []
      read_refresh
      (claim_refresh hash 5 (codes "a2") (codes "b2") "c" 1 none [] read_refresh portal).1).0
    ≡ err refresh_token_not_found
unfolding claude_pwa_portal.Base.text_eq
claim_refresh_once_example =
    claim_refresh_once hash 5 6 (codes "a2") (codes "b2") (codes "a3") (codes "b3") "c" "c" 1 1 none
      none [] [] read_refresh read_refresh portal refl refl

load_access-rotated_example :
    load_access_token hash 7
      (codes "a1")
      (exchange_refresh_token hash 5 (codes "a2") (codes "r2") "c" read_refresh [] portal).1
    ≡ none
unfolding exchange_refresh_token first claude_pwa_portal.Base.text_eq count
load_access-rotated_example =
    load_access-rotated hash 5 7 (codes "a2") (codes "r2") (codes "a1") "c" [] read_refresh grant
      portal refl refl refl

revoke_token-useless_example :
    (load_access_token hash 7 (codes "r1") (revoke_token hash 5 (codes "r1") portal) ≡ none)
    × (load_refresh_token hash "c" (codes "r1") (revoke_token hash 5 (codes "r1") portal) ≡ none)
    × (authenticate_oauth_token hash 7
          (some (codes "Bearer r1"))
          (revoke_token hash 5 (codes "r1") portal)
        ≡ none)
unfolding claude_pwa_portal.Auth.bearer_token claude_pwa_portal.Base.text_eq
revoke_token-useless_example =
    revoke_token-useless hash 5 7 (codes "r1") "c" (some (codes "Bearer r1")) portal refl

abbrev params : AuthorizationParams
params = record {
  state = some "st";
  scopes = [];
  code_challenge = "yyyyyyyyyyyyyyyyyyyyyyyyyyyyyyyyyyyyyyyyyyyyyyyyyy";
  redirect_uri = "https://c/back";
  redirect_uri_provided_explicitly = true;
  resource = none;
}

authorize_bounded_example :
    (count (of_client "c") (authorize 5 "https://p" "t2" "c" params portal).1.pendings ≤ 10)
    × (count every (authorize 5 "https://p" "t2" "c" params portal).1.pendings ≤ 500)
unfolding authorize in_range
authorize_bounded_example = authorize_bounded 5 "https://p" "t2" "c" params portal refl

portal-Accounts : Accounts portal
unfolding count_admins count
portal-Accounts = record {
  administered = omega arith;
  below = (omega arith, (omega arith, tt));
  distinct = λ id. ground arith;
}

-- An administrator who demotes the last administrator.
Reach-Accounts_example : Accounts (users_set_role ada 1 "user" portal).1
Reach-Accounts_example =
    Reach-Accounts (λ password. password) (λ email. some email) {db = portal}
      (Reach.next Reach.here (Step.role_set ada 1 "user")) portal-Accounts

delete_user-Removed_example :
    (◌==◌ {A = ℕ} 2 1) ≡ false × Removed 2 portal (delete_user ada 2 portal []).1
unfolding delete_user claude_pwa_portal.Auth.get_user first
delete_user-Removed_example =
    delete_user-Removed ada 2 portal (delete_user ada 2 portal []).1 []
      (delete_user ada 2 portal []).2 refl
