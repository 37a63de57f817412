-- ===== src/Tests/Logins.antt =====
-- The theorems on logins and settings at the small portal.
use claude_pwa_portal.Base.{
  ℕ, String, Text, Text-Eq, codes, ◌≡◌, ◌⊎◌, ◌≤◌, ◌≢◌, refl, Bool, true, false, Option, none, some,
  List, [], ◌∷◌, ◌==◌, String-Eq, if◌then◌else◌, arith,
}
use claude_pwa_portal.Base.Table.{count}
use claude_pwa_portal.Models.{Db}
use claude_pwa_portal.Tests.Data.{bob, portal}
use claude_pwa_portal.Access.{get_setting}
use claude_pwa_portal.Sessions.{get_active_session}
use claude_pwa_portal.Throttle.{LoginKey, Throttle, login_fail_window, login_fail_limit}
use claude_pwa_portal.Throttle.Table.{is_recent}
use claude_pwa_portal.Throttle.Guesses.{Run, Run-Guesses}
use claude_pwa_portal.Login.{
  LoginAnswer, login_submit, profile_change_password, complete_setup, SetupAnswer, already_set_up,
  admin_exists,
}
use claude_pwa_portal.Login.Signed.{SignedIn, IsLocal, login_submit-SignedIn}
use claude_pwa_portal.Login.Passwords.{Chosen, rehashed, OnlyNew, profile_change_password-OnlyNew}
use claude_pwa_portal.Login.Setup.{IsNew, complete_setup_once}

abbrev key : LoginKey
key = record { network = codes "10.0.0.1"; email = codes "bob@x" }

abbrev quiet : Throttle
quiet = record { failures = []; net_hits = []; last_full_prune = 0 }

Run-Guesses_example : count (is_recent login_fail_window 9) (7 ∷ []) ≤ login_fail_limit
unfolding claude_pwa_portal.Throttle.reserve_login_attempt claude_pwa_portal.Base.Table.first
    claude_pwa_portal.Base.text_eq
Run-Guesses_example =
    Run-Guesses key 9 {last = 7} {granted = 7 ∷ []}
      (Run.attempt 7 key (omega arith) (omega arith) Run.start) (omega arith)

abbrev plain : String → String → Bool
plain password password_hash = password == password_hash

abbrev signed : LoginAnswer × Db × Throttle
signed =
    login_submit plain 5 7 "n9" (codes "10.0.0.1") (codes " Bob@x") "p2" (codes "/apps") portal
      quiet

abbrev new_id : String
new_id = "n9"

named : new_id ≢ ""
named h = cc

login_submit-SignedIn_example :
    SignedIn plain 3600 5 7 (codes "10.0.0.1") (codes " Bob@x") "p2" "n9" portal quiet signed.1
    × (new_id ≡ new_id)
    × ((codes "/apps" ≡ codes "/apps") ⊎ (codes "/apps" ≡ codes "/"))
    × IsLocal (codes "/apps")
unfolding claude_pwa_portal.Sessions.find_session claude_pwa_portal.Base.Table.first login_submit
    claude_pwa_portal.Base.text_eq
login_submit-SignedIn_example =
    login_submit-SignedIn plain 3600 5 7 (codes "10.0.0.1") (codes " Bob@x") "p2" "n9"
      (codes "/apps") portal quiet {db' = signed.1} {th' = signed.2} named refl refl

abbrev rehash : String → String
rehash password = "new"

abbrev changed : Option String × Db
changed = profile_change_password plain rehash 5 "n9" bob "p2" "long enough" "long enough" portal

profile_change_password-OnlyNew_example :
    (plain "p2" "p2" ≡ true)
    × Chosen "long enough" "long enough"
    × (new_id ≡ new_id)
    × (changed.1.users ≡ (rehashed rehash bob "long enough" portal).users)
    × OnlyNew 3600 5 "n9" 2 portal changed.1
unfolding claude_pwa_portal.Sessions.find_session claude_pwa_portal.Base.Table.first
    profile_change_password claude_pwa_portal.Sessions.create_session
profile_change_password-OnlyNew_example =
    profile_change_password-OnlyNew plain rehash 3600 5 "n9" bob "p2" "long enough" "long enough"
      portal named refl refl

abbrev new_portal : Db
new_portal = record portal { users = [] }

abbrev first_setup : SetupAnswer × Db
first_setup =
    complete_setup rehash (λ email. some email) 5 "n9" "ada@x" "long enough" "long enough"
      (codes "x.org") new_portal

complete_setup_once_example :
    (admin_exists new_portal ≡ false)
    × IsNew new_portal
    × (complete_setup rehash
          (λ email. some email)
          6
          "n8"
          "eve@x"
          "long enough"
          "long enough"
          (codes "y.org")
          first_setup.1
        ≡ (already_set_up, first_setup.1))
unfolding complete_setup get_setting claude_pwa_portal.Base.Table.first
    claude_pwa_portal.Base.text_eq
complete_setup_once_example =
    complete_setup_once rehash (λ email. some email) 5 "n9" "ada@x" "long enough" "long enough"
      (codes "x.org") new_portal 6 "n8" "eve@x" "long enough" "long enough" (codes "y.org") refl
