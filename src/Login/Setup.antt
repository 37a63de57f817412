-- ===== src/Login/Setup.antt =====
-- portal/main.py, the form of the first run, and a second submission.
use mathlib.Core.Path.{subst}
use claude_pwa_portal.Base.{
  ℕ, String, Text, Text-Eq, text_eq, codes, ◌≡◌, refl, ap, ◌∙◌, true, false, Bool, ◌≢◌,
  Option-cases, arith, Option, none, some, List, [], ◌∷◌, ◌==◌, String-Eq, is_none, inl, inr,
  Bool-cases,
}
use claude_pwa_portal.Base.Table.{All, first}
use claude_pwa_portal.Models.{Time, User, Db}
use claude_pwa_portal.Access.{is_admin_role, get_setting, set_setting}
use claude_pwa_portal.Access.Settings.{get_setting-set_setting}
use claude_pwa_portal.Audit.{record_event}
use claude_pwa_portal.Sessions.{create_session}
use claude_pwa_portal.Login.{
  admin_exists, already_set_up, set_up, save_setup, setup_form_errors, checked_setup,
  complete_setup,
}

abbrev flag : Text
flag = codes "true"

admin_exists-flag : (db : Db) → get_setting "setup_complete" db ≡ some flag → admin_exists db ≡ true
unfolding admin_exists text_eq
admin_exists-flag db e = rw (e, admin_exists) refl

-- The setting is read from the table of settings alone.
get_setting_reads :
    (key : String) (db db' : Db)
    → db.settings ≡ db'.settings
    → get_setting key db ≡ get_setting key db'
unfolding get_setting
get_setting_reads key db db' e = rw e refl

set_setting-flag :
    (db : Db) → get_setting "setup_complete" (set_setting "setup_complete" flag db) ≡ some flag
unfolding text_eq
set_setting-flag db = get_setting-set_setting "setup_complete" "setup_complete" flag db

session-flag :
    (now : Time) (sid : String) (user_id : ℕ) (actor : Option User) (action : String) (db : Db)
    → admin_exists (
        record_event actor action
          (create_session sid now user_id (set_setting "setup_complete" flag db)).1)
      ≡ true
unfolding create_session record_event
session-flag now sid user_id actor action db = admin_exists-flag _ (
    get_setting_reads "setup_complete" _ (set_setting "setup_complete" flag db) refl
    ∙ set_setting-flag db)

save_setup-flag :
    (now : Time) (sid address password_hash : String) (site_url : Text) (db : Db) {t : String}
    {db' : Db}
    → save_setup now sid address password_hash site_url db ≡ (set_up t, db')
    → admin_exists db' ≡ true
unfolding save_setup
save_setup-flag now sid address password_hash site_url db {t} {db'} e =
    elim (Bool-cases (is_none (first (λ u. u.email == address) db.users))) [
      | inr taken ↦ absurd (cc (rw taken at e))
      | inl free ↦
          subst (λ d. admin_exists d ≡ true) (ap (λ r. r.1) (rw free at e))
            (session-flag now sid _ _ "setup.complete" _)
    ]

first-none :
    {A : Type 0} (p : A → Bool) (xs : List A) → first p xs ≡ none → All (λ x. p x ≡ false) xs
unfolding first
first-none p [] e = tt
first-none p (x ∷ xs) e = elim (Bool-cases (p x)) [
  | inl t ↦ absurd (cc (rw t at e))
  | inr t ↦ (t, first-none p xs (rw t at e))
]

-- Nobody administers the portal, and the run is not marked as done.
pub record IsNew (db : Db) : Type 0 where
  pub no_admin : All (λ u. is_admin_role u.role ≡ false) db.users
  pub unmarked : get_setting "setup_complete" db ≢ some flag

no_first_admin :
    (db : Db) → admin_exists db ≡ false → first (λ u. is_admin_role u.role) db.users ≡ none
unfolding admin_exists
no_first_admin db e = elim (Option-cases (first (λ u. is_admin_role u.role) db.users)) [
  | inl f ↦ f
  | inr (u, f) ↦ elim (Option-cases (get_setting "setup_complete" db)) [
    | inl g ↦ absurd (cc (rw f at (rw (g, admin_exists) at e)))
    | inr (cached, g) ↦ absurd (ground (arith, rw f at (rw (g, admin_exists) at e)))
  ]
]

admin_exists-IsNew : (db : Db) → admin_exists db ≡ false → IsNew db
admin_exists-IsNew db e = record {
  no_admin = first-none (λ u. is_admin_role u.role) db.users (no_first_admin db e);
  unmarked = λ m. cc (admin_exists-flag db m);
}

module _ (hash_password : String → String) (normalise_email : String → Option String) where
  checked_setup-flag :
      (now : Time) (sid email password : String) (site_url : Text) (address : Option String)
      (errors : List String) (db : Db) {t : String} {db' : Db}
      → checked_setup hash_password normalise_email now sid email password site_url address errors
          db
        ≡ (set_up t, db')
      → admin_exists db' ≡ true
  unfolding checked_setup
  checked_setup-flag now sid email password site_url address (error ∷ errors) db e =
      absurd (cc (ap (λ r. r.0) e))
  checked_setup-flag now sid email password site_url none [] db e =
      save_setup-flag now sid email _ _ db e
  checked_setup-flag now sid email password site_url (some address) [] db e =
      save_setup-flag now sid address _ _ db e

  -- The form of the first run succeeds only where no account was an administrator yet and the run
  -- was not marked as done; after it succeeded, every submission is turned away and changes nothing.
  pub complete_setup_once :
      (now : Time) (sid email password confirm : String) (site_url : Text) (db : Db) {t : String}
      {db' : Db} (later : Time) (sid' email' password' confirm' : String) (site_url' : Text)
      → complete_setup hash_password normalise_email now sid email password confirm site_url db
        ≡ (set_up t, db')
      → (admin_exists db ≡ false)
        × IsNew db
        × (complete_setup hash_password normalise_email later sid' email' password' confirm'
              site_url' db'
            ≡ (already_set_up, db'))
  unfolding complete_setup checked_setup
  complete_setup_once now sid email password confirm site_url db {t} {db'} later sid' email'
        password' confirm' site_url' e =
      elim (Bool-cases (admin_exists db)) [
        | inl done ↦ absurd (cc (rw done at e))
        | inr first_run ↦ (
          first_run,
          admin_exists-IsNew db first_run,
          rw
              (checked_setup-flag now sid email password site_url (normalise_email email)
                (setup_form_errors hash_password normalise_email email password confirm site_url) db
                (rw first_run at e))
              refl,
        )
      ]
