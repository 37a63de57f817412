-- ===== src/Login/Signed.antt =====
-- portal/main.py, `login_submit`: what a login that is answered with a session has checked and done.
use mathlib.Core.Path.{subst}
use mathlib.Core.Option.{some-injective}
use claude_pwa_portal.Base.{
  ℕ, ◌+◌, ◌≤◌, String, ◌⊎◌, sym, contains, false, not, ◌&&◌, [], ◌∷◌, arith, nat_eq_iff, Text,
  Text-Eq, codes, text_eq_iff, ◌≡◌, ◌≢◌, refl, ap, Bool, true, none, some, ◌==◌, String-Eq, ℕ-Eq,
  inl, inr, Bool-cases, Option-cases,
}
use claude_pwa_portal.Base.Chars.{strip, lower, take, starts_with, all_chars, chop_newline}
use claude_pwa_portal.Base.Table.{first, first_sound}
use claude_pwa_portal.Models.{Time, seconds, User, Db}
use claude_pwa_portal.Audit.{record_event}
use claude_pwa_portal.Sessions.{find_session, create_session, get_active_session}
use claude_pwa_portal.Sessions.Creation.{new_session, get_active_session-create_later}
use claude_pwa_portal.Throttle.{LoginKey, Throttle, reserve_login_attempt}
use claude_pwa_portal.Login.{
  login_key, max_email_input, check_credentials, safe_next, finish_login, signed_in, login_submit,
  record_login_attempt, is_url_char, matches_safe_next,
}

-- What a login that is answered with a session has checked and done.
pub record SignedIn (verify_password : String → String → Bool) (max_age : ℕ) (now : Time) (mono : ℕ)
    (network email : Text) (password : String) (sid : String) (db : Db) (th : Throttle) (db' : Db)
    : Type 0 where
  pub account : User
  pub admitted :
      (reserve_login_attempt mono (login_key network (take max_email_input email)) th).0 ≡ true
  pub addressed : codes account.email ≡ lower (strip (take max_email_input email))
  pub known :
      first (λ u. codes u.email == lower (strip (take max_email_input email))) db.users
      ≡ some account
  pub verified : verify_password password account.password_hash ≡ true
  pub session :
      get_active_session max_age now (some sid) db' ≡ some (new_session sid now account.id)
  pub lasting :
      (later : Time)
      → later ≤ now + seconds 2592000
      → later ≤ now + seconds max_age
      → get_active_session max_age later (some sid) db' ≡ some (new_session sid now account.id)

-- A path on the portal's own origin: it begins with one slash and holds no backslash, which browsers
-- read as one.
abbrev pub IsLocal : Text → Type 0
IsLocal p =
    (starts_with p (codes "/") ≡ true)
    × (starts_with p (codes "//") ≡ false)
    × (contains p 92 ≡ false)

both_true : {a b : Bool} → (a && b) ≡ true → (a ≡ true) × (b ≡ true)
both_true h = (ground arith, ground arith)

backslash : is_url_char 92 ≡ false
backslash = refl

url_char-backslash : (c : ℕ) → is_url_char c ≡ true → (92 == c) ≡ false
url_char-backslash c h = elim (Bool-cases (92 == c)) [
  | inr t ↦ t
  | inl t ↦
      absurd (cc (subst (λ d. is_url_char d ≡ true) (sym ((nat_eq_iff 92 c).0 t)) h, backslash))
]

url_chars-backslash :
    (s : Text) → all_chars is_url_char (chop_newline s) ≡ true → contains s 92 ≡ false
unfolding all_chars chop_newline
url_chars-backslash [] h = refl
url_chars-backslash (c ∷ []) h = elim (Bool-cases (c == 10)) [
  | inl t ↦ subst (λ d. contains (d ∷ []) 92 ≡ false) (sym ((nat_eq_iff c 10).0 t)) refl
  | inr t ↦ rw (url_char-backslash c (both_true (rw t at h)).0) refl
]
url_chars-backslash (c ∷ d ∷ s) h =
    rw (url_char-backslash c (both_true h).0) (url_chars-backslash (d ∷ s) (both_true h).1)

safe_next-IsLocal : (value : Text) → IsLocal (safe_next value)
unfolding safe_next matches_safe_next starts_with
safe_next-IsLocal [] = (refl, refl, refl)
safe_next-IsLocal (c ∷ s) =
    elim (Bool-cases (matches_safe_next (c ∷ s) && not (starts_with (c ∷ s) (codes "//")))) [
      | inr t ↦ rw t (refl, refl, refl)
      | inl t ↦
          let matched : ((c == 47) ≡ true) × (all_chars is_url_char (chop_newline s) ≡ true) =
            (ground (arith, t), ground (arith, t)) in
          rw t (
            ground (arith, t),
            ground (arith, t),
            subst (λ d. contains (d ∷ s) 92 ≡ false) (sym ((nat_eq_iff c 47).0 matched.0))
                (url_chars-backslash s matched.1),
          )
    ]

check_credentials-verified :
    (verify_password : String → String → Bool) (normalized : Text) (password : String) (db : Db)
    {account : User}
    → check_credentials verify_password normalized password db ≡ some account
    → (first (λ u. codes u.email == normalized) db.users ≡ some account)
      × (verify_password password account.password_hash ≡ true)
unfolding check_credentials
check_credentials-verified verify_password normalized password db e =
    elim (Option-cases (first (λ u. codes u.email == normalized) db.users)) [
      | inl f ↦ absurd (cc (rw (f, check_credentials) at e))
      | inr (u, f) ↦ elim (Bool-cases (verify_password password u.password_hash)) [
        | inl v ↦
            subst
              (λ a.
                (first (λ w. codes w.email == normalized) db.users ≡ some a)
                × (verify_password password a.password_hash ≡ true))
              (some-injective _ _ (rw v at (rw (f, check_credentials) at e))) (f, v)
        | inr v ↦ absurd (cc (rw v at (rw (f, check_credentials) at e)))
      ]
    ]

safe_next-given : (value : Text) → (safe_next value ≡ value) ⊎ (safe_next value ≡ codes "/")
unfolding safe_next
safe_next-given value =
    elim (Bool-cases (matches_safe_next value && not (starts_with value (codes "//")))) [
      | inl t ↦ rw t (inl refl)
      | inr t ↦ rw t (inr refl)
    ]

-- The answer for an account whose password was right.
finish_login-session :
    (max_age : ℕ) (now : Time) (sid : String) (key : LoginKey) (email next : Text) (account : User)
    (db : Db) (th : Throttle) {t : String} {next' : Text} {db' : Db} {th' : Throttle}
    → sid ≢ ""
    → find_session (some sid) db ≡ none
    → finish_login now sid key email next (some account) db th ≡ (signed_in t next', db', th')
    → ((later : Time)
        → later ≤ now + seconds 2592000
        → later ≤ now + seconds max_age
        → get_active_session max_age later (some sid) db' ≡ some (new_session sid now account.id))
      × (t ≡ sid)
      × (next' ≡ safe_next next)
unfolding finish_login create_session record_event record_login_attempt find_session
finish_login-session max_age now sid key email next account db th named fresh e = (
  λ later young used.
      subst
        (λ d. get_active_session max_age later (some sid) d ≡ some (new_session sid now account.id))
        (ap (λ r. r.1) e)
        (get_active_session-create_later max_age now later sid account.id _ named fresh young used),
  cc (ap (λ r. r.0) e),
  cc (ap (λ r. r.0) e),
)

module _ (verify_password : String → String → Bool) (max_age : ℕ) (now : Time) (mono : ℕ)
    (network given_email : Text) (password : String) (sid : String) (next : Text) (db : Db)
    (th : Throttle) where
  abbrev typed : Text
  typed = take max_email_input given_email

  -- A login that is answered with a session was within the limits, named an account by its address
  -- and gave its password; where the new id names no row yet, the session is that account's, and it
  -- is active at once and, without being used, until it is idle or as old as it may be; the browser
  -- goes to the given address or to the start page, and always to a path on the portal's own origin.
  pub login_submit-SignedIn :
      {t : String} {next' : Text} {db' : Db} {th' : Throttle}
      → sid ≢ ""
      → find_session (some sid) db ≡ none
      → login_submit verify_password now mono sid network given_email password next db th
        ≡ (signed_in t next', db', th')
      → SignedIn verify_password max_age now mono network given_email password sid db th db'
        × (t ≡ sid)
        × ((next' ≡ next) ⊎ (next' ≡ codes "/"))
        × IsLocal next'
  unfolding login_submit finish_login
  login_submit-SignedIn {t} {next'} {db'} {th'} named fresh e =
      elim (Bool-cases (reserve_login_attempt mono (login_key network typed) th).0) [
        | inr over ↦ absurd (cc (rw over at e))
        | inl admitted ↦
            elim (Option-cases
              (check_credentials verify_password (lower (strip typed)) password db)) [
                | inl wrong ↦ absurd (cc (rw (wrong, finish_login) at (rw admitted at e)))
                | inr (account, right) ↦
                    let done =
                      finish_login-session max_age now sid (login_key network typed) typed next
                        account db (reserve_login_attempt mono (login_key network typed) th).1 named
                        fresh (rw right at (rw admitted at e)) in
                    let checked =
                      check_credentials-verified verify_password (lower (strip typed)) password db
                        right in
                    (
                      record {
                        account = account;
                        admitted = admitted;
                        addressed = (text_eq_iff _ _).0 (
                            first_sound (λ u. codes u.email == lower (strip typed)) db.users
                              checked.0);
                        known = checked.0;
                        verified = checked.1;
                        session = done.0 now (omega arith) (omega arith);
                        lasting = done.0;
                      },
                      done.1,
                      rw done.2 (safe_next-given next),
                      subst IsLocal (sym done.2) (safe_next-IsLocal next),
                    )
              ]
      ]
