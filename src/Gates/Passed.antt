-- ===== src/Gates/Passed.antt =====
-- What holds of a request that passed the gates.
use claude_pwa_portal.Base.{
  ℕ, String, ◌⊎◌, Text, Text-Eq, text_eq_iff, ◌≡◌, refl, Bool, true, ◌||◌, Option, none, some, [],
  ◌∷◌, Result, ok, err, arith, String-Eq, ℕ-Eq, if◌then◌else◌, contains, Option-cases, List-cases,
  Bool-cases, inl, inr, ap,
}
use mathlib.Core.Path.{subst}
use claude_pwa_portal.Base.Table.{first, first_sound}
use claude_pwa_portal.Models.{User, App, Db}
use claude_pwa_portal.Security.Csrf.{IsToken, check_csrf_header-IsToken}
use claude_pwa_portal.Access.{user_can_access_app}
use claude_pwa_portal.Gates.{
  Request, and_then, named, is_token, is_cookie, is_enabled_slug, require_user,
  require_csrf_for_cookie, require_app, found_app, referer_slug, require_service,
  require_app_access, app_of_referer, resolve_app_slug, read_gate, write_gate,
}

-- The slug that a request may act in: the host's; without one, what a bearer token names, or the
-- page that a portal session's request comes from.
abbrev pub slug_of : Request → Option Text
slug_of request = elim (named request.app_slug) [
  | some slug ↦ some slug
  | none ↦
      if is_token request.auth_method
      then named request.x_portal_app
      else if is_cookie request.auth_method
      then referer_slug request.referer
      else none
]

-- The app may use storage: the administrator allowed it, or the app is from before there were
-- services to declare.
abbrev pub may_store : App → Bool
may_store app_row = elim app_row.services [
  | [] ↦ app_row.services_ungated || contains app_row.allowed_services "storage"
  | _ ∷ _ ↦ contains app_row.allowed_services "storage"
]

pub record Passed (request : Request) (account : Option User) (db : Db) (me : User) (app_row : App)
    : Type 0 where
  pub caller : account ≡ some me
  pub slug : slug_of request ≡ some app_row.slug
  pub enabled : app_row.enabled ≡ true
  pub access : user_can_access_app db me app_row ≡ true
  pub service : may_store app_row ≡ true

named_same : (slug wanted : Text) → named (some slug) ≡ some wanted → slug ≡ wanted
named_same slug wanted e = ground arith

found_app-some :
    (found : Option App) (app_row : App) → found_app found ≡ ok app_row → found ≡ some app_row
unfolding found_app
found_app-some none app_row e = absurd (cc)
found_app-some (some x) app_row e = cc

require_app-Passed :
    (slug : Option Text) (db : Db) (app_row : App)
    → require_app db slug ≡ ok app_row
    → (named slug ≡ some app_row.slug) × (app_row.enabled ≡ true)
unfolding require_app
require_app-Passed slug db app_row e = elim (Option-cases (named slug)) [
  | inl n ↦ absurd (cc (rw (n, require_app) at e))
  | inr (wanted, n) ↦
      let found : first (is_enabled_slug wanted) db.apps ≡ some app_row =
        found_app-some _ app_row (rw (n, require_app) at e) in
      rw n (
        ground (
          arith,
          first_sound (is_enabled_slug wanted) db.apps found,
          text_eq_iff app_row.slug wanted,
        ))
]

resolve-Passed :
    (request : Request) (db : Db) (app_row : App)
    → resolve_app_slug request db ≡ ok app_row
    → (slug_of request ≡ some app_row.slug) × (app_row.enabled ≡ true)
unfolding resolve_app_slug app_of_referer
resolve-Passed request db app_row e = elim (Option-cases (named request.app_slug)) [
  | inr (slug, n) ↦
      let p = require_app-Passed (some slug) db app_row (rw (n, resolve_app_slug) at e) in
      rw (n, slug_of) (ap some (named_same slug app_row.slug p.0), p.1)
  | inl n ↦ elim (Bool-cases (is_token request.auth_method)) [
    | inl t ↦
        let p =
          require_app-Passed request.x_portal_app db app_row
            (rw t at (rw (n, resolve_app_slug) at e)) in
        rw (n, slug_of) (rw t p)
    | inr t ↦ elim (Bool-cases (is_cookie request.auth_method)) [
      | inr c ↦ absurd (cc (rw c at (rw t at (rw (n, resolve_app_slug) at e))))
      | inl c ↦ elim (Option-cases (referer_slug request.referer)) [
        | inl m ↦
            absurd
              (cc (rw (m, app_of_referer) at (rw c at (rw t at (rw (n, resolve_app_slug) at e)))))
        | inr (slug, m) ↦
            let p =
              require_app-Passed (some slug) db app_row
                (rw (m, app_of_referer) at (rw c at (rw t at (rw (n, resolve_app_slug) at e)))) in
            rw (n, slug_of) (rw t (rw c (rw m (ap some (named_same slug app_row.slug p.0), p.1))))
      ]
    ]
  ]
]

require_service-may_store :
    (app_row : App) → require_service (some app_row) "storage" ≡ ok tt → may_store app_row ≡ true
unfolding require_service
require_service-may_store app_row e = elim (List-cases app_row.services) [
  | inl n ↦ rw n (ground (arith, rw (n, require_service) at e))
  | inr (x, xs, n) ↦ rw n (ground (arith, rw (n, require_service) at e))
]

abbrev value_or : {A : Type 0} → A → Result ℕ A → A
value_or a (ok b) = b
value_or a (err _) = a

-- A gate after which a handler goes on answered with a value.
and_then-ok :
    {A B : Type 0} (r : Result ℕ A) (k : A → Result ℕ B) {b : B}
    → and_then r k ≡ ok b
    → (a : A) × (r ≡ ok a) × (k a ≡ ok b)
and_then-ok (err status) k e = absurd (cc)
and_then-ok (ok a) k e = (a, refl, e)

require_user-some :
    (account : Option User) (me : User) → require_user account ≡ ok me → account ≡ some me
unfolding require_user
require_user-some none me e = absurd (cc)
require_user-some (some x) me e = cc

require_app_access-true :
    (me : User) (app_row : App) (db : Db)
    → require_app_access me (some app_row) db ≡ ok tt
    → user_can_access_app db me app_row ≡ true
unfolding require_app_access
require_app_access-true me app_row db e = ground arith

-- The gates that the handlers of the storage share.
abbrev app_gates : Request → Db → User → Result ℕ (User × App)
app_gates request db me = and_then (resolve_app_slug request db) (λ a.
    and_then (require_app_access me (some a) db)
      (λ _. and_then (require_service (some a) "storage") (λ _. ok (me, a))))

app_gates-Passed :
    (request : Request) (account : Option User) (db : Db) (caller me : User) (app_row : App)
    → account ≡ some caller
    → app_gates request db caller ≡ ok (me, app_row)
    → Passed request account db me app_row
app_gates-Passed request account db caller me app_row known e =
    let (a, resolved, e1) = and_then-ok (resolve_app_slug request db) _ e in
    let (_, reached, e2) = and_then-ok (require_app_access caller (some a) db) _ e1 in
    let (_, served, e3) = and_then-ok (require_service (some a) "storage") _ e2 in
    subst (λ (q : User × App). Passed request account db q.0 q.1) (ap (value_or (caller, a)) e3)
      (record {
        caller = known;
        slug = (resolve-Passed request db a resolved).0;
        enabled = (resolve-Passed request db a resolved).1;
        access = require_app_access-true caller a db reached;
        service = require_service-may_store a served;
      })

-- Where the gates of a handler that reads storage let a request pass, its caller is signed in, its app
-- is enabled and the one that the host names, or without a host the bearer token's header or the
-- portal page that it comes from, the caller may launch that app, and that app may use storage.
pub read_gate-Passed :
    (request : Request) (account : Option User) (db : Db) (me : User) (app_row : App)
    → read_gate request account db ≡ ok (me, app_row)
    → Passed request account db me app_row
unfolding read_gate
read_gate-Passed request account db me app_row e =
    let (caller, known, e1) = and_then-ok (require_user account) _ e in
    app_gates-Passed request account db caller me app_row (require_user-some account caller known)
      e1

-- How a request shows that the caller means it: by a bearer token, or by the CSRF token of its
-- session.
abbrev pub Meant : Request → Type 0
Meant request =
    (is_token request.auth_method ≡ true)
    ⊎ ((token : String) × (request.x_csrf ≡ some token) × IsToken request.session_csrf token)

require_csrf-Meant : (request : Request) → require_csrf_for_cookie request ≡ ok tt → Meant request
unfolding require_csrf_for_cookie
require_csrf-Meant request shown = elim (Bool-cases (is_token request.auth_method)) [
  | inl t ↦ inl t
  | inr t ↦
      inr (check_csrf_header-IsToken request.session_csrf request.x_csrf (ground (arith, t, shown)))
]

-- Where the gates of a handler that changes storage let a request pass, its caller is signed in, its
-- app is enabled and the one that the host names, or without a host the bearer token's header or the
-- portal page that it comes from, the caller may launch that app, and that app may use storage; and
-- the request has a bearer token, or its header is the CSRF token that its session holds, which is
-- not empty.
pub write_gate-Passed :
    (request : Request) (account : Option User) (db : Db) (me : User) (app_row : App)
    → write_gate request account db ≡ ok (me, app_row)
    → Passed request account db me app_row × Meant request
unfolding write_gate
write_gate-Passed request account db me app_row e =
    let (caller, known, e1) = and_then-ok (require_user account) _ e in
    let (_, shown, e2) = and_then-ok (require_csrf_for_cookie request) _ e1 in
    (
      app_gates-Passed request account db caller me app_row (require_user-some account caller known)
          e2,
      require_csrf-Meant request shown,
    )
