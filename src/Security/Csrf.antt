-- ===== src/Security/Csrf.antt =====
-- portal/security.py, the CSRF checks: what a token that they accept is.
use claude_pwa_portal.Base.{
  String, String-Eq, ◌≡◌, ◌≢◌, refl, true, Option, none, some, arith, eq_iff, ap,
}
use claude_pwa_portal.Security.{check_csrf, check_csrf_header}

-- The session has a token, and it is the one that was submitted.
abbrev pub IsToken : Option String → String → Type 0
IsToken expected submitted = (expected ≡ some submitted) × (submitted ≢ "")

pub check_csrf-IsToken :
    (expected : Option String) (submitted : String)
    → check_csrf expected submitted ≡ true
    → IsToken expected submitted
unfolding check_csrf
check_csrf-IsToken none submitted h = absurd (cc)
check_csrf-IsToken (some token) submitted h = (
  ap some ((eq_iff token submitted).0 (ground (arith, h))),
  λ e. ground (arith, h, e, eq_iff submitted ""),
)

pub check_csrf_header-IsToken :
    (expected x_csrf : Option String)
    → check_csrf_header expected x_csrf ≡ true
    → (token : String) × (x_csrf ≡ some token) × IsToken expected token
unfolding check_csrf_header
check_csrf_header-IsToken expected none h = absurd (cc)
check_csrf_header-IsToken expected (some token) h =
    (token, refl, check_csrf-IsToken expected token h)
