-- ===== src/Security.antt =====
-- portal/security.py: the rules for passwords, the CSRF checks and the rule for redirect URIs. What `urlsplit` of Python's
-- standard library makes of the stripped address is the parameter `urlsplit`, `none` where it raises
-- `ValueError`; `compare_digest` is equality.
pub mod Csrf
use claude_pwa_portal.Base.{
  ℕ, ◌+◌, ◌++◌, ltb, length, ℕ-Eq, String, Text, Text-Eq, codes, Bool, true, false, not, ◌&&◌, ◌||◌,
  Option, none, some, List, [], ◌∷◌, ◌==◌, String-Eq, if◌then◌else◌, is_none, contains,
}
use claude_pwa_portal.Base.Chars.{lower}

-- The bytes of a code point in UTF-8.
utf8_width : ℕ → ℕ
utf8_width c = if ltb c 128 then 1 else if ltb c 2048 then 2 else if ltb c 65536 then 3 else 4

unfoldable pub utf8_length : Text → ℕ
unfolding utf8_width
utf8_length [] = 0
utf8_length (c ∷ s) = utf8_width c + utf8_length s

-- The complaints about a password; none where it may be used.
unfoldable pub validate_password : String → List String
unfolding utf8_length
validate_password password =
    (if ltb (length (codes password)) 8 then "Password must be at least 8 characters." ∷ [] else [])
    ++ (if ltb 72 (utf8_length (codes password))
        then "Password must be 72 bytes or fewer." ∷ []
        else [])

-- The check of a submitted token against the session's; false where the code raises 403.
unfoldable pub check_csrf : Option String → String → Bool
check_csrf none submitted = false
check_csrf (some expected) submitted =
    not (expected == "") && not (submitted == "") && expected == submitted

unfoldable pub check_csrf_header : Option String → Option String → Bool
unfolding check_csrf
check_csrf_header expected none = false
check_csrf_header expected (some x_csrf) = check_csrf expected x_csrf

pub record UrlParts : Type 0 where
  pub scheme : Text
  pub hostname : Option Text
  pub fragment : Text
  pub username : Option Text
  pub password : Option Text

-- `_LOOPBACK_HOSTS`
abbrev pub loopback_hosts : List Text
loopback_hosts = codes "localhost" ∷ codes "127.0.0.1" ∷ codes "::1" ∷ []

unfoldable pub has_allowed_scheme : Text → Text → Bool
unfolding lower
has_allowed_scheme scheme host =
    if lower scheme == codes "https"
    then true
    else lower scheme == codes "http" && contains loopback_hosts (lower host)

allowed_parts : UrlParts → Option Text → Bool
unfolding has_allowed_scheme
allowed_parts parts none = false
allowed_parts parts (some host) =
    if host == codes ""
      || not (parts.fragment == codes "")
      || not (is_none parts.username)
      || not (is_none parts.password)
    then false
    else has_allowed_scheme parts.scheme host

unfoldable pub is_allowed_redirect_uri : (String → Option UrlParts) → String → Bool
unfolding allowed_parts
is_allowed_redirect_uri urlsplit uri = elim (urlsplit uri) [
  | none ↦ false
  | some parts ↦ allowed_parts parts parts.hostname
]
