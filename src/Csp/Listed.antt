-- ===== src/Csp/Listed.antt =====
-- portal/middleware.py, `build_child_app_csp`: the directives of the two policies as lists of words,
-- and the texts that the code writes against them.
use claude_pwa_portal.Base.{
  Text, Text-Eq, codes, ◌≡◌, refl, sym, ap, Bool, true, false, not, ◌&&◌, none, some, List, [], ◌∷◌,
  ◌++◌, arith, ◌==◌, ℕ-Eq, if◌then◌else◌, Bool-cases, inl, inr,
}
use claude_pwa_portal.Base.Chars.{starts_with}
use claude_pwa_portal.Base.Table.{count, All, All-append}
use claude_pwa_portal.Models.{App}
use claude_pwa_portal.Manifest.Origins.{matches_origin}
use claude_pwa_portal.Manifest.Origins.Separators.{semicolons, matches_origin-semicolons}
use claude_pwa_portal.Apps.Origins.{IsOrigin}
use claude_pwa_portal.Csp.{
  join_rest, https_origins, connect_src, frame_src_directive, strict_csp, permissive_csp,
  subdomain_frame_ancestors, launcher_frame_src, Settings,
}
use claude_pwa_portal.Csp.Words.{
  words, join, IsPlain, words-IsPlain, semicolons-append, append_nil, append_assoc,
}

-- `'self'`
abbrev pub self : Text
self = codes "'self'"

abbrev pub strict_directives : List Text → List Text → Text → List (List Text)
strict_directives origins ancestors nonce =
    let scripts = codes "'nonce-" ++ (nonce ++ codes "'") in
    (codes "default-src" ∷ self ∷ [])
    ∷ (codes "script-src" ∷ self ∷ scripts ∷ [])
    ∷ (codes "style-src" ∷ self ∷ scripts ∷ [])
    ∷ (codes "img-src" ∷ self ∷ codes "data:" ∷ codes "blob:" ∷ [])
    ∷ (codes "font-src" ∷ self ∷ codes "data:" ∷ [])
    ∷ (codes "connect-src" ∷ self ∷ origins)
    ∷ (codes "frame-ancestors" ∷ ancestors)
    ∷ (codes "base-uri" ∷ self ∷ [])
    ∷ (codes "form-action" ∷ self ∷ [])
    ∷ (codes "object-src" ∷ codes "'none'" ∷ [])
    ∷ []

abbrev pub permissive_directives : List Text → List Text → List (List Text) → List (List Text)
permissive_directives origins ancestors frames =
    (codes "default-src"
      ∷ self
      ∷ codes "'unsafe-inline'"
      ∷ codes "'unsafe-eval'"
      ∷ codes "data:"
      ∷ codes "blob:"
      ∷ [])
    ∷ (codes "connect-src" ∷ self ∷ origins)
    ∷ (frames
        ++ ((codes "frame-ancestors" ∷ ancestors)
            ∷ (codes "base-uri" ∷ self ∷ [])
            ∷ (codes "form-action" ∷ self ∷ [])
            ∷ []))

-- The portal's origins, as pages that may frame an app on its subdomain.
abbrev pub portal_origins : Settings → List Text
portal_origins settings =
    if settings.http_only
    then (codes "http://" ++ settings.site_url) ∷ (codes "https://" ++ settings.site_url) ∷ []
    else (codes "https://" ++ settings.site_url) ∷ []

-- The origins of an app's subdomain, which its launcher page frames.
abbrev pub app_origins : Settings → Text → List Text
app_origins settings slug =
    let host = slug ++ (codes ".apps." ++ settings.site_url) in
    if settings.http_only
    then (codes "http://" ++ host) ∷ (codes "https://" ++ host) ∷ []
    else if settings.cookies_secure
    then (codes "https://" ++ host) ∷ []
    else (codes "http://" ++ host) ∷ []

-- The directives of a response: strict for an app that asks for it, on its subdomain and off the
-- portal's form pages.
abbrev pub directives : Settings → Bool → Text → Text → Text → App → List (List Text)
directives settings on_subdomain slug path nonce app_row =
    if on_subdomain
    then (if not (starts_with path (codes "/forms/")) && app_row.csp_strict
        then strict_directives app_row.allowed_origins (portal_origins settings) nonce
        else permissive_directives app_row.allowed_origins (portal_origins settings) [])
    else permissive_directives app_row.allowed_origins (self ∷ []) (
        if settings.child_apps_same_origin
        then []
        else (codes "frame-src" ∷ app_origins settings slug) ∷ [])

IsOrigin-https : (o : Text) → IsOrigin o → starts_with o (codes "https://") ≡ true
unfolding matches_origin
IsOrigin-https o h = ground (arith, h)

-- Origins are all listed, and the words of a list of them are joined as the code joins them.
words-join_rest :
    (w : Text) (origins : List Text)
    → All IsOrigin origins
    → words (w ∷ origins) ≡ w ++ join_rest (https_origins origins)
unfolding words join_rest https_origins
words-join_rest w [] h = sym (append_nil w)
words-join_rest w (o ∷ origins) h =
    rw (IsOrigin-https o h.0) (ap (λ r. w ++ (32 ∷ r)) (words-join_rest o origins h.1))

pub strict_csp-join :
    (origins : List Text) (a : Text) (ancestors : List Text) (nonce : Text)
    → All IsOrigin origins
    → strict_csp origins (words (a ∷ ancestors)) none nonce
      ≡ join (strict_directives origins (a ∷ ancestors) nonce)
unfolding strict_csp connect_src frame_src_directive join words
strict_csp-join origins a ancestors nonce h = rw (words-join_rest self origins h) refl

pub permissive_csp-join :
    (origins : List Text) (a : Text) (ancestors : List Text)
    → All IsOrigin origins
    → permissive_csp origins (words (a ∷ ancestors)) none
      ≡ join (permissive_directives origins (a ∷ ancestors) [])
unfolding permissive_csp connect_src frame_src_directive join words
permissive_csp-join origins a ancestors h = rw (words-join_rest self origins h) refl

frame_src_directive-append :
    (src rest : Text)
    → (src == []) ≡ false
    → frame_src_directive (some src) ++ rest ≡ codes "frame-src " ++ (src ++ (codes "; " ++ rest))
unfolding frame_src_directive
frame_src_directive-append src rest given =
    rw given (ap (λ r. codes "frame-src " ++ r) (append_assoc src (codes "; ") rest))

pub permissive_csp-join_frames :
    (origins : List Text) (a : Text) (ancestors : List Text) (b : Text) (frames : List Text)
    → All IsOrigin origins
    → (words (b ∷ frames) == []) ≡ false
    → permissive_csp origins (words (a ∷ ancestors)) (some (words (b ∷ frames)))
      ≡ join (permissive_directives origins (a ∷ ancestors) ((codes "frame-src" ∷ b ∷ frames) ∷ []))
unfolding permissive_csp connect_src join words
permissive_csp-join_frames origins a ancestors b frames h given =
    let rest =
      codes "frame-ancestors "
      ++ (words (a ∷ ancestors) ++ codes "; base-uri 'self'; form-action 'self'") in
    rw (words-join_rest self origins h, frame_src_directive-append (words (b ∷ frames)) rest given)
      refl

pub origins-IsPlain : (origins : List Text) → All IsOrigin origins → All IsPlain origins
origins-IsPlain [] h = tt
origins-IsPlain (o ∷ origins) h = (matches_origin-semicolons o h.0, origins-IsPlain origins h.1)

-- What the settings and the request put into a header holds no semicolon.
abbrev pub PlainInputs : Settings → Text → Text → Type 0
PlainInputs settings slug nonce = IsPlain settings.site_url × IsPlain slug × IsPlain nonce

quoted-IsPlain : (nonce : Text) → IsPlain nonce → IsPlain (nonce ++ codes "'")
unfolding semicolons count
quoted-IsPlain nonce n = omega (arith, n, semicolons-append nonce (codes "'"))

pub strict_directives-IsPlain :
    (origins ancestors : List Text) (nonce : Text)
    → All IsPlain origins
    → All IsPlain ancestors
    → IsPlain nonce
    → All (λ e. IsPlain (words e)) (strict_directives origins ancestors nonce)
unfolding semicolons count words
strict_directives-IsPlain origins ancestors nonce h k n =
    let connect = words-IsPlain (codes "connect-src" ∷ self ∷ origins) (refl, (refl, h)) in
    let framed = words-IsPlain (codes "frame-ancestors" ∷ ancestors) (refl, k) in
    let quoted = quoted-IsPlain nonce n in
    (refl, (quoted, (quoted, (refl, (refl, (connect, (framed, (refl, (refl, (refl, tt))))))))))

pub permissive_directives-IsPlain :
    (origins ancestors : List Text) (frames : List (List Text))
    → All IsPlain origins
    → All IsPlain ancestors
    → All (λ e. IsPlain (words e)) frames
    → All (λ e. IsPlain (words e)) (permissive_directives origins ancestors frames)
unfolding semicolons count words
permissive_directives-IsPlain origins ancestors frames h k f =
    let connect = words-IsPlain (codes "connect-src" ∷ self ∷ origins) (refl, (refl, h)) in
    let framed = words-IsPlain (codes "frame-ancestors" ∷ ancestors) (refl, k) in
    (refl, (connect, All-append (λ e. IsPlain (words e)) frames _ f (framed, (refl, (refl, tt)))))

pub portal_origins-words :
    (settings : Settings)
    → subdomain_frame_ancestors settings.site_url settings.http_only
      ≡ words (portal_origins settings)
unfolding subdomain_frame_ancestors words
portal_origins-words settings = elim (Bool-cases settings.http_only) [
  | inl t ↦ rw t refl
  | inr t ↦ rw t refl
]

pub app_origins-words :
    (settings : Settings) (slug : Text)
    → launcher_frame_src slug settings.site_url settings.cookies_secure settings.http_only
      ≡ words (app_origins settings slug)
unfolding launcher_frame_src words
app_origins-words settings slug = elim (Bool-cases settings.http_only) [
  | inl t ↦ rw t refl
  | inr t ↦ elim (Bool-cases settings.cookies_secure) [
    | inl k ↦ rw (t, k) refl
    | inr k ↦ rw (t, k) refl
  ]
]

app_host-IsPlain :
    (slug site : Text) → IsPlain slug → IsPlain site → IsPlain (slug ++ (codes ".apps." ++ site))
unfolding semicolons count
app_host-IsPlain slug site h k =
    omega (arith, h, k, semicolons-append slug (codes ".apps." ++ site))

pub portal_origins-IsPlain :
    (settings : Settings) → IsPlain settings.site_url → All IsPlain (portal_origins settings)
unfolding semicolons count
portal_origins-IsPlain settings h = elim (Bool-cases settings.http_only) [
  | inl t ↦ rw t (h, (h, tt))
  | inr t ↦ rw t (h, tt)
]

pub app_origins-IsPlain :
    (settings : Settings) (slug : Text)
    → IsPlain settings.site_url
    → IsPlain slug
    → All IsPlain (app_origins settings slug)
unfolding semicolons count
app_origins-IsPlain settings slug h k =
    let host = app_host-IsPlain slug settings.site_url k h in
    elim (Bool-cases settings.http_only) [
      | inl t ↦ rw t (host, (host, tt))
      | inr t ↦ elim (Bool-cases settings.cookies_secure) [
        | inl c ↦ rw (t, c) (host, tt)
        | inr c ↦ rw (t, c) (host, tt)
      ]
    ]
