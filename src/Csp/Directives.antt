-- ===== src/Csp/Directives.antt =====
-- portal/middleware.py, the policy of an app's responses as a browser reads it.
use claude_pwa_portal.Base.{
  Text, Text-Eq, text_eq, codes, ◌≡◌, refl, Bool, true, false, Option, none, some, List, [], ◌∷◌,
  ◌==◌, ℕ-Eq, Bool-cases, inl, inr,
}
use claude_pwa_portal.Base.Chars.{split_on}
use claude_pwa_portal.Base.Table.{count, All, first-All}
use claude_pwa_portal.Models.{App, Db}
use claude_pwa_portal.Manifest.Origins.Separators.{semicolons}
use claude_pwa_portal.Apps.{find_app, has_slug}
use claude_pwa_portal.Apps.Origins.{IsOrigin, OriginsValid, AllValid}
use claude_pwa_portal.Csp.{
  strict_csp, permissive_csp, strict_with, build_child_app_csp, subdomain_frame_ancestors,
  launcher_frame_src, Settings, is_strict, policy, app_csp,
}
use claude_pwa_portal.Csp.Words.{words, between, join, IsPlain, words-IsPlain, split_on-join}
use claude_pwa_portal.Csp.Listed.{
  self, strict_directives, permissive_directives, portal_origins, app_origins, directives,
  strict_csp-join, permissive_csp-join, permissive_csp-join_frames, origins-IsPlain, PlainInputs,
  strict_directives-IsPlain, permissive_directives-IsPlain, portal_origins-words, app_origins-words,
  portal_origins-IsPlain, app_origins-IsPlain,
}

-- A header that joins directives without semicolons is read as those directives.
abbrev pub Reads : Option Text → List (List Text) → Type 0
Reads answer ds = (header : Text) × (answer ≡ some header) × (split_on 59 header ≡ between ds)

joined-Reads :
    (d : List Text) (ds : List (List Text)) {header : Text}
    → header ≡ join (d ∷ ds)
    → All (λ e. IsPlain (words e)) (d ∷ ds)
    → Reads (some header) (d ∷ ds)
joined-Reads d ds {header} e h = (header, refl, rw e (split_on-join d ds h))

-- The list has a first item.
abbrev IsFilled : List Text → Type 0
IsFilled xs = (x : Text) × (rest : List Text) × (xs ≡ x ∷ rest)

strict-Reads :
    (origins : List Text) (fa : Text) (ancestors : List Text) (nonce : Text)
    → IsFilled ancestors
    → fa ≡ words ancestors
    → All IsOrigin origins
    → All IsPlain ancestors
    → IsPlain nonce
    → Reads (some (strict_csp origins fa none nonce)) (strict_directives origins ancestors nonce)
strict-Reads origins fa ancestors nonce (a, rest, c) e h k n =
    let joined : strict_csp origins fa none nonce
        ≡ join (strict_directives origins ancestors nonce) =
      rw (e, c) (strict_csp-join origins a rest nonce h) in
    joined-Reads _ _ joined
      (strict_directives-IsPlain origins ancestors nonce (origins-IsPlain origins h) k n)

permissive-Reads :
    (origins : List Text) (fa : Text) (ancestors : List Text)
    → IsFilled ancestors
    → fa ≡ words ancestors
    → All IsOrigin origins
    → All IsPlain ancestors
    → Reads (some (permissive_csp origins fa none)) (permissive_directives origins ancestors [])
permissive-Reads origins fa ancestors (a, rest, c) e h k =
    let joined : permissive_csp origins fa none
        ≡ join (permissive_directives origins ancestors []) =
      rw (e, c) (permissive_csp-join origins a rest h) in
    joined-Reads _ _ joined
      (permissive_directives-IsPlain origins ancestors [] (origins-IsPlain origins h) k tt)

frames-Reads :
    (origins : List Text) (fa : Text) (ancestors : List Text) (src : Text) (frames : List Text)
    → IsFilled ancestors
    → fa ≡ words ancestors
    → IsFilled frames
    → src ≡ words frames
    → (src == []) ≡ false
    → All IsOrigin origins
    → All IsPlain ancestors
    → All IsPlain frames
    → Reads
        (some (permissive_csp origins fa (some src)))
        (permissive_directives origins ancestors ((codes "frame-src" ∷ frames) ∷ []))
unfolding semicolons count
frames-Reads origins fa ancestors src frames (a, rest, c) e (b, more, d) s given h k f =
    let joined : permissive_csp origins fa (some src)
        ≡ join (permissive_directives origins ancestors ((codes "frame-src" ∷ frames) ∷ [])) =
      rw (e, s, c, d)
        (permissive_csp-join_frames origins a rest b more h (rw d at (rw s at given))) in
    joined-Reads _ _ joined (
      permissive_directives-IsPlain origins ancestors ((codes "frame-src" ∷ frames) ∷ [])
        (origins-IsPlain origins h) k (words-IsPlain (codes "frame-src" ∷ frames) (refl, f), tt))

portal_origins-IsFilled : (settings : Settings) → IsFilled (portal_origins settings)
portal_origins-IsFilled settings = elim (Bool-cases settings.http_only) [
  | inl t ↦ rw t (_, _, refl)
  | inr t ↦ rw t (_, _, refl)
]

app_origins-IsFilled : (settings : Settings) (slug : Text) → IsFilled (app_origins settings slug)
app_origins-IsFilled settings slug = elim (Bool-cases settings.http_only) [
  | inl t ↦ rw t (_, _, refl)
  | inr t ↦ elim (Bool-cases settings.cookies_secure) [
    | inl c ↦ rw (t, c) (_, _, refl)
    | inr c ↦ rw (t, c) (_, _, refl)
  ]
]

frame_src_given :
    (slug site_url : Text) (secure http_only : Bool)
    → (launcher_frame_src slug site_url secure http_only == []) ≡ false
unfolding launcher_frame_src text_eq
frame_src_given slug site_url secure true = refl
frame_src_given slug site_url true false = refl
frame_src_given slug site_url false false = refl

self-words : self ≡ words (self ∷ [])
unfolding words
self-words = refl

self-IsPlain : IsPlain self
unfolding semicolons count
self-IsPlain = refl

policy-Reads :
    (settings : Settings) (on_subdomain : Bool) (slug path nonce : Text) (app_row : App)
    → OriginsValid app_row
    → PlainInputs settings slug nonce
    → (nonce == []) ≡ false
    → Reads
        (policy settings on_subdomain slug path nonce app_row)
        (directives settings on_subdomain slug path nonce app_row)
unfolding policy build_child_app_csp strict_with
policy-Reads settings true slug path nonce app_row valid plain drawn =
    let ancestors = subdomain_frame_ancestors settings.site_url settings.http_only in
    elim (Bool-cases (is_strict true path app_row)) [
      | inl t ↦
          rw (t, drawn)
            (strict-Reads app_row.allowed_origins ancestors (portal_origins settings) nonce
              (portal_origins-IsFilled settings) (portal_origins-words settings) valid.1
              (portal_origins-IsPlain settings plain.0) plain.2)
      | inr t ↦ rw t (
          permissive-Reads app_row.allowed_origins ancestors (portal_origins settings)
            (portal_origins-IsFilled settings) (portal_origins-words settings) valid.1
            (portal_origins-IsPlain settings plain.0))
    ]
policy-Reads settings false slug path nonce app_row valid plain drawn =
    let source =
      launcher_frame_src slug settings.site_url settings.cookies_secure settings.http_only in
    elim (Bool-cases settings.child_apps_same_origin) [
      | inl t ↦ rw t (
          permissive-Reads app_row.allowed_origins self (self ∷ []) (_, _, refl) self-words valid.1
            (self-IsPlain, tt))
      | inr t ↦ rw t (
          frames-Reads app_row.allowed_origins self (self ∷ []) source (app_origins settings slug)
            (_, _, refl) self-words (app_origins-IsFilled settings slug)
            (app_origins-words settings slug)
            (frame_src_given slug settings.site_url settings.cookies_secure settings.http_only)
            valid.1 (self-IsPlain, tt) (app_origins-IsPlain settings slug plain.0 plain.1))
    ]

-- Where every app reaches origins only, and the site, the slug and the nonce hold no semicolon, the
-- response of an app that is there carries a policy, and what stands between its semicolons are
-- exactly the words that `directives` lists: those of the portal, with the origins that the app may reach as the
-- only further sources of `connect-src`, and the nonce as the only further source of scripts and
-- styles where the app asks for the strict policy.
pub app_csp-directives :
    (settings : Settings) (on_subdomain : Bool) (slug path nonce : Text) (app_row : App) (db : Db)
    → AllValid db
    → find_app slug db ≡ some app_row
    → PlainInputs settings slug nonce
    → (nonce == []) ≡ false
    → Reads
        (app_csp settings on_subdomain slug path nonce db)
        (directives settings on_subdomain slug path nonce app_row)
unfolding app_csp find_app
app_csp-directives settings on_subdomain slug path nonce app_row db valid found plain drawn =
    rw (found, app_csp)
      (policy-Reads settings on_subdomain slug path nonce app_row
        (first-All OriginsValid (has_slug slug) db.apps valid found) plain drawn)
