-- ===== src/Hosts/Slugs.antt =====
-- portal/middleware.py, `resolve_app_slug_from_host`: the hosts that name an app.
use mathlib.Core.Option.{some-injective}
use claude_pwa_portal.Base.{
  ℕ, ◌+◌, Text, Text-Eq, text_eq, text_eq_iff, ◌≡◌, ◌≢◌, ◌↔◌, refl, sym, ap, ◌∙◌, true, false,
  Option, none, some, [], ◌∷◌, ◌++◌, arith, ◌==◌, ℕ-Eq, length, Bool-cases, Option-cases, inl, inr,
}
use claude_pwa_portal.Base.Chars.{matches_slug}
use claude_pwa_portal.Hosts.{
  without_suffix, valid_slug, normal_host, apps_base, resolve_app_slug_from_host,
}

suffix-append : (base host slug : Text) → without_suffix base host ≡ some slug → host ≡ slug ++ base
unfolding without_suffix
suffix-append base [] slug e = elim (Bool-cases ([] == base)) [
  | inl t ↦ ground (arith, rw t at e, (text_eq_iff [] base).0 t)
  | inr f ↦ absurd (cc (rw f at e))
]
suffix-append base (c ∷ s) slug e = elim (Bool-cases (c ∷ s == base)) [
  | inl t ↦ ground (arith, rw t at e, (text_eq_iff (c ∷ s) base).0 t)
  | inr f ↦ elim (Option-cases (without_suffix base s)) [
    | inl n ↦ absurd (cc (rw n at (rw f at e)))
    | inr (rest, n) ↦ ground (arith, rw n at (rw f at e), suffix-append base s rest n)
  ]
]

length-append_text : (s t : Text) → length (s ++ t) ≡ length s + length t
length-append_text [] t = omega arith
length-append_text (c ∷ s) t = omega (arith, length-append_text s t)

longer-differs : (c : ℕ) (slug base : Text) → (c ∷ slug ++ base == base) ≡ false
longer-differs c slug base = elim (Bool-cases (c ∷ slug ++ base == base)) [
  | inr f ↦ f
  | inl t ↦ absurd (
      omega (
        arith,
        length-append_text slug base,
        ap (λ (x : Text). length x) ((text_eq_iff (c ∷ slug ++ base) base).0 t),
      ))
]

append-suffix : (base slug : Text) → without_suffix base (slug ++ base) ≡ some slug
unfolding without_suffix text_eq
append-suffix [] [] = refl
append-suffix (b ∷ base) [] = rw ((text_eq_iff (b ∷ base) (b ∷ base)).1 refl) refl
append-suffix base (c ∷ slug) = rw (longer-differs c slug base) (rw (append-suffix base slug) refl)

given : (s : Text) → s ≢ [] → (s == []) ≡ false
given [] h = absurd (h refl)
given (c ∷ s) h = unfold text_eq in refl

module _ (base host slug : Text) where
  checked :
      (found : Option Text)
      → without_suffix base host ≡ found
      → (valid_slug found ≡ some slug) ↔ ((host ≡ slug ++ base) × (matches_slug slug ≡ true))
  unfolding valid_slug
  checked none e = (
    λ v. absurd (cc),
    λ (p : (host ≡ slug ++ base) × (matches_slug slug ≡ true)).
        absurd (cc (sym e ∙ ap (λ x. without_suffix base x) p.0 ∙ append-suffix base slug)),
  )
  checked (some found) e = (
    λ v. ground (arith, v, suffix-append base host found e),
    λ (p : (host ≡ slug ++ base) × (matches_slug slug ≡ true)).
        let same = sym e ∙ ap (λ x. without_suffix base x) p.0 ∙ append-suffix base slug in
        rw (some-injective _ _ same) (rw p.1 refl),
  )

-- Where neither the host nor the site's address is empty, a host names the app with a slug exactly if,
-- in lower case and without its port and final dots, it is that slug followed by `.apps.` and the
-- site's address, and the slug matches the pattern of slugs.
pub resolve_app_slug_from_host_iff :
    (host site_url slug : Text)
    → host ≢ []
    → site_url ≢ []
    → (resolve_app_slug_from_host host site_url ≡ some slug)
      ↔ ((normal_host host ≡ slug ++ apps_base site_url) × (matches_slug slug ≡ true))
unfolding resolve_app_slug_from_host valid_slug
resolve_app_slug_from_host_iff host site_url slug h k = rw (given host h) (
    rw (given site_url k) (
      checked (apps_base site_url) (normal_host host) slug
        (without_suffix (apps_base site_url) (normal_host host)) refl))
