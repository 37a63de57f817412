-- ===== src/Manifest/Slugs.antt =====
-- portal/apps.py, `SLUG_RE`: what a slug that it matches is made of.
use mathlib.Core.Path.{subst}
use claude_pwa_portal.Base.{
  ℕ, Text, Text-Eq, ◌≡◌, refl, sym, Bool, true, false, not, ◌&&◌, ◌||◌, List, [], ◌∷◌, arith, leb,
  ◌==◌, ℕ-Eq, nat_eq_iff, if◌then◌else◌, Bool-cases, inl, inr,
}
use claude_pwa_portal.Base.Chars.{
  is_slug_char, matches_from, matches_slug, split_on, push, all_chars, chop_newline,
}
use claude_pwa_portal.Base.Table.{All}

-- `[a-z0-9]`
abbrev pub is_kebab_char : ℕ → Bool
is_kebab_char c = leb 97 c && leb c 122 || leb 48 c && leb c 57

-- One word of a slug.
abbrev pub IsWord : Text → Type 0
IsWord part = ((part == []) ≡ false) × (all_chars is_kebab_char part ≡ true)

-- Words of letters and digits with one hyphen between two; a line break may end them.
abbrev pub IsKebab : Text → Type 0
IsKebab slug = All IsWord (split_on 45 (chop_newline slug))

-- The words of the rest of a slug, of which the first may be empty where it was started before.
abbrev Rest : Bool → List Text → Type 0
Rest started [] = true ≡ false
Rest started (part ∷ parts) =
    ((started || not (part == [])) ≡ true)
    × (all_chars is_kebab_char part ≡ true)
    × All IsWord parts

slug_char-kebab : (c : ℕ) → is_slug_char c ≡ true → is_kebab_char c ≡ true
unfolding is_slug_char
slug_char-kebab c h = h

hyphen : is_slug_char 45 ≡ false
unfolding is_slug_char
hyphen = refl

line_break : is_slug_char 10 ≡ false
unfolding is_slug_char
line_break = refl

slug_char-hyphen : (c : ℕ) → is_slug_char c ≡ true → (c == 45) ≡ false
slug_char-hyphen c h = elim (Bool-cases (c == 45)) [
  | inr t ↦ t
  | inl t ↦ absurd (cc (subst (λ d. is_slug_char d ≡ true) ((nat_eq_iff c 45).0 t) h, hyphen))
]

slug_char-line_break : (c : ℕ) → is_slug_char c ≡ true → (c == 10) ≡ false
slug_char-line_break c h = elim (Bool-cases (c == 10)) [
  | inr t ↦ t
  | inl t ↦ absurd (cc (subst (λ d. is_slug_char d ≡ true) ((nat_eq_iff c 10).0 t) h, line_break))
]

Rest-push :
    (c : ℕ) (parts : List Text) (started : Bool)
    → is_slug_char c ≡ true
    → Rest true parts
    → Rest started (push c parts)
unfolding all_chars claude_pwa_portal.Base.text_eq
Rest-push c [] started h r = absurd (cc)
Rest-push c (part ∷ parts) started h (a, b, d) = (ground arith, rw (slug_char-kebab c h) b, d)

Rest-words : (parts : List Text) → Rest false parts → All IsWord parts
Rest-words [] r = absurd (cc)
Rest-words (part ∷ parts) (a, b, d) = ((ground (arith, a), b), d)

started_hyphen :
    (started a b : Bool) → (started && (a || b)) ≡ true → b ≡ false → (started ≡ true) × (a ≡ true)
started_hyphen started a b h k = (ground (arith, h), ground (arith, h, k))

matches_from-Rest :
    (started : Bool) (s : Text)
    → matches_from started s ≡ true
    → Rest started (split_on 45 (chop_newline s))
unfolding matches_from split_on chop_newline all_chars
matches_from-Rest started [] h = (ground (arith, h), refl, tt)
matches_from-Rest started (c ∷ []) h = elim (Bool-cases (is_slug_char c)) [
  | inl t ↦
      rw (slug_char-line_break c t, slug_char-hyphen c t)
        (Rest-push c ([] ∷ []) started t (ground arith, refl, tt))
  | inr t ↦ elim (Bool-cases (c == 10)) [
    | inl n ↦ rw n (ground (arith, rw t at h), refl, tt)
    | inr n ↦ absurd (ground (arith, n, rw t at h))
  ]
]
matches_from-Rest started (c ∷ d ∷ s) h = elim (Bool-cases (is_slug_char c)) [
  | inl t ↦ rw (slug_char-hyphen c t) (
      Rest-push c (split_on 45 (chop_newline (d ∷ s))) started t
        (matches_from-Rest true (d ∷ s) (rw t at h)))
  | inr t ↦ elim (Bool-cases (c == 45)) [
    | inl n ↦ rw n (
      ground (arith, rw t at h),
      refl,
      Rest-words (split_on 45 (chop_newline (d ∷ s)))
          (matches_from-Rest false (d ∷ s) (ground (arith, rw t at h))),
    )
    | inr n ↦ absurd (ground (arith, n, rw t at h))
  ]
]

pub matches_slug-IsKebab : (slug : Text) → matches_slug slug ≡ true → IsKebab slug
unfolding matches_slug
matches_slug-IsKebab slug h =
    Rest-words (split_on 45 (chop_newline slug)) (matches_from-Rest false slug h)
