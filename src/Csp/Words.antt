-- ===== src/Csp/Words.antt =====
-- portal/middleware.py, the header of a policy as a list of directives, each a list of words: what
-- stands between its semicolons.
use claude_pwa_portal.Base.{
  ◌+◌, Text, Text-Eq, ◌≡◌, refl, ap, ◌∙◌, List, [], ◌∷◌, ◌++◌, arith, map, ◌==◌, ℕ-Eq, Bool-cases,
  inl, inr,
}
use claude_pwa_portal.Base.Chars.{split_on}
use claude_pwa_portal.Base.Table.{count, All}
use claude_pwa_portal.Manifest.Origins.Separators.{semicolons}

pub semicolons-append : (s t : Text) → semicolons (s ++ t) ≡ semicolons s + semicolons t
unfolding semicolons count
semicolons-append [] t = omega arith
semicolons-append (c ∷ s) t = ground (arith, semicolons-append s t)

pub append_nil : (s : Text) → s ++ [] ≡ s
append_nil [] = refl
append_nil (c ∷ s) = ap (λ t. c ∷ t) (append_nil s)

pub append_assoc : (s t u : Text) → (s ++ t) ++ u ≡ s ++ (t ++ u)
append_assoc [] t u = refl
append_assoc (c ∷ s) t u = ap (λ r. c ∷ r) (append_assoc s t u)

-- The words of a directive, with spaces between them.
unfoldable pub words : List Text → Text
words [] = []
words (w ∷ []) = w
words (w ∷ v ∷ ws) = w ++ (32 ∷ words (v ∷ ws))

-- What stands between the semicolons of a header: the directives, with a space before each but the
-- first.
abbrev pub between : List (List Text) → List Text
between [] = []
between (d ∷ ds) = words d ∷ map (λ e. 32 ∷ words e) ds

-- A text without a semicolon.
abbrev pub IsPlain : Text → Type 0
IsPlain s = semicolons s ≡ 0

pub words-IsPlain : (ws : List Text) → All IsPlain ws → IsPlain (words ws)
unfolding words semicolons count
words-IsPlain [] h = refl
words-IsPlain (w ∷ []) h = h.0
words-IsPlain (w ∷ v ∷ ws) h =
    omega (arith, h.0, semicolons-append w (32 ∷ words (v ∷ ws)), words-IsPlain (v ∷ ws) h.1)

-- `"; ".join(directives)`
unfoldable pub join : List (List Text) → Text
join [] = []
join (d ∷ []) = words d
join (d ∷ e ∷ ds) = words d ++ (59 ∷ 32 ∷ join (e ∷ ds))

split_on-plain : (s : Text) → IsPlain s → split_on 59 s ≡ s ∷ []
unfolding split_on semicolons count
split_on-plain [] h = refl
split_on-plain (c ∷ s) h = elim (Bool-cases (c == 59)) [
  | inl t ↦ absurd (ground (arith, rw t at h))
  | inr t ↦ rw (t, split_on-plain s (rw t at h)) refl
]

split_on-append : (s t : Text) → IsPlain s → split_on 59 (s ++ (59 ∷ t)) ≡ s ∷ split_on 59 t
unfolding split_on semicolons count
split_on-append [] t h = refl
split_on-append (c ∷ s) t h = elim (Bool-cases (c == 59)) [
  | inl k ↦ absurd (ground (arith, rw k at h))
  | inr k ↦ rw (k, split_on-append s t (rw k at h)) refl
]

join-spaced :
    (ds : List (List Text)) (d : List Text)
    → All (λ e. IsPlain (words e)) (d ∷ ds)
    → split_on 59 (32 ∷ join (d ∷ ds)) ≡ map (λ e. 32 ∷ words e) (d ∷ ds)
unfolding join semicolons count
join-spaced [] d h = split_on-plain (32 ∷ words d) h.0
join-spaced (e ∷ ds) d h =
    split_on-append (32 ∷ words d) (32 ∷ join (e ∷ ds)) h.0
    ∙ ap (λ r. (32 ∷ words d) ∷ r) (join-spaced ds e h.1)

pub split_on-join :
    (d : List Text) (ds : List (List Text))
    → All (λ e. IsPlain (words e)) (d ∷ ds)
    → split_on 59 (join (d ∷ ds)) ≡ between (d ∷ ds)
unfolding join
split_on-join d [] h = split_on-plain (words d) h.0
split_on-join d (e ∷ ds) h =
    split_on-append (words d) (32 ∷ join (e ∷ ds)) h.0
    ∙ ap (λ r. words d ∷ r) (join-spaced ds e h.1)
