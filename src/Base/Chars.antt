-- ===== src/Base/Chars.antt =====
-- Python's `str` where the program walks it: a list of code points. `lower` is exact on the characters
-- whose lower case is one character of Latin-1; every other character stays as it is.
use Prim.Native.Char.{code}
use Prim.Native.Nat.{ℕ, zero, suc, ◌+◌, ◌/◌, ◌%◌}
use Prim.Native.String.{String}
use mathlib.Core.Path.{◌≡◌, refl}
use mathlib.Core.Logic.{◌↔◌}
use mathlib.Core.Bool.{Bool, true, false, not, ◌&&◌, ◌||◌}
use mathlib.Core.Option.{Option, none, some}
use mathlib.Core.List.{List, [], ◌∷◌, ◌++◌, reverse}
use native.Mathlib.Omega.{arith}
use claude_pwa_portal.Base.Tests.{leb, nat_eq, nat_eq_iff, Eq, if◌then◌else◌}

abbrev pub Text : Type 0
Text = List ℕ

-- The text of a literal.
abbrev pub codes : String → Text
codes String.[] = []
codes (String.◌∷◌ c s) = code c ∷ codes s

unfoldable pub text_eq : Text → Text → Bool
text_eq [] [] = true
text_eq (c ∷ s) (d ∷ t) = nat_eq c d && text_eq s t
text_eq _ _ = false

pub text_eq_iff : (s t : Text) → (text_eq s t ≡ true) ↔ (s ≡ t)
unfolding text_eq
text_eq_iff [] [] = (λ h. refl, λ h. refl)
text_eq_iff [] (d ∷ t) = (λ h. cc, λ h. cc)
text_eq_iff (c ∷ s) [] = (λ h. cc, λ h. cc)
text_eq_iff (c ∷ s) (d ∷ t) = ground (arith, nat_eq_iff c d, text_eq_iff s t)

instance abbrev pub Text-Eq : Eq Text
Text-Eq = record { beq = text_eq; beq_iff = text_eq_iff }

-- `str.isspace` of one character.
unfoldable pub is_space : ℕ → Bool
is_space c =
    leb 9 c && leb c 13
    || leb 28 c && leb c 32
    || nat_eq c 133
    || nat_eq c 160
    || nat_eq c 5760
    || leb 8192 c && leb c 8202
    || leb 8232 c && leb c 8233
    || nat_eq c 8239
    || nat_eq c 8287
    || nat_eq c 12288

unfoldable pub lower_char : ℕ → ℕ
lower_char c =
    if leb 65 c && leb c 90 || leb 192 c && leb c 222 && not (nat_eq c 215)
    then c + 32
    else if nat_eq c 376
    then 255
    else if nat_eq c 7838
    then 223
    else if nat_eq c 8490
    then 107
    else if nat_eq c 8491
    then 229
    else c

unfoldable pub lower : Text → Text
unfolding lower_char
lower [] = []
lower (c ∷ s) = lower_char c ∷ lower s

-- Drops the leading characters of which the test holds.
unfoldable pub drop_while : (ℕ → Bool) → Text → Text
drop_while p [] = []
drop_while p (c ∷ s) = if p c then drop_while p s else c ∷ s

unfoldable pub rstrip_by : (ℕ → Bool) → Text → Text
unfolding drop_while
rstrip_by p s = reverse (drop_while p (reverse s))

-- `s.strip()`
unfoldable pub strip : Text → Text
unfolding rstrip_by is_space
strip s = rstrip_by is_space (drop_while is_space s)

unfoldable pub starts_with : Text → Text → Bool
starts_with s [] = true
starts_with [] (d ∷ t) = false
starts_with (c ∷ s) (d ∷ t) = nat_eq c d && starts_with s t

-- `s[n:]`
unfoldable pub drop : ℕ → Text → Text
drop zero s = s
drop (suc n) [] = []
drop (suc n) (c ∷ s) = drop n s

-- `s[:n]`
unfoldable pub take : ℕ → Text → Text
take zero s = []
take (suc n) [] = []
take (suc n) (c ∷ s) = c ∷ take n s

unfoldable pub after_last_from : ℕ → Text → Text → Text
after_last_from sep last [] = last
after_last_from sep last (c ∷ s) =
    let seen = after_last_from sep s s in if nat_eq c sep then seen else after_last_from sep last s

-- What stands behind the last occurrence of a character, or the whole text.
unfoldable pub after_last : ℕ → Text → Text
unfolding after_last_from
after_last sep s = after_last_from sep s s

unfoldable pub decimal_within : ℕ → ℕ → Text
decimal_within zero n = (48 + n % 10) ∷ []
decimal_within (suc fuel) n =
    let higher = decimal_within fuel (n / 10) in
    if leb n 9 then (48 + n) ∷ [] else higher ++ ((48 + n % 10) ∷ [])

-- `str` of an integer, which has at most as many digits as its value where that is positive.
unfoldable pub decimal : ℕ → Text
unfolding decimal_within
decimal n = decimal_within n n

abbrev pub push : ℕ → List Text → List Text
push c [] = (c ∷ []) ∷ []
push c (part ∷ parts) = (c ∷ part) ∷ parts

-- `s.split(sep)`, of a separator of one character
unfoldable pub split_on : ℕ → Text → List Text
split_on sep [] = [] ∷ []
split_on sep (c ∷ s) = let rest = split_on sep s in if nat_eq c sep then [] ∷ rest else push c rest

-- `all(p(c) for c in s)`
unfoldable pub all_chars : (ℕ → Bool) → Text → Bool
all_chars p [] = true
all_chars p (c ∷ s) = p c && all_chars p s

-- The text without the line break that ends it: where Python's `$` lets a match end.
unfoldable pub chop_newline : Text → Text
chop_newline [] = []
chop_newline (c ∷ []) = if nat_eq c 10 then [] else c ∷ []
chop_newline (c ∷ d ∷ s) = c ∷ chop_newline (d ∷ s)

-- What stands before the first occurrence of a character, and what behind it.
unfoldable pub split_first : ℕ → Text → Text × Option Text
split_first sep [] = ([], none)
split_first sep (c ∷ s) =
    let (before, behind) = split_first sep s in
    if nat_eq c sep then ([], some s) else (c ∷ before, behind)

abbrev is_empty : Text → Bool
is_empty [] = true
is_empty (c ∷ s) = false

-- `[a-z0-9]`
unfoldable pub is_slug_char : ℕ → Bool
is_slug_char c = leb 97 c && leb c 122 || leb 48 c && leb c 57

-- `SLUG_RE` of portal/apps.py and `_SLUG_RE` of portal/middleware.py, from a place in it: `started` says that a letter or digit stands before. The `$` of Python
-- also stands before a line break that ends the text.
unfoldable pub matches_from : Bool → Text → Bool
unfolding is_slug_char
matches_from started [] = started
matches_from started (c ∷ s) =
    let after_char = matches_from true s in
    let after_hyphen = matches_from false s in
    if is_slug_char c
    then after_char
    else started && (nat_eq c 45 && after_hyphen || nat_eq c 10 && is_empty s)

unfoldable pub matches_slug : Text → Bool
unfolding matches_from
matches_slug slug = matches_from false slug
