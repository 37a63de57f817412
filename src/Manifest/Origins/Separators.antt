-- ===== src/Manifest/Origins/Separators.antt =====
-- portal/apps.py, `_ORIGIN_RE`: the semicolons of an origin.
use claude_pwa_portal.Base.{
  ℕ, ◌+◌, Text, codes, ◌≡◌, refl, Bool, true, ◌&&◌, Option, none, some, List, [], ◌∷◌, arith, ◌==◌,
  ℕ-Eq, if◌then◌else◌, length,
}
use claude_pwa_portal.Base.Chars.{
  starts_with, drop, split_on, split_first, push, all_chars, chop_newline,
}
use claude_pwa_portal.Base.Table.{count}
use claude_pwa_portal.Manifest.Origins.{
  is_digit, label_rest, is_label, all_labels, is_port, matches_origin,
}

-- How often a text holds a semicolon.
unfoldable pub semicolons : Text → ℕ
unfolding count
semicolons s = count (λ c. c == 59) s

label_rest-semicolons : (s : Text) → label_rest s ≡ true → semicolons s ≡ 0
unfolding label_rest semicolons count
label_rest-semicolons [] h = refl
label_rest-semicolons (c ∷ []) h = ground arith
label_rest-semicolons (c ∷ d ∷ s) h = ground (arith, label_rest-semicolons (d ∷ s))

is_label-semicolons : (s : Text) → is_label s ≡ true → semicolons s ≡ 0
unfolding is_label semicolons count
is_label-semicolons [] h = refl
is_label-semicolons (c ∷ s) h = ground (arith, label_rest-semicolons s)

-- The semicolons of all the parts.
in_parts : List Text → ℕ
in_parts [] = 0
in_parts (part ∷ parts) = semicolons part + in_parts parts

all_labels-in_parts : (parts : List Text) → all_labels parts ≡ true → in_parts parts ≡ 0
unfolding all_labels in_parts
all_labels-in_parts [] h = refl
all_labels-in_parts (part ∷ parts) h =
    ground (arith, is_label-semicolons part, all_labels-in_parts parts)

push-in_parts :
    (c : ℕ) (parts : List Text)
    → in_parts (push c parts) ≡ (if c == 59 then 1 else 0) + in_parts parts
unfolding in_parts semicolons count
push-in_parts c [] = ground arith
push-in_parts c (part ∷ parts) = ground arith

split_on-semicolons : (s : Text) → in_parts (split_on 46 s) ≡ semicolons s
unfolding split_on in_parts semicolons count
split_on-semicolons [] = refl
split_on-semicolons (c ∷ s) = ground (arith, split_on-semicolons s, push-in_parts c (split_on 46 s))

behind : Option Text → ℕ
behind none = 0
behind (some s) = semicolons s

split_first-semicolons :
    (s : Text) → semicolons (split_first 58 s).0 + behind (split_first 58 s).1 ≡ semicolons s
unfolding split_first behind semicolons count
split_first-semicolons [] = refl
split_first-semicolons (c ∷ s) = ground (arith, split_first-semicolons s)

chop_newline-semicolons : (s : Text) → semicolons (chop_newline s) ≡ semicolons s
unfolding chop_newline semicolons count
chop_newline-semicolons [] = refl
chop_newline-semicolons (c ∷ []) = ground arith
chop_newline-semicolons (c ∷ d ∷ s) = ground (arith, chop_newline-semicolons (d ∷ s))

digits-semicolons : (s : Text) → all_chars is_digit s ≡ true → semicolons s ≡ 0
unfolding all_chars semicolons count
digits-semicolons [] h = refl
digits-semicolons (c ∷ s) h = ground (arith, digits-semicolons s)

is_port-semicolons : (port : Option Text) → is_port port ≡ true → behind port ≡ 0
unfolding is_port behind semicolons count
is_port-semicolons none h = refl
is_port-semicolons (some s) h = ground (arith, digits-semicolons s)

starts_with-semicolons :
    (s p : Text)
    → starts_with s p ≡ true
    → semicolons s ≡ semicolons p + semicolons (drop (length p) s)
unfolding starts_with drop semicolons count
starts_with-semicolons s [] h = omega arith
starts_with-semicolons [] (d ∷ p) h = absurd (cc)
starts_with-semicolons (c ∷ s) (d ∷ p) h = ground (arith, starts_with-semicolons s p)

all_three : (a b c : Bool) → (a && b && c) ≡ true → (a ≡ true) × (b ≡ true) × (c ≡ true)
all_three a b c h = (ground arith, ground arith, ground arith)

scheme-semicolons : semicolons (codes "https://") ≡ 0
unfolding semicolons count
scheme-semicolons = refl

host-semicolons : (host : Text) → all_labels (split_on 46 host) ≡ true → semicolons host ≡ 0
host-semicolons host h =
    omega (arith, split_on-semicolons host, all_labels-in_parts (split_on 46 host) h)

pub matches_origin-semicolons : (o : Text) → matches_origin o ≡ true → semicolons o ≡ 0
unfolding matches_origin
matches_origin-semicolons o h =
    let rest = chop_newline (drop 8 o) in
    let parts =
      all_three (starts_with o (codes "https://"))
        (all_labels (split_on 46 (split_first 58 rest).0)) (is_port (split_first 58 rest).1) h in
    omega (
      arith,
      starts_with-semicolons o (codes "https://") parts.0,
      scheme-semicolons,
      chop_newline-semicolons (drop 8 o),
      split_first-semicolons rest,
      host-semicolons (split_first 58 rest).0 parts.1,
      is_port-semicolons (split_first 58 rest).1 parts.2,
    )
