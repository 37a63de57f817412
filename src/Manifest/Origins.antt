-- ===== src/Manifest/Origins.antt =====
-- portal/apps.py, the origins that an app asks to reach: `_ORIGIN_RE` and the validator of
-- `permissions.network`.
pub mod Separators
use claude_pwa_portal.Base.{
  ℕ, ◌+◌, ◌*◌, String, Text, Text-Eq, codes, Bool, true, false, not, ◌&&◌, ◌||◌, Option, none, some,
  List, [], ◌∷◌, ◌++◌, map, ltb, leb, ◌==◌, String-Eq, ℕ-Eq, if◌then◌else◌, contains, length,
  is_none,
}
use claude_pwa_portal.Base.Chars.{
  lower, strip, rstrip_by, starts_with, drop, split_on, split_first, all_chars, chop_newline,
  matches_slug, after_last,
}

abbrev pub is_lower : ℕ → Bool
is_lower c = leb 97 c && leb c 122

abbrev pub is_digit : ℕ → Bool
is_digit c = leb 48 c && leb c 57

abbrev is_alnum : ℕ → Bool
is_alnum c = is_lower c || leb 65 c && leb c 90 || is_digit c

-- `_ORIGIN_RE`: one label of a host name, from its second character on
label_rest : Text → Bool
label_rest [] = true
label_rest (c ∷ []) = is_alnum c
label_rest (c ∷ d ∷ s) = (is_alnum c || c == 45) && label_rest (d ∷ s)

is_label : Text → Bool
unfolding label_rest
is_label [] = false
is_label (c ∷ s) = is_alnum c && label_rest s && leb (length s) 62

all_labels : List Text → Bool
unfolding is_label
all_labels [] = true
all_labels (s ∷ parts) = is_label s && all_labels parts

is_port : Option Text → Bool
unfolding all_chars
is_port none = true
is_port (some digits) = leb 1 (length digits) && leb (length digits) 5 && all_chars is_digit digits

unfoldable pub matches_origin : Text → Bool
unfolding all_labels is_port split_on split_first chop_newline starts_with drop
matches_origin s =
    let (host, port) = split_first 58 (chop_newline (drop 8 s)) in
    starts_with s (codes "https://") && all_labels (split_on 46 host) && is_port port

-- `raw.strip().lower().rstrip("/")`
unfoldable pub normal_origin : Text → Text
unfolding strip lower rstrip_by
normal_origin raw = rstrip_by (λ c. c == 47) (lower (strip raw))

-- The loop over the origins; an origin that was seen is dropped.
unfoldable pub collect_origins : List Text → List Text → Option (List Text)
unfolding normal_origin matches_origin
collect_origins out [] = some out
collect_origins out (raw ∷ v) =
    let norm = normal_origin raw in
    let again = collect_origins out v in
    let added = collect_origins (out ++ (norm ∷ [])) v in
    if not (matches_origin norm) then none else if contains out norm then again else added

unfoldable pub origins_valid : List Text → Option (List Text)
unfolding collect_origins
origins_valid v = if ltb 12 (length v) then none else collect_origins [] v
