-- ===== src/Manifest/Accepted.antt =====
-- portal/apps.py, the validation of `portal.json`: the manifest that it answers with.
use mathlib.Core.Option.{some-injective}
use mathlib.Core.Path.{subst}
use claude_pwa_portal.Base.{
  suc, ◌+◌, ◌≤◌, String, Text, Text-Eq, text_eq_iff, ◌≡◌, refl, ap, Bool, true, false, not, ◌&&◌,
  ◌||◌, Option, none, some, List, [], ◌∷◌, ◌++◌, map, arith, ltb, ◌==◌, String-Eq, ℕ-Eq, contains,
  length, Bool-cases, Option-cases, inl, inr,
}
use claude_pwa_portal.Base.Chars.{matches_slug, all_chars, strip}
use claude_pwa_portal.Base.Table.{All, All-append}
use claude_pwa_portal.Manifest.Slugs.{IsKebab, matches_slug-IsKebab}
use claude_pwa_portal.Manifest.{
  has_dups, required_services, all_in, tools_declare_services, notify_valid, form_valid,
  forms_valid, shape_valid, accept, validate_manifest, allowed_services, tool_valid, all_valid,
  form_shape_valid,
}
use claude_pwa_portal.Manifest.Origins.{
  matches_origin, normal_origin, collect_origins, origins_valid,
}
use claude_pwa_portal.Manifest.Schema.{Tool, Form, Manifest}

length-snoc : {A : Type 0} (xs : List A) (a : A) → length (xs ++ (a ∷ [])) ≡ suc (length xs)
length-snoc [] a = refl
length-snoc (x ∷ xs) a = ap suc (length-snoc xs a)

-- No name stands twice in the list.
abbrev pub Distinct : List Text → Type 0
Distinct [] = Unit
Distinct (n ∷ names) = (contains names n ≡ false) × Distinct names

has_dups-Distinct : (names : List Text) → has_dups names ≡ false → Distinct names
unfolding has_dups
has_dups-Distinct [] h = tt
has_dups-Distinct (n ∷ names) h = (ground arith, has_dups-Distinct names (ground arith))

abbrev pub Declared : List String → List String → Type 0
Declared services wanted = All (λ s. contains services s ≡ true) wanted

all_in-Declared :
    (known services : List String) → all_in known services ≡ true → Declared known services
unfolding all_in
all_in-Declared known [] h = tt
all_in-Declared known (s ∷ services) h =
    (ground arith, all_in-Declared known services (ground arith))

tools-Declared :
    (services : List String) (tools : List Tool)
    → tools_declare_services services tools ≡ true
    → All (λ t. Declared services (required_services t)) tools
unfolding tools_declare_services
tools-Declared services [] h = tt
tools-Declared services (t ∷ tools) h = (
  all_in-Declared services (required_services t) (ground arith),
  tools-Declared services tools (ground arith),
)

all_valid-All :
    {A : Type 0} (p : A → Bool) (xs : List A) → all_valid p xs ≡ true → All (λ x. p x ≡ true) xs
unfolding all_valid
all_valid-All p [] h = tt
all_valid-All p (x ∷ xs) h = (ground arith, all_valid-All p xs (ground arith))

contains-append :
    (xs ys : List Text) (a : Text) → contains (xs ++ ys) a ≡ (contains xs a || contains ys a)
contains-append [] ys a = refl
contains-append (x ∷ xs) ys a = ground (arith, contains-append xs ys a)

Distinct-append :
    (xs : List Text) (a : Text) → Distinct xs → contains xs a ≡ false → Distinct (xs ++ (a ∷ []))
Distinct-append [] a d h = (refl, tt)
Distinct-append (x ∷ xs) a d h = (
  ground (arith, d.0, contains-append xs (a ∷ []) x, text_eq_iff a x, text_eq_iff x a),
  Distinct-append xs a d.1 (ground arith),
)

-- Origins that may stand in a header: each in the form of an origin, and none twice.
abbrev pub Origins : List Text → Type 0
Origins out = All (λ o. matches_origin o ≡ true) out × Distinct out

collect_origins-Origins :
    (out v : List Text) {network : List Text}
    → Origins out
    → collect_origins out v ≡ some network
    → Origins network
unfolding collect_origins
collect_origins-Origins out [] held e = subst Origins (some-injective _ _ e) held
collect_origins-Origins out (raw ∷ v) held e =
    elim (Bool-cases (matches_origin (normal_origin raw))) [
      | inr bad ↦ absurd (cc (rw bad at e))
      | inl good ↦ elim (Bool-cases (contains out (normal_origin raw))) [
        | inl seen ↦ collect_origins-Origins out v held (rw seen at (rw good at e))
        | inr fresh ↦
            collect_origins-Origins (out ++ (normal_origin raw ∷ [])) v
              (
                All-append _ out _ held.0 (good, tt),
                Distinct-append out (normal_origin raw) held.1 fresh,
              )
              (rw fresh at (rw good at e))
      ]
    ]

collect_origins-length :
    (out v : List Text) {network : List Text}
    → collect_origins out v ≡ some network
    → length network ≤ length out + length v
unfolding collect_origins
collect_origins-length out [] e = ground (arith, ap length (some-injective _ _ e))
collect_origins-length out (raw ∷ v) {network} e = ground (
  arith,
  collect_origins-length out v {network = network},
  collect_origins-length (out ++ (normal_origin raw ∷ [])) v {network = network},
  length-snoc out (normal_origin raw),
)

-- The address that submissions are sent to breaks no header.
abbrev pub OneAddress : Option Text → Type 0
OneAddress none = Unit
OneAddress (some s) =
    (contains s 64 ≡ true)
    × (all_chars (λ c. not (c == 13 || c == 10 || c == 44 || c == 59)) s ≡ true)

notify_valid-OneAddress :
    (v : Option Text) {address : Option Text} → notify_valid v ≡ some address → OneAddress address
unfolding notify_valid
notify_valid-OneAddress none e = subst OneAddress (some-injective _ _ e) tt
notify_valid-OneAddress (some v) e = elim (Bool-cases (strip v == [])) [
  | inl t ↦ subst OneAddress (some-injective _ _ (rw t at e)) tt
  | inr t ↦
      elim (Bool-cases (
        contains (strip v) 64
        && all_chars (λ c. not (c == 13 || c == 10 || c == 44 || c == 59)) (strip v))) [
          | inl good ↦
              subst OneAddress (some-injective _ _ (rw good at (rw t at e)))
                (ground arith, ground arith)
          | inr bad ↦ absurd (cc (rw bad at (rw t at e)))
        ]
]

abbrev pub FormAccepted : Form → Type 0
FormAccepted f = OneAddress f.notify_email

form_valid-Accepted : (f : Form) {f' : Form} → form_valid f ≡ some f' → FormAccepted f'
unfolding form_valid
form_valid-Accepted f e = elim (Option-cases (notify_valid f.notify_email)) [
  | inr (address, a) ↦ elim (Bool-cases (form_shape_valid f)) [
    | inl t ↦
        subst FormAccepted (some-injective _ _ (rw t at (rw (a, form_valid) at e)))
          (notify_valid-OneAddress f.notify_email a)
    | inr t ↦ absurd (cc (rw t at (rw (a, form_valid) at e)))
  ]
  | inl a ↦ absurd (cc (rw (a, form_valid) at e))
]

forms_valid-Accepted :
    (forms : List Form) {fs : List Form} → forms_valid forms ≡ some fs → All FormAccepted fs
unfolding forms_valid
forms_valid-Accepted [] e = subst (All FormAccepted) (some-injective _ _ e) tt
forms_valid-Accepted (f ∷ forms) e = elim (Option-cases (form_valid f)) [
  | inr (f', a) ↦ elim (Option-cases (forms_valid forms)) [
    | inr (fs, b) ↦
        subst (All FormAccepted) (some-injective _ _ (rw b at (rw (a, forms_valid) at e)))
          (form_valid-Accepted f a, forms_valid-Accepted forms b)
    | inl b ↦ absurd (cc (rw b at (rw (a, forms_valid) at e)))
  ]
  | inl a ↦ absurd (cc (rw (a, forms_valid) at e))
]

origins_valid-Origins :
    (v : List Text) {network : List Text}
    → origins_valid v ≡ some network
    → Origins network × (length network ≤ 12)
unfolding origins_valid
origins_valid-Origins v {network} e = elim (Bool-cases (ltb 12 (length v))) [
  | inl t ↦ absurd (cc (rw t at e))
  | inr t ↦ (
    collect_origins-Origins [] v (tt, tt) (rw t at e),
    ground (arith, t, collect_origins-length [] v (rw t at e)),
  )
]

-- What the program relies on in a manifest that it stores.
abbrev pub IsAccepted : Manifest → Type 0
IsAccepted m =
    (matches_slug m.slug ≡ true)
    × Declared allowed_services m.services
    × Origins m.permissions.network
    × (length m.permissions.network ≤ 12)
    × All (λ t. tool_valid t ≡ true) m.tools
    × Distinct (map (λ t. t.name) m.tools)
    × All (λ t. Declared m.services (required_services t)) m.tools
    × All FormAccepted m.forms
    × IsKebab m.slug

module _ (m : Manifest) (valid : shape_valid m ≡ true) where
  shape-slug : matches_slug m.slug ≡ true
  unfolding shape_valid
  shape-slug = ground (arith, valid)

  shape-services : all_in allowed_services m.services ≡ true
  unfolding shape_valid
  shape-services = ground (arith, valid)

  shape-tools : all_valid tool_valid m.tools ≡ true
  unfolding shape_valid
  shape-tools = ground (arith, valid)

  shape-has_dups : has_dups (map (λ t. t.name) m.tools) ≡ false
  unfolding shape_valid
  shape-has_dups = ground (arith, valid)

  shape-tools_declare : tools_declare_services m.services m.tools ≡ true
  unfolding shape_valid
  shape-tools_declare = ground (arith, valid)

-- The manifest that an upload is accepted with has a slug of words of lower-case letters and
-- digits with a hyphen between two, which a line break may end, services of the portal only, at most twelve origins, each in the form of an origin and none twice, tools that are each
-- valid, of distinct names and of which each needs declared services only, and forms whose
-- submissions are sent to one address, free of line breaks, commas and semicolons, or to none.
pub validate_manifest-IsAccepted :
    (m : Manifest) {m' : Manifest} → validate_manifest m ≡ some m' → IsAccepted m'
unfolding validate_manifest accept
validate_manifest-IsAccepted m e = elim (Option-cases (origins_valid m.permissions.network)) [
  | inl a ↦ absurd (cc (rw (a, validate_manifest) at e))
  | inr (network, a) ↦ elim (Option-cases (forms_valid m.forms)) [
    | inl b ↦ absurd (cc (rw (a, b, validate_manifest) at e))
    | inr (forms, b) ↦ elim (Bool-cases (shape_valid m)) [
      | inr t ↦ absurd (cc (rw (a, b, t, validate_manifest) at e))
      | inl t ↦
          let origins = origins_valid-Origins m.permissions.network a in
          subst IsAccepted (some-injective _ _ (rw (a, b, t, validate_manifest) at e)) (
            shape-slug m t,
            all_in-Declared allowed_services m.services (shape-services m t),
            origins.0,
            origins.1,
            all_valid-All tool_valid m.tools (shape-tools m t),
            has_dups-Distinct _ (shape-has_dups m t),
            tools-Declared m.services m.tools (shape-tools_declare m t),
            forms_valid-Accepted m.forms b,
            matches_slug-IsKebab m.slug (shape-slug m t),
          )
    ]
  ]
]
