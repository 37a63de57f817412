-- ===== src/Manifest.antt =====
-- portal/apps.py, "Manifest schema": what `portal.json` may declare. Schema has the fields, and Origins
-- the validator of the origins. An accepting validator is a Boolean, and one that also changes the
-- value answers with the new one. What pydantic documents of `min_length`, `max_length`, `ge` and `le`
-- is written out.
pub mod Accepted
pub mod Origins
pub mod Schema
pub mod Slugs
use claude_pwa_portal.Base.{
  ℕ, ◌+◌, ◌*◌, String, Text, Text-Eq, codes, Bool, true, false, not, ◌&&◌, ◌||◌, Option, none, some,
  List, [], ◌∷◌, ◌++◌, map, ltb, leb, ◌==◌, String-Eq, ℕ-Eq, if◌then◌else◌, contains, length,
  is_none,
}
use claude_pwa_portal.Manifest.Origins.{is_lower, is_digit, origins_valid}
use claude_pwa_portal.Manifest.Schema.{
  ToolField, ToolParam, ToolRender, ToolDeliver, Tool, FormField, Form, Permissions, Manifest,
}
use claude_pwa_portal.Base.Chars.{
  lower, strip, rstrip_by, starts_with, drop, split_on, split_first, all_chars, chop_newline,
  matches_slug, after_last,
}

-- `min_length=lo, max_length=hi`
abbrev pub in_length : ℕ → ℕ → Text → Bool
in_length lo hi s = leb lo (length s) && leb (length s) hi

abbrev pub optional_in : ℕ → Option Text → Bool
optional_in hi none = true
optional_in hi (some s) = leb (length s) hi

-- `{n for n in names if names.count(n) > 1}` is not empty.
unfoldable pub has_dups : List Text → Bool
has_dups [] = false
has_dups (n ∷ names) = contains names n || has_dups names

-- `TOOL_NAME_RE`
unfoldable pub matches_tool_name : Text → Bool
unfolding all_chars chop_newline
matches_tool_name [] = false
matches_tool_name (c ∷ s) =
    is_lower c
    && leb (length (chop_newline s)) 39
    && all_chars (λ d. is_lower d || is_digit d || d == 95) (chop_newline s)

abbrev pub tool_param_types : List String
tool_param_types = "string" ∷ "number" ∷ "boolean" ∷ []

unfoldable pub field_valid : ToolField → Bool
unfolding matches_tool_name
field_valid f =
    in_length 1 40 f.name
    && optional_in 200 (some f.description)
    && matches_tool_name f.name
    && contains tool_param_types f.type

unfoldable pub all_valid : {A : Type 0} → (A → Bool) → List A → Bool
all_valid p [] = true
all_valid p (x ∷ xs) = p x && all_valid p xs

array_fields_valid : ToolParam → Bool
unfolding has_dups
array_fields_valid p =
    if p.type == "array"
    then leb 1 (length p.fields)
      && leb (length p.fields) 12
      && not (has_dups (map (λ f. f.name) p.fields))
    else length p.fields == 0

unfoldable pub param_valid : ToolParam → Bool
unfolding field_valid all_valid array_fields_valid matches_tool_name
param_valid p =
    in_length 1 40 p.name
    && optional_in 200 (some p.description)
    && all_valid field_valid p.fields
    && matches_tool_name p.name
    && contains ("array" ∷ tool_param_types) p.type
    && array_fields_valid p

unfoldable pub render_valid : ToolRender → Bool
render_valid r = in_length 1 (100 * 1024) r.html && leb (length r.filename) 80

abbrev given_text : Option Text → Bool
given_text none = false
given_text (some s) = not (strip s == [])

abbrev ttl_in : Option ℕ → Bool
ttl_in none = true
ttl_in (some days) = leb 1 days && leb days 90

unfoldable pub deliver_valid : ToolDeliver → Bool
unfolding strip
deliver_valid d =
    optional_in 400 d.to
    && optional_in 200 d.subject
    && optional_in 200 d.key
    && ttl_in d.ttl_days
    && contains ("share" ∷ "download" ∷ "email" ∷ "store" ∷ []) d.kind
    && not (d.kind == "email" && not (given_text d.to))
    && not (d.kind == "store" && not (given_text d.key))

unfoldable pub tool_valid : Tool → Bool
unfolding param_valid render_valid deliver_valid all_valid has_dups matches_tool_name
tool_valid t =
    in_length 1 40 t.name
    && in_length 1 300 t.description
    && all_valid param_valid t.params
    && render_valid t.render
    && deliver_valid t.deliver
    && matches_tool_name t.name
    && leb (length t.params) 20
    && not (has_dups (map (λ p. p.name) t.params))

-- The services that a tool's recipe needs.
unfoldable pub required_services : Tool → List String
required_services t =
    if t.deliver.kind == "email"
    then "email" ∷ []
    else if t.deliver.kind == "store"
    then "pdf" ∷ "storage" ∷ []
    else "pdf" ∷ []

unfoldable pub form_field_valid : FormField → Bool
unfolding matches_tool_name
form_field_valid f =
    in_length 1 40 f.name
    && in_length 1 80 f.label
    && optional_in 120 f.placeholder
    && matches_tool_name f.name
    && contains ("text" ∷ "email" ∷ "tel" ∷ "number" ∷ "textarea" ∷ []) f.type

-- The address that a submission is sent to: one address that breaks no header.
unfoldable pub notify_valid : Option Text → Option (Option Text)
unfolding strip all_chars
notify_valid none = some none
notify_valid (some v) =
    let s = strip v in
    if s == []
    then some none
    else if contains s 64 && all_chars (λ c. not (c == 13 || c == 10 || c == 44 || c == 59)) s
    then some (some s)
    else none

form_shape_valid : Form → Bool
unfolding all_valid form_field_valid has_dups matches_tool_name
form_shape_valid f =
    in_length 1 40 f.name
    && in_length 1 120 f.title
    && optional_in 500 f.description
    && optional_in 200 f.notify_email
    && optional_in 300 f.success_message
    && all_valid form_field_valid f.fields
    && matches_tool_name f.name
    && leb 1 (length f.fields)
    && leb (length f.fields) 25
    && not (has_dups (map (λ x. x.name) f.fields))

unfoldable pub form_valid : Form → Option Form
unfolding form_shape_valid notify_valid
form_valid f = elim (notify_valid f.notify_email) [
  | none ↦ none
  | some address ↦ if form_shape_valid f then some (record f { notify_email = address }) else none
]

unfoldable pub forms_valid : List Form → Option (List Form)
unfolding form_valid
forms_valid [] = some []
forms_valid (f ∷ forms) = elim (form_valid f) [
  | none ↦ none
  | some f' ↦ elim (forms_valid forms) [ none ↦ none | some fs ↦ some (f' ∷ fs) ]
]

-- A path in the bundle: relative, and with no `..` among its parts.
unfoldable pub safe_path : Text → Bool
unfolding starts_with split_on
safe_path v = not (
    starts_with v (codes "/")
    || starts_with v (codes "\\")
    || contains (split_on 47 v) (codes ".."))

-- The last part that names something, as `Path(v).name`.
last_part : List Text → Text → Text
last_part [] name = name
last_part (part ∷ parts) name =
    last_part parts (if part == [] || part == codes "." then name else part)

-- `Path(v).suffix`: from the last dot on, where that is neither first nor last.
suffix_of : Text → Text
unfolding after_last
suffix_of name =
    let ext = after_last 46 name in
    if not (contains name 46) || ext == [] || leb (length name) (length ext + 1)
    then []
    else codes "." ++ ext

abbrev allowed_icon_exts : List Text
allowed_icon_exts =
    codes ".png"
    ∷ codes ".jpg"
    ∷ codes ".jpeg"
    ∷ codes ".webp"
    ∷ codes ".ico"
    ∷ codes ".gif"
    ∷ codes ".svg"
    ∷ []

unfoldable pub icon_valid : Option Text → Bool
unfolding safe_path last_part suffix_of lower split_on
icon_valid none = true
icon_valid (some v) =
    safe_path v && contains allowed_icon_exts (lower (suffix_of (last_part (split_on 47 v) [])))

abbrev pub allowed_services : List String
allowed_services = "pdf" ∷ "email" ∷ "storage" ∷ []

unfoldable pub all_in : List String → List String → Bool
all_in known [] = true
all_in known (s ∷ services) = contains known s && all_in known services

-- Every service that a tool needs is declared.
unfoldable pub tools_declare_services : List String → List Tool → Bool
unfolding required_services all_in
tools_declare_services services [] = true
tools_declare_services services (t ∷ tools) =
    all_in services (required_services t) && tools_declare_services services tools

-- The fields whose validators only accept or refuse.
shape_valid : Manifest → Bool
unfolding matches_slug all_in safe_path icon_valid all_valid tool_valid has_dups
    tools_declare_services
shape_valid m =
    in_length 2 40 m.slug
    && in_length 1 60 m.name
    && in_length 1 20 m.version
    && optional_in 200 m.description
    && matches_slug m.slug
    && all_in allowed_services m.services
    && safe_path m.entry
    && icon_valid m.icon
    && all_valid tool_valid m.tools
    && leb (length m.tools) 20
    && not (has_dups (map (λ t. t.name) m.tools))
    && leb (length m.forms) 10
    && not (has_dups (map (λ f. f.name) m.forms))
    && tools_declare_services m.services m.tools

accept : Manifest → Option (List Text) → Option (List Form) → Option Manifest
unfolding shape_valid
accept m none forms = none
accept m (some network) none = none
accept m (some network) (some forms) =
    if shape_valid m
    then some (record m {
      permissions = record { network = network; csp_strict = m.permissions.csp_strict };
      forms = forms;
    })
    else none

-- `PortalAppManifest(**raw)`: the manifest with its normalised origins and addresses, or an error.
unfoldable pub validate_manifest : Manifest → Option Manifest
unfolding accept origins_valid forms_valid
validate_manifest m = accept m (origins_valid m.permissions.network) (forms_valid m.forms)
