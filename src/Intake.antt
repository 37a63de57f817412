-- ===== src/Intake.antt =====
-- portal/forms.py: the public forms. The submitted form is a function from names to values. Times are
-- seconds of the monotonic clock, and the windows of the rate limit are a Python `dict` of queues, an
-- association list here. The notification by e-mail and the rendering are not modelled. Parameter:
-- `is_float`, whether Python's `float` reads the text.
pub mod Recorded
use claude_pwa_portal.Base.{
  ℕ, ◌+◌, String, Text, Text-Eq, codes, Bool, true, false, not, ◌&&◌, ◌||◌, Option, none, some,
  List, [], ◌∷◌, ◌++◌, ltb, leb, ◌==◌, String-Eq, ℕ-Eq, if◌then◌else◌, contains, length,
}
use claude_pwa_portal.Base.Chars.{strip, take, split_on, all_chars, is_space, chop_newline}
use claude_pwa_portal.Base.Table.{first, insert, update, delete}
use claude_pwa_portal.Models.{App, FormSubmission, Db}
use claude_pwa_portal.Manifest.Schema.{Form, FormField}
use claude_pwa_portal.Apps.{find_app}
use claude_pwa_portal.Limits.{drop_old}

-- A window of the rate limit, of one address, app and form.
pub record Window : Type 0 where
  pub ip : Text
  pub slug : Text
  pub form_name : Text
  pub hits : List ℕ

-- `_RATE_WINDOW_SECONDS`
abbrev pub rate_window : ℕ
rate_window = 600

-- `_RATE_LIMIT`
abbrev pub rate_limit : ℕ
rate_limit = 10

abbrev pub is_window : Text → Text → Text → Window → Bool
is_window ip slug form_name w = w.ip == ip && w.slug == slug && w.form_name == form_name

abbrev hits_in : Option Window → List ℕ
hits_in none = []
hits_in (some w) = w.hits

-- `_rate.get(key)`, and a new queue where there is none
held_windows : Text → Text → Text → Option Window → List Window → List Window
held_windows ip slug form_name none windows =
    insert (record { ip = ip; slug = slug; form_name = form_name; hits = [] }) windows
held_windows ip slug form_name (some w) windows = windows

last_before : ℕ → List ℕ → Bool
last_before now [] = true
last_before now (t ∷ []) = ltb (t + rate_window) now
last_before now (t ∷ u ∷ hits) = last_before now (u ∷ hits)

-- The stale windows go once there are many.
swept : ℕ → List Window → List Window
unfolding last_before
swept now windows =
    if ltb 4096 (length windows) then delete (λ w. last_before now w.hits) windows else windows

set_hits : Text → Text → Text → List ℕ → List Window → List Window
set_hits ip slug form_name hits windows =
    update (is_window ip slug form_name) (λ w. record w { hits = hits }) windows

unfoldable pub rate_ok : ℕ → Text → Text → Text → List Window → Bool × List Window
unfolding drop_old held_windows swept set_hits
rate_ok now ip slug form_name windows =
    let found = first (is_window ip slug form_name) windows in
    let held = held_windows ip slug form_name found windows in
    let dq = drop_old rate_window now (hits_in found) in
    if leb rate_limit (length dq)
    then (false, set_hits ip slug form_name dq held)
    else (true, swept now (set_hits ip slug form_name (dq ++ (now ∷ [])) held))

-- A dot with something on both sides, between the places where it may not stand.
inner_dot : Text → Bool
inner_dot [] = false
inner_dot (c ∷ []) = false
inner_dot (c ∷ d ∷ s) = c == 46 || inner_dot (d ∷ s)

domain_ok : Text → Bool
unfolding inner_dot
domain_ok [] = false
domain_ok (c ∷ s) = inner_dot s

address_ok : Text → Bool
unfolding split_on domain_ok all_chars is_space
address_ok raw = elim (split_on 64 raw) [
  | [] ↦ false
  | name ∷ parts ↦ elim parts [
    | [] ↦ false
    | domain ∷ more ↦
        leb 1 (length name)
        && length more == 0
        && domain_ok domain
        && all_chars (λ c. not (is_space c)) raw
  ]
]

-- `_EMAIL_RE`, whose `$` also matches before a line break that ends the text
unfoldable pub matches_email : Text → Bool
unfolding address_ok chop_newline
matches_email raw = address_ok (chop_newline raw)

-- The errors that the form shows, by the label of the field.
pub data FieldError : Type 0 where
  is_required bad_email bad_number : Text → FieldError

abbrev pub max_length : FormField → ℕ
max_length f = if f.type == "textarea" then 5000 else 2000

-- `(form.get(name) or "").strip()`, cut to what the field may hold
unfoldable pub field_value : (Text → Text) → FormField → Text
unfolding strip take
field_value form f =
    let raw = strip (form f.name) in
    if ltb (max_length f) (length raw) then take (max_length f) raw else raw

module _ (is_float : Text → Bool) where
  unfoldable pub field_errors : FormField → Text → List FieldError
  unfolding matches_email
  field_errors f raw =
      if f.required && raw == []
      then is_required f.label ∷ []
      else if not (raw == []) && f.type == "email" && not (matches_email raw)
      then bad_email f.label ∷ []
      else if not (raw == []) && f.type == "number" && not (is_float raw)
      then bad_number f.label ∷ []
      else []

  -- `values[name] = raw`, of fields that have distinct names
  unfoldable pub collect : (Text → Text) → List FormField → List FieldError × List (Text × Text)
  unfolding field_errors field_value
  collect form [] = ([], [])
  collect form (f ∷ fields) =
      let raw = field_value form f in
      let (errors, values) = collect form fields in
      (field_errors f raw ++ errors, (f.name, raw) ∷ values)

-- What the visitor is shown.
pub data Answer : Type 0 where
  not_found thanks too_many : Answer
  form_errors : List FieldError → Answer

find_form : List Form → Text → Option Form
find_form forms name = first (λ f. f.name == name) forms

-- `_load`
unfoldable pub load : Text → Text → Db → Option Form
unfolding find_app find_form
load slug form_name db = elim (find_app slug db) [
  | none ↦ none
  | some app_row ↦ if app_row.enabled then find_form app_row.forms form_name else none
]

abbrev honeypot_field : Text
honeypot_field = codes "company_url"

unfoldable pub store_submission : Text → Text → Text → List (Text × Text) → Db → Db
unfolding take
store_submission ip slug form_name values db =
    let row : FormSubmission = record {
      app_slug = slug;
      form_name = form_name;
      values = values;
      source_ip = take 64 ip;
    } in
    record db { submissions = insert row db.submissions }

module _ (is_float : Text → Bool) where
  checked_submit : Text → Text → Text → List FieldError × List (Text × Text) → Db → Answer × Db
  unfolding store_submission
  checked_submit ip slug form_name (error ∷ errors, values) db = (form_errors (error ∷ errors), db)
  checked_submit ip slug form_name ([], values) db =
      (thanks, store_submission ip slug form_name values db)

  submit_form :
      ℕ → Text → Text → Text → (Text → Text) → Form → Db → List Window → Answer × Db × List Window
  unfolding rate_ok collect checked_submit strip
  submit_form now ip slug form_name form decl db windows =
      if not (strip (form honeypot_field) == [])
      then (thanks, db, windows)
      else (let (admitted, windows1) = rate_ok now ip slug form_name windows in
          let (answer, db1) =
            checked_submit ip slug form_name (collect is_float form decl.fields) db in
          if admitted then (answer, db1, windows1) else (too_many, db, windows1))

  unfoldable pub handle_submit :
      ℕ → Text → Text → Text → (Text → Text) → Db → List Window → Answer × Db × List Window
  unfolding load submit_form
  handle_submit now ip slug form_name form db windows = elim (load slug form_name db) [
    | none ↦ (not_found, db, windows)
    | some decl ↦ submit_form now ip slug form_name form decl db windows
  ]
