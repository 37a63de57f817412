-- ===== src/Intake/Recorded.antt =====
-- portal/forms.py, `handle_submit`: what a submitted form writes, and when it is accepted.
use claude_pwa_portal.Base.{
  ℕ, zero, suc, ◌+◌, ◌≤◌, ◌<◌, Text, Text-Eq, String-Eq, ◌≡◌, ◌⊎◌, refl, ap, Bool, true, false, not,
  ◌&&◌, ◌||◌, some, List, [], ◌∷◌, ◌++◌, arith, ◌==◌, ℕ-Eq, length, ltb, leb, Bool-cases,
  Option-cases, inl, inr, sym,
}
use claude_pwa_portal.Base.Chars.{strip, take}
use claude_pwa_portal.Base.Table.{All, first, count, count-le_length, insert}
use claude_pwa_portal.Models.{App, Db}
use claude_pwa_portal.Limits.{drop_old}
use claude_pwa_portal.Apps.{find_app}
use claude_pwa_portal.Manifest.Schema.{Form, FormField}
use claude_pwa_portal.Intake.{
  Window, is_window, hits_in, rate_window, rate_ok, FieldError, max_length, field_value,
  field_errors, matches_email, collect, find_form, load, honeypot_field, store_submission,
  checked_submit, submit_form, handle_submit, Answer, thanks,
}

-- What the visitor typed into a field: without white space around it, and no longer than the field
-- may hold.
abbrev pub typed : (Text → Text) → FormField → Text
typed form f = take (max_length f) (strip (form f.name))

-- The text may stand in the field.
abbrev pub fine : (Text → Bool) → FormField → Text → Bool
fine is_float f raw =
    not (f.required && raw == [])
    && (raw == []
        || (not (f.type == "email") || matches_email raw)
          && (not (f.type == "number") || is_float raw))

-- The values belong to the fields, in their order: each is what was typed into the field of its name,
-- and may stand there.
abbrev pub Filled : (Text → Bool) → (Text → Text) → List FormField → List (Text × Text) → Type 0
Filled is_float form [] [] = Unit
Filled is_float form [] (v ∷ values) = true ≡ false
Filled is_float form (f ∷ fields) [] = true ≡ false
Filled is_float form (f ∷ fields) (v ∷ values) =
    ((v.0 ≡ f.name)
      × (v.1 ≡ typed form f)
      × (length v.1 ≤ max_length f)
      × (fine is_float f v.1 ≡ true))
    × Filled is_float form fields values

-- The submissions of the address to the form that are counted.
abbrev pub hits_of : Text → Text → Text → List Window → List ℕ
hits_of ip slug form_name windows = hits_in (first (is_window ip slug form_name) windows)

-- Submitted within the last ten minutes.
abbrev pub is_recent : ℕ → ℕ → Bool
is_recent now t = leb now (t + 600)

abbrev pub is_human : (Text → Text) → Bool
is_human form = strip (form honeypot_field) == []

abbrev pub is_thanks : Answer → Bool
is_thanks thanks = true
is_thanks _ = false

take-length : (n : ℕ) (s : Text) → length (take n s) ≤ n
unfolding take
take-length zero s = omega arith
take-length (suc n) [] = omega arith
take-length (suc n) (c ∷ s) = omega (arith, take-length n s)

take_whole : (n : ℕ) (s : Text) → ltb n (length s) ≡ false → take n s ≡ s
unfolding take
take_whole zero [] h = refl
take_whole zero (c ∷ s) h = absurd (ground (arith, h))
take_whole (suc n) [] h = refl
take_whole (suc n) (c ∷ s) h = ap (λ t. c ∷ t) (take_whole n s (ground (arith, h)))

field_value-typed : (form : Text → Text) (f : FormField) → field_value form f ≡ typed form f
unfolding field_value
field_value-typed form f = elim (Bool-cases (ltb (max_length f) (length (strip (form f.name))))) [
  | inl t ↦ rw t refl
  | inr t ↦ rw t (sym (take_whole (max_length f) (strip (form f.name)) t))
]

count-drop_old :
    (now : ℕ) (hits : List ℕ) → count (is_recent now) hits ≤ length (drop_old rate_window now hits)
unfolding count drop_old
count-drop_old now [] = omega arith
count-drop_old now (t ∷ hits) =
    ground (arith, count-drop_old now hits, count-le_length (is_recent now) hits)

drop_old-length : (now : ℕ) (hits : List ℕ) → length (drop_old rate_window now hits) ≤ length hits
unfolding drop_old
drop_old-length now [] = omega arith
drop_old-length now (t ∷ hits) = ground (arith, drop_old-length now hits)

rate_ok-few :
    (now : ℕ) (ip slug form_name : Text) (windows : List Window)
    → (rate_ok now ip slug form_name windows).0 ≡ true
    → count (is_recent now) (hits_of ip slug form_name windows) < 10
unfolding rate_ok
rate_ok-few now ip slug form_name windows room =
    let kept = drop_old rate_window now (hits_of ip slug form_name windows) in
    elim (Bool-cases (leb 10 (length kept))) [
      | inl t ↦ absurd (cc (rw t at room))
      | inr t ↦ ground (arith, t, count-drop_old now (hits_of ip slug form_name windows))
    ]

rate_ok-room :
    (now : ℕ) (ip slug form_name : Text) (windows : List Window)
    → length (hits_of ip slug form_name windows) < 10
    → (rate_ok now ip slug form_name windows).0 ≡ true
unfolding rate_ok
rate_ok-room now ip slug form_name windows few =
    let kept = drop_old rate_window now (hits_of ip slug form_name windows) in
    elim (Bool-cases (leb 10 (length kept))) [
      | inl t ↦
          absurd (ground (arith, t, few, drop_old-length now (hits_of ip slug form_name windows)))
      | inr t ↦ rw t refl
    ]

no_first : {A : Type 0} (xs ys : List A) → xs ++ ys ≡ [] → (xs ≡ []) × (ys ≡ [])
no_first [] ys e = (refl, e)
no_first (x ∷ xs) ys e = absurd (cc)

-- An app that is on, and a form that it declares.
pub record Open (slug form_name : Text) (db : Db) (decl : Form) : Type 0 where
  pub app_row : App
  pub known : find_app slug db ≡ some app_row
  pub enabled : app_row.enabled ≡ true
  pub declared : first (λ f. f.name == form_name) app_row.forms ≡ some decl

load-Open :
    (slug form_name : Text) (db : Db) (decl : Form)
    → load slug form_name db ≡ some decl
    → Open slug form_name db decl
unfolding load find_form
load-Open slug form_name db decl e = elim (Option-cases (find_app slug db)) [
  | inl f ↦ absurd (cc (rw (f, load) at e))
  | inr (a, f) ↦ elim (Bool-cases a.enabled) [
    | inr t ↦ absurd (cc (rw t at (rw (f, load) at e)))
    | inl t ↦ record { app_row = a; known = f; enabled = t; declared = rw t at (rw (f, load) at e) }
  ]
]

Open-load :
    (slug form_name : Text) (db : Db) (decl : Form)
    → Open slug form_name db decl
    → load slug form_name db ≡ some decl
unfolding load find_form
Open-load slug form_name db decl o = rw (o.known, load) (rw o.enabled o.declared)

module _ (is_float : Text → Bool) where
  field_errors-fine :
      (f : FormField) (raw : Text) → field_errors is_float f raw ≡ [] → fine is_float f raw ≡ true
  unfolding field_errors
  field_errors-fine f raw e = ground (arith, e)

  fine-field_errors :
      (f : FormField) (raw : Text) → fine is_float f raw ≡ true → field_errors is_float f raw ≡ []
  unfolding field_errors
  fine-field_errors f raw h = ground (arith, h)

  collect-Filled :
      (form : Text → Text) (fields : List FormField)
      → (collect is_float form fields).0 ≡ []
      → Filled is_float form fields (collect is_float form fields).1
  unfolding collect
  collect-Filled form [] e = tt
  collect-Filled form (f ∷ fields) e =
      let raw = field_value form f in
      let parts = no_first (field_errors is_float f raw) (collect is_float form fields).0 e in
      (
        (
          refl,
          field_value-typed form f,
          rw (field_value-typed form f) (take-length (max_length f) (strip (form f.name))),
          field_errors-fine f raw parts.0,
        ),
        collect-Filled form fields parts.1,
      )

  collect-fine :
      (form : Text → Text) (fields : List FormField)
      → All (λ f. fine is_float f (typed form f) ≡ true) fields
      → (collect is_float form fields).0 ≡ []
  unfolding collect
  collect-fine form [] h = refl
  collect-fine form (f ∷ fields) h =
      rw (field_value-typed form f)
        (rw (fine-field_errors f (typed form f) h.0) (collect-fine form fields h.1))

  -- What a submission may have stored.
  pub record Stored (now : ℕ) (ip slug form_name : Text) (form : Text → Text) (db : Db)
      (windows : List Window) (db' : Db) : Type 0 where
    pub decl : Form
    pub values : List (Text × Text)
    pub declared : Open slug form_name db decl
    pub filled : Filled is_float form decl.fields values
    pub human : is_human form ≡ true
    pub few : count (is_recent now) (hits_of ip slug form_name windows) < 10
    pub stored : db' ≡ record db {
      submissions =
          insert
            (record {
              app_slug = slug;
              form_name = form_name;
              values = values;
              source_ip = take 64 ip;
            })
            db.submissions;
    }

  checked_submit-cases :
      (ip slug form_name : Text) (c : List FieldError × List (Text × Text)) (db : Db)
      → (((checked_submit is_float ip slug form_name c db).1 ≡ db)
          × (is_thanks (checked_submit is_float ip slug form_name c db).0 ≡ false))
        ⊎ ((c.0 ≡ [])
            × ((checked_submit is_float ip slug form_name c db).1
                ≡ store_submission ip slug form_name c.1 db))
  unfolding checked_submit
  checked_submit-cases ip slug form_name ([], values) db = inr (refl, refl)
  checked_submit-cases ip slug form_name (error ∷ errors, values) db = inl (refl, refl)

  checked_submit_thanks :
      (ip slug form_name : Text) (c : List FieldError × List (Text × Text)) (db : Db)
      → c.0 ≡ []
      → (checked_submit is_float ip slug form_name c db).0 ≡ thanks
  unfolding checked_submit
  checked_submit_thanks ip slug form_name ([], values) db e = refl
  checked_submit_thanks ip slug form_name (error ∷ errors, values) db e = absurd (cc)

  -- Nothing was stored, and the visitor was not thanked, or it is no visitor.
  abbrev pub Refused : (Text → Text) → Db → Answer → Db → Type 0
  Refused form db answer db' = (db' ≡ db) × ((is_thanks answer ≡ false) ⊎ (is_human form ≡ false))

  submit_form-Stored :
      (now : ℕ) (ip slug form_name : Text) (form : Text → Text) (decl : Form) (db : Db)
      (windows : List Window)
      → load slug form_name db ≡ some decl
      → Refused form db
          (submit_form is_float now ip slug form_name form decl db windows).0
          (submit_form is_float now ip slug form_name form decl db windows).1
        ⊎ Stored now ip slug form_name form db windows
            (submit_form is_float now ip slug form_name form decl db windows).1
  unfolding submit_form store_submission
  submit_form-Stored now ip slug form_name form decl db windows declared =
      elim (Bool-cases (is_human form)) [
        | inr bot ↦ rw bot (inl (refl, inr refl))
        | inl human ↦ elim (Bool-cases (rate_ok now ip slug form_name windows).0) [
          | inr over ↦ rw (human, over) (inl (refl, inl refl))
          | inl room ↦
              rw (human, room)
                (elim (checked_submit-cases ip slug form_name (collect is_float form decl.fields)
                  db) [
                    | inl same ↦ inl (same.0, inl same.1)
                    | inr written ↦ inr (record {
                      decl = decl;
                      values = (collect is_float form decl.fields).1;
                      declared = load-Open slug form_name db decl declared;
                      filled = collect-Filled form decl.fields written.0;
                      human = human;
                      few = rate_ok-few now ip slug form_name windows room;
                      stored = written.1;
                    })
                  ])
        ]
      ]

  -- A submission to a form either changes nothing in the database, and then the visitor is not thanked
  -- unless the honeypot was filled in; or the app is on and declares the form, the honeypot is empty,
  -- the window of that address and form holds fewer than ten from the last ten minutes, and one row is
  -- stored and nothing else: for each declared field, in their order, what was typed into the field
  -- of that name, stripped and cut to what the field may hold, there where it is required, and an
  -- address or a number where the field asks for one.
  pub handle_submit-Stored :
      (now : ℕ) (ip slug form_name : Text) (form : Text → Text) (db : Db) (windows : List Window)
      → Refused form db
          (handle_submit is_float now ip slug form_name form db windows).0
          (handle_submit is_float now ip slug form_name form db windows).1
        ⊎ Stored now ip slug form_name form db windows
            (handle_submit is_float now ip slug form_name form db windows).1
  unfolding handle_submit
  handle_submit-Stored now ip slug form_name form db windows =
      elim (Option-cases (load slug form_name db)) [
        | inl e ↦ rw (e, handle_submit) (inl (refl, inl refl))
        | inr (decl, e) ↦
            rw (e, handle_submit) (submit_form-Stored now ip slug form_name form decl db windows e)
      ]

  thanked :
      (now : ℕ) (ip slug form_name : Text) (form : Text → Text) (decl : Form) (db : Db)
      (windows : List Window)
      → Open slug form_name db decl
      → is_human form ≡ true
      → length (hits_of ip slug form_name windows) < 10
      → All (λ f. fine is_float f (typed form f) ≡ true) decl.fields
      → (handle_submit is_float now ip slug form_name form db windows).0 ≡ thanks
  unfolding handle_submit submit_form
  thanked now ip slug form_name form decl db windows o human few filled =
      rw (Open-load slug form_name db decl o, handle_submit)
        (rw (human, rate_ok-room now ip slug form_name windows few)
          (checked_submit_thanks ip slug form_name (collect is_float form decl.fields) db
            (collect-fine form decl.fields filled)))

  -- A visitor who leaves the honeypot empty and fills in every field of a form that an app that is on
  -- declares, as the field asks, is thanked while fewer than ten submissions stand in the window of
  -- that address and form, and what was typed is stored.
  pub handle_submit-thanks :
      (now : ℕ) (ip slug form_name : Text) (form : Text → Text) (decl : Form) (db : Db)
      (windows : List Window)
      → Open slug form_name db decl
      → is_human form ≡ true
      → length (hits_of ip slug form_name windows) < 10
      → All (λ f. fine is_float f (typed form f) ≡ true) decl.fields
      → ((handle_submit is_float now ip slug form_name form db windows).0 ≡ thanks)
        × Stored now ip slug form_name form db windows
            (handle_submit is_float now ip slug form_name form db windows).1
  handle_submit-thanks now ip slug form_name form decl db windows o human few filled =
      let told = thanked now ip slug form_name form decl db windows o human few filled in
      (
        told,
        elim (handle_submit-Stored now ip slug form_name form db windows) [
          | inr stored ↦ stored
          | inl (same, inl untold) ↦ absurd (cc (ap is_thanks told, untold))
          | inl (same, inr bot) ↦ absurd (cc (human, bot))
        ],
      )
