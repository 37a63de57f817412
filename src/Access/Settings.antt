-- ===== src/Access/Settings.antt =====
-- portal/settings_store.py: the table of settings as a map from keys to texts.
use claude_pwa_portal.Base.{
  String, Text, Text-Eq, ◌≡◌, refl, true, false, Option, none, some, List, [], ◌∷◌, ◌==◌, String-Eq,
  if◌then◌else◌, is_none, arith, inl, inr, Bool-cases, eq_iff,
}
use claude_pwa_portal.Base.Table.{first, update, delete, insert, updated, first-update, first_sound}
use claude_pwa_portal.Models.{Setting, Db}
use claude_pwa_portal.Access.{value_of, get_setting, set_setting}

module _ (read key : String) where
  value_of-delete :
      (rows : List Setting)
      → value_of (first (λ s. s.key == read) (delete (λ s. s.key == key) rows))
        ≡ (if key == read then none else value_of (first (λ s. s.key == read) rows))
  unfolding first delete
  value_of-delete [] = ground arith
  value_of-delete (s ∷ rows) =
      ground (arith, value_of-delete rows, eq_iff s.key read, eq_iff s.key key, eq_iff key read)

  value_of-insert :
      (value : Text) (rows : List Setting)
      → first (λ s. s.key == key) rows ≡ none
      → value_of (first (λ s. s.key == read) (insert (record { key = key; value = value }) rows))
        ≡ (if key == read then some value else value_of (first (λ s. s.key == read) rows))
  unfolding first
  value_of-insert value [] h = ground arith
  value_of-insert value (s ∷ rows) h =
      ground
        (arith, value_of-insert value rows, eq_iff s.key read, eq_iff s.key key, eq_iff key read)

  value_of-updated :
      (value : Text) (found : Option Setting)
      → (key == read ≡ true → is_none found ≡ false)
      → ((s : Setting) → found ≡ some s → (s.key == read) ≡ true)
      → value_of (updated (λ s. s.key == key) (λ s. record s { value = value }) found)
        ≡ (if key == read then some value else value_of found)
  value_of-updated value none there named = ground (arith, there)
  value_of-updated value (some s) there named =
      ground (arith, named s refl, eq_iff s.key read, eq_iff s.key key, eq_iff key read)

  value_of-update :
      (value : Text) (rows : List Setting)
      → is_none (first (λ s. s.key == key) rows) ≡ false
      → value_of (
          first
            (λ s. s.key == read)
            (update (λ s. s.key == key) (λ s. record s { value = value }) rows))
        ≡ (if key == read then some value else value_of (first (λ s. s.key == read) rows))
  value_of-update value rows h =
      rw
        (first-update (λ s. s.key == read) (λ s. s.key == key) (λ s. record s { value = value })
          (λ s. refl) rows)
        (value_of-updated value (first (λ s. s.key == read) rows)
          (λ e. ground (arith, rw ((eq_iff key read).0 e) at h))
          (λ s found. first_sound (λ x. x.key == read) rows found))

none_of : {A : Type 0} {o : Option A} → is_none o ≡ true → o ≡ none
none_of {o = none} h = refl
none_of {o = some x} h = absurd (cc)

-- What a key reads after any key is set: the new text if it is that key, nothing where the text is
-- empty, and what it read before if it is another key.
pub get_setting-set_setting :
    (read key : String) (value : Text) (db : Db)
    → get_setting read (set_setting key value db)
      ≡ (if key == read then (if value == [] then none else some value) else get_setting read db)
unfolding get_setting set_setting
get_setting-set_setting read key value db = elim (Bool-cases (value == [])) [
  | inl e ↦ rw e (value_of-delete read key db.settings)
  | inr e ↦ elim (Bool-cases (is_none (first (λ s. s.key == key) db.settings))) [
    | inl gone ↦ rw (e, gone) (value_of-insert read key value db.settings (none_of gone))
    | inr there ↦ rw (e, there) (value_of-update read key value db.settings there)
  ]
]
