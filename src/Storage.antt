-- ===== src/Storage.antt =====
-- portal/api.py, "/storage": the namespace of one app and one user, and the handlers that read, write
-- and delete an object in it. `conflicts key blobs` says that a
-- write to the key fails because a key is used as a folder (it never does on S3). The namespace's
-- lock makes a write one step. The body of a request is read before, within the bound on an object.
pub mod Bounds
use claude_pwa_portal.Base.{
  ℕ, ◌+◌, ◌-◌, ◌*◌, String, Text, Text-Eq, codes, Bool, true, false, not, ◌&&◌, ◌||◌, Option, none,
  some, List, [], ◌∷◌, ◌++◌, Result, ok, err, ltb, leb, ◌==◌, ℕ-Eq, if◌then◌else◌, contains, length,
  is_none,
}
use claude_pwa_portal.Base.Chars.{starts_with, decimal}
use claude_pwa_portal.Base.Table.{count, delete}
use claude_pwa_portal.Models.{User, App, Db}
use claude_pwa_portal.Blobs.{is_under, Blob, Blobs, read_or_none, exists, size, write, remove}
use claude_pwa_portal.Gates.{Request, and_then, read_gate, write_gate}

abbrev pub max_object_bytes : ℕ
max_object_bytes = 10 * 1024 * 1024

abbrev pub max_namespace_bytes : ℕ
max_namespace_bytes = 100 * 1024 * 1024

abbrev pub max_namespace_objects : ℕ
max_namespace_objects = 10000

-- `[A-Za-z0-9_./-]`
unfoldable pub is_key_char : ℕ → Bool
is_key_char c =
    leb 65 c && leb c 90
    || leb 97 c && leb c 122
    || leb 48 c && leb c 57
    || c == 95
    || c == 46
    || c == 47
    || c == 45

-- `^[A-Za-z0-9_./-]*$`: in Python's `re`, `$` also stands before a line break that ends the text.
matches_rest : Text → Bool
unfolding is_key_char
matches_rest [] = true
matches_rest (c ∷ []) = is_key_char c || c == 10
matches_rest (c ∷ d ∷ s) = is_key_char c && matches_rest (d ∷ s)

unfoldable pub matches_key : Text → Bool
unfolding is_key_char matches_rest
matches_key [] = false
matches_key (c ∷ s) = is_key_char c && matches_rest s

-- `s.split("/")`, of which the first part is read so far
unfoldable pub split_from : Text → Text → List Text
split_from seen [] = seen ∷ []
split_from seen (c ∷ s) =
    let next = split_from [] s in
    let same = split_from (seen ++ (c ∷ [])) s in if c == 47 then seen ∷ next else same

is_bad_part : Text → Bool
is_bad_part part = part == codes "" || part == codes ".." || part == codes "."

any_bad : List Text → Bool
unfolding is_bad_part
any_bad [] = false
any_bad (part ∷ parts) = is_bad_part part || any_bad parts

unfoldable pub validate_key : Text → Result ℕ Text
unfolding matches_key split_from any_bad
validate_key key =
    if key == codes "" || ltb 200 (length key)
    then err 400
    else if not (matches_key key)
    then err 400
    else if any_bad (split_from [] key)
    then err 400
    else ok key

-- `storage/<slug>/<user>/…`, of some app
is_of_user : Text → List Text → Bool
is_of_user uid (top ∷ slug ∷ owner ∷ name ∷ names) = top == codes "storage" && owner == uid
is_of_user uid parts = false

-- portal/storage_backend.py: the objects of one user in every app go.
unfoldable pub delete_user_namespaces : ℕ → Blobs → Blobs
unfolding is_of_user split_from decimal
delete_user_namespaces user_id blobs =
    delete (λ blob. is_of_user (decimal user_id) (split_from [] blob.key)) blobs

-- `sum(o.size for o in storage.list(prefix))`
unfoldable pub usage : Text → Blobs → ℕ
usage prefix [] = 0
usage prefix (blob ∷ blobs) =
    let rest = usage prefix blobs in
    if is_under prefix blob then length blob.content + rest else rest

abbrev pub or_zero : Option ℕ → ℕ
or_zero none = 0
or_zero (some n) = n

module _ (conflicts : Text → Blobs → Bool) where
  -- The critical section: the checks of the quota and the write.
  unfoldable pub guarded_write : Text → Text → List ℕ → Blobs → Result ℕ (Unit {0}) × Blobs
  guarded_write prefix full_key body blobs =
      let existing = size full_key blobs in
      if is_none existing && leb max_namespace_objects (count (is_under prefix) blobs)
      then (err 507, blobs)
      else if ltb max_namespace_bytes (usage prefix blobs - or_zero existing + length body)
      then (err 507, blobs)
      else if conflicts full_key blobs
      then (err 409, blobs)
      else (ok tt, write full_key body blobs)

-- `storage/<slug>/<user>`
unfoldable pub namespace_prefix : Text → ℕ → Text
unfolding decimal
namespace_prefix app_slug user_id = codes "storage/" ++ app_slug ++ codes "/" ++ decimal user_id

abbrev pub full_key : Text → ℕ → Text → Text
full_key app_slug user_id key = namespace_prefix app_slug user_id ++ codes "/" ++ key

unfoldable pub storage_get : Text → Request → Option User → Db → Blobs → Result ℕ (List ℕ)
storage_get key request account db blobs = and_then (read_gate request account db) (λ (me, app_row).
    and_then (validate_key key) (λ safe.
      elim (read_or_none (full_key app_row.slug me.id safe) blobs) [
        | none ↦ err 404
        | some content ↦ ok content
      ]))

put_checked :
    (Text → Blobs → Bool)
    → List ℕ
    → Result ℕ Text
    → User
    → App
    → Blobs
    → Result ℕ (Unit {0}) × Blobs
unfolding guarded_write
put_checked conflicts body (err status) me app_row blobs = (err status, blobs)
put_checked conflicts body (ok safe) me app_row blobs =
    if ltb max_object_bytes (length body)
    then (err 413, blobs)
    else guarded_write conflicts (namespace_prefix app_row.slug me.id)
        (full_key app_row.slug me.id safe) body blobs

put_passed :
    (Text → Blobs → Bool)
    → Text
    → List ℕ
    → Result ℕ (User × App)
    → Blobs
    → Result ℕ (Unit {0}) × Blobs
unfolding put_checked
put_passed conflicts key body (err status) blobs = (err status, blobs)
put_passed conflicts key body (ok (me, app_row)) blobs =
    put_checked conflicts body (validate_key key) me app_row blobs

unfoldable pub storage_put :
    (Text → Blobs → Bool)
    → Text
    → List ℕ
    → Request
    → Option User
    → Db
    → Blobs
    → Result ℕ (Unit {0}) × Blobs
unfolding put_passed
storage_put conflicts key body request account db blobs =
    put_passed conflicts key body (write_gate request account db) blobs

delete_checked : Result ℕ Text → User → App → Blobs → Result ℕ (Unit {0}) × Blobs
delete_checked (err status) me app_row blobs = (err status, blobs)
delete_checked (ok safe) me app_row blobs =
    if exists (full_key app_row.slug me.id safe) blobs
    then (ok tt, remove (full_key app_row.slug me.id safe) blobs)
    else (err 404, blobs)

delete_passed : Text → Result ℕ (User × App) → Blobs → Result ℕ (Unit {0}) × Blobs
unfolding delete_checked
delete_passed key (err status) blobs = (err status, blobs)
delete_passed key (ok (me, app_row)) blobs = delete_checked (validate_key key) me app_row blobs

unfoldable pub storage_delete :
    Text → Request → Option User → Db → Blobs → Result ℕ (Unit {0}) × Blobs
unfolding delete_passed
storage_delete key request account db blobs =
    delete_passed key (write_gate request account db) blobs
