-- ===== src/Storage/Bounds.antt =====
-- portal/api.py, "/storage": the bounds on a namespace, and a download after an upload.
use claude_pwa_portal.Base.{
  ℕ, ◌+◌, ◌-◌, ◌≤◌, Text, Text-Eq, text_eq, text_eq_iff, codes, ◌≡◌, refl, Bool, true, false, ◌&&◌,
  Option, List, [], ◌∷◌, ◌++◌, ◌⊎◌, Result, ok, err, ltb, leb, ◌==◌, ℕ-Eq, if◌then◌else◌, length,
  is_none, arith, Bool-cases, inl, inr,
}
use claude_pwa_portal.Base.Chars.{starts_with}
use claude_pwa_portal.Base.Table.{first, delete, count, count-delete_le}
use claude_pwa_portal.Blobs.{Blobs, has_key, read_or_none, size, write}
use claude_pwa_portal.Storage.{
  max_namespace_bytes, max_namespace_objects, is_under, usage, or_zero, guarded_write,
  max_object_bytes, namespace_prefix, full_key, put_checked, put_passed, storage_put, storage_get,
  validate_key,
}
use claude_pwa_portal.Models.{User, App, Db}
use claude_pwa_portal.Gates.{Request, read_gate, write_gate}
use claude_pwa_portal.Blobs.Laws.{read-write}

starts_with-append : (s t : Text) → starts_with (s ++ t) s ≡ true
unfolding starts_with
starts_with-append [] t = refl
starts_with-append (c ∷ s) t = ground (arith, starts_with-append s t)

ltb-false : {a b : ℕ} → ltb a b ≡ false → b ≤ a
ltb-false e = ground arith

-- A write replaces the bytes that were counted for its key.
usage-delete :
    (prefix key : Text) (blobs : Blobs)
    → starts_with key (prefix ++ codes "/") ≡ true
    → usage prefix (delete (has_key key) blobs) + or_zero (size key blobs) ≤ usage prefix blobs
unfolding usage delete size read_or_none first
usage-delete prefix key [] h = omega arith
usage-delete prefix key (x ∷ xs) h = elim (Bool-cases (x.key == key)) [
  | inl same ↦
      rw same
        (rw ((text_eq_iff x.key key).0 same) (rw h (ground (arith, usage-delete prefix key xs h))))
  | inr other ↦ rw other (ground (arith, usage-delete prefix key xs h))
]

count-delete_key :
    (prefix key : Text) (blobs : Blobs)
    → starts_with key (prefix ++ codes "/") ≡ true
    → count (is_under prefix) (delete (has_key key) blobs)
        + (if is_none (size key blobs) then 0 else 1)
      ≤ count (is_under prefix) blobs
unfolding count delete size read_or_none first
count-delete_key prefix key [] h = omega arith
count-delete_key prefix key (x ∷ xs) h = elim (Bool-cases (x.key == key)) [
  | inl same ↦ rw same (
      rw ((text_eq_iff x.key key).0 same)
        (rw h (ground (arith, count-delete_le (is_under prefix) (has_key key) xs))))
  | inr other ↦ rw other (ground (arith, count-delete_key prefix key xs h))
]

-- A namespace within its two limits.
abbrev pub IsBounded : Text → Blobs → Type 0
IsBounded prefix blobs =
    (usage prefix blobs ≤ max_namespace_bytes)
    × (count (is_under prefix) blobs ≤ max_namespace_objects)

write-IsBounded :
    (prefix key : Text) (body : List ℕ) (blobs : Blobs)
    → starts_with key (prefix ++ codes "/") ≡ true
    → (is_none (size key blobs) && leb max_namespace_objects (count (is_under prefix) blobs))
      ≡ false
    → ltb max_namespace_bytes (usage prefix blobs - or_zero (size key blobs) + length body) ≡ false
    → IsBounded prefix blobs
    → IsBounded prefix (write key body blobs)
unfolding write usage count
write-IsBounded prefix key body blobs inside room fits held = rw inside (
  omega (arith, ltb-false fits, usage-delete prefix key blobs inside),
  ground (arith, held.1, room, count-delete_key prefix key blobs inside),
)

key-inside :
    (prefix key : Text) → starts_with (prefix ++ codes "/" ++ key) (prefix ++ codes "/") ≡ true
unfolding starts_with
key-inside [] key = refl
key-inside (c ∷ prefix) key = ground (arith, key-inside prefix key)

guarded_write-IsBounded :
    (conflicts : Text → Blobs → Bool) (prefix key : Text) (body : List ℕ) (blobs : Blobs)
    → IsBounded prefix blobs
    → IsBounded prefix (guarded_write conflicts prefix (prefix ++ codes "/" ++ key) body blobs).1
unfolding guarded_write
guarded_write-IsBounded conflicts prefix key body blobs held =
    let at_key = prefix ++ codes "/" ++ key in
    elim (Bool-cases
      (is_none (size at_key blobs) && leb max_namespace_objects (count (is_under prefix) blobs))) [
        | inl full ↦ rw full held
        | inr room ↦
            elim (Bool-cases (
              ltb max_namespace_bytes
                (usage prefix blobs - or_zero (size at_key blobs) + length body))) [
                  | inl large ↦ rw room (rw large held)
                  | inr fits ↦ elim (Bool-cases (conflicts at_key blobs)) [
                    | inl clash ↦ rw room (rw fits (rw clash held))
                    | inr free ↦ rw room (
                        rw fits (
                          rw free (
                            write-IsBounded prefix at_key body blobs (key-inside prefix key) room
                              fits held)))
                  ]
                ]
      ]

module _ (conflicts : Text → Blobs → Bool) (body : List ℕ) (me : User) (app_row : App)
    (blobs : Blobs) where
  put_checked-IsBounded :
      (safe : Result ℕ Text)
      → IsBounded (namespace_prefix app_row.slug me.id) blobs
      → IsBounded
          (namespace_prefix app_row.slug me.id)
          (put_checked conflicts body safe me app_row blobs).1
  unfolding put_checked
  put_checked-IsBounded (err status) held = held
  put_checked-IsBounded (ok safe) held = elim (Bool-cases (ltb max_object_bytes (length body))) [
    | inl large ↦ rw large held
    | inr fits ↦ rw fits (
        guarded_write-IsBounded conflicts (namespace_prefix app_row.slug me.id) safe body blobs
          held)
  ]

  -- Whatever an upload to storage is answered with, the namespace of the app and the user that passed
  -- the gates stays within 100 MB and 10000 objects where it was within them before.
  pub storage_put-IsBounded :
      (key : Text) (request : Request) (account : Option User) (db : Db)
      → write_gate request account db ≡ ok (me, app_row)
      → IsBounded (namespace_prefix app_row.slug me.id) blobs
      → IsBounded
          (namespace_prefix app_row.slug me.id)
          (storage_put conflicts key body request account db blobs).1
  unfolding storage_put put_passed
  storage_put-IsBounded key request account db passed held =
      rw passed (put_checked-IsBounded (validate_key key) held)

put_checked-ok :
    (conflicts : Text → Blobs → Bool) (body : List ℕ) (safe : Text) (me : User) (app_row : App)
    (blobs : Blobs)
    → (put_checked conflicts body (ok safe) me app_row blobs).0 ≡ ok tt
    → (put_checked conflicts body (ok safe) me app_row blobs).1
      ≡ write (full_key app_row.slug me.id safe) body blobs
unfolding put_checked guarded_write
put_checked-ok conflicts body safe me app_row blobs e = ground arith

Result-cases :
    {A : Type 0} (r : Result ℕ A) → ((status : ℕ) × (r ≡ err status)) ⊎ ((a : A) × (r ≡ ok a))
Result-cases (err status) = inl (status, refl)
Result-cases (ok a) = inr (a, refl)

-- Where an upload passes the gates and is answered as stored, a download of that key from the storage
-- then, which the gates let pass for the same user in the same app, answers with what was uploaded.
pub storage_get-put :
    (conflicts : Text → Blobs → Bool) (key : Text) (body : List ℕ) (request again : Request)
    (account reader : Option User) (db later : Db) (me : User) (app_row : App) (blobs : Blobs)
    → write_gate request account db ≡ ok (me, app_row)
    → read_gate again reader later ≡ ok (me, app_row)
    → (storage_put conflicts key body request account db blobs).0 ≡ ok tt
    → storage_get key again reader later (storage_put conflicts key body request account db blobs).1
      ≡ ok body
unfolding storage_put put_passed storage_get read_or_none first write text_eq namespace_prefix
storage_get-put conflicts key body request again account reader db later me app_row blobs passed
      passed' stored =
    elim (Result-cases (validate_key key)) [
      | inl (status, bad) ↦ absurd (cc (rw (bad, put_checked) at (rw passed at stored)))
      | inr (safe, good) ↦
          let written =
            put_checked-ok conflicts body safe me app_row blobs
              (rw good at (rw passed at stored)) in
          rw passed (
            rw passed' (
              rw good (
                rw written (
                  rw
                    (read-write (full_key app_row.slug me.id safe)
                      (full_key app_row.slug me.id safe) body blobs)
                    (rw
                      ((text_eq_iff (full_key app_row.slug me.id safe)
                          (full_key app_row.slug me.id safe)).1
                        refl)
                      refl)))))
    ]
