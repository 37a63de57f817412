-- ===== src/Shares.antt =====
-- portal/shares.py: public links to stored objects and to rendered PDFs. The token that
-- `token_urlsafe` draws, the row's id that the database assigns and what WeasyPrint renders are
-- arguments. A row that is deleted by its primary key is deleted by what it was selected for, since
-- no other row has that key.
pub mod Serving
pub mod Purge
pub mod Quota
use claude_pwa_portal.Base.{
  ℕ, ◌+◌, ◌*◌, String, Text, Text-Eq, codes, Bool, true, false, not, ◌&&◌, ◌||◌, Option, none, some,
  List, [], ◌∷◌, ◌++◌, ltb, leb, ◌==◌, Result, ok, err, String-Eq, ℕ-Eq, if◌then◌else◌, is_none,
  contains, length,
}
use claude_pwa_portal.Base.Chars.{take, after_last}
use claude_pwa_portal.Base.Table.{first, select, delete, update, count, insert}
use claude_pwa_portal.Models.{
  Time, seconds, App, User, ShareKind, storage, pdf, Payload, ShareLink, Db,
}
use claude_pwa_portal.Blobs.{Blobs, size, write, remove}

abbrev pub default_ttl_seconds : ℕ
default_ttl_seconds = 7 * 24 * 3600

abbrev pub min_ttl_seconds : ℕ
min_ttl_seconds = 60

abbrev pub max_ttl_seconds : ℕ
max_ttl_seconds = 90 * 24 * 3600

abbrev pub max_view_limit : ℕ
max_view_limit = 1000

abbrev pub max_pdf_bytes : ℕ
max_pdf_bytes = 10 * 1024 * 1024

abbrev pub max_pdf_share_bytes_per_user : ℕ
max_pdf_share_bytes_per_user = 200 * 1024 * 1024

-- An integer that is not positive is treated like 0, so a request's integers are natural numbers.
unfoldable pub clamp_ttl : Option ℕ → ℕ
clamp_ttl none = default_ttl_seconds
clamp_ttl (some ttl_seconds) =
    if ttl_seconds == 0
    then default_ttl_seconds
    else if ltb ttl_seconds min_ttl_seconds
    then min_ttl_seconds
    else if ltb max_ttl_seconds ttl_seconds
    then max_ttl_seconds
    else ttl_seconds

unfoldable pub clamp_views : Option ℕ → ℕ
clamp_views none = 0
clamp_views (some max_views) =
    if max_views == 0 then 0 else if leb max_views max_view_limit then max_views else max_view_limit

-- `filename or other`
abbrev pub or_name : Text → Text → Text
or_name filename other = if filename == codes "" then other else filename

abbrev pub has_token : String → ShareLink → Bool
has_token token row = row.token == token

abbrev pub has_id : ℕ → ShareLink → Bool
has_id id row = row.id == id

new_share :
    Time → ℕ → String → App → User → ShareKind → Payload → Text → Option ℕ → Option ℕ → ShareLink
unfolding clamp_ttl clamp_views take
new_share now id token app_row owner kind payload filename ttl_seconds max_views = record {
  id = id;
  token = token;
  app_id = app_row.id;
  created_by = owner.id;
  kind = kind;
  payload = payload;
  filename = take 80 filename;
  expires_at = now + seconds (clamp_ttl ttl_seconds);
  max_views = clamp_views max_views;
  view_count = 0;
  revoked_at = none;
}

unfoldable pub create_storage_share :
    Time → ℕ → String → App → User → Text → Text → Option ℕ → Option ℕ → Db → ShareLink × Db
unfolding new_share after_last
create_storage_share now id token app_row owner key filename ttl_seconds max_views db =
    let row =
      new_share now id token app_row owner storage (record { key = some key; path = none })
        (or_name filename (after_last 47 key)) ttl_seconds max_views in
    (row, record db { shares = insert row db.shares })

-- `shares/<path>`
abbrev pub share_key : Text → Text
share_key path = codes "shares/" ++ path

-- `storage.size(f"shares/{path}") or 0`, 0 for a row without a path
share_bytes : Blobs → ShareLink → ℕ
unfolding size
share_bytes blobs row = elim row.payload.path [
  | none ↦ 0
  | some path ↦
      if path == codes "" then 0 else elim (size (share_key path) blobs) [ none ↦ 0 | some n ↦ n ]
]

abbrev pub is_pdf : ShareLink → Bool
is_pdf row = elim row.kind [ storage ↦ false | pdf ↦ true ]

sum_bytes : Blobs → List ShareLink → ℕ
unfolding share_bytes
sum_bytes blobs [] = 0
sum_bytes blobs (row ∷ rows) = share_bytes blobs row + sum_bytes blobs rows

abbrev pub pdf_of : ℕ → ShareLink → Bool
pdf_of user_id row = row.created_by == user_id && is_pdf row

unfoldable pub pdf_share_bytes : ℕ → Db → Blobs → ℕ
unfolding sum_bytes
pdf_share_bytes user_id db blobs = sum_bytes blobs (select (pdf_of user_id) db.shares)

has_two_dots : Text → Bool
has_two_dots [] = false
has_two_dots (c ∷ []) = false
has_two_dots (c ∷ d ∷ s) = c == 46 && d == 46 || has_two_dots (d ∷ s)

-- A name that is not a single file name is skipped.
unfoldable pub is_file_name : Text → Bool
unfolding has_two_dots
is_file_name name =
    not (name == codes "" || contains name 47 || contains name 92 || has_two_dots name)

unfoldable pub delete_share_files : List (Option Text) → Blobs → Blobs
unfolding is_file_name remove
delete_share_files [] blobs = blobs
delete_share_files (none ∷ names) blobs = delete_share_files names blobs
delete_share_files (some name ∷ names) blobs =
    delete_share_files names (if is_file_name name then remove (share_key name) blobs else blobs)

unfoldable pub pdf_paths : List ShareLink → List (Option Text)
pdf_paths [] = []
pdf_paths (row ∷ rows) = if is_pdf row then row.payload.path ∷ pdf_paths rows else pdf_paths rows

-- The condition of the sweep's query.
unfoldable pub is_dead : Time → ShareLink → Bool
is_dead now row =
    not (is_none row.revoked_at)
    || ltb row.expires_at now
    || ltb 0 row.max_views && leb row.max_views row.view_count

-- `created_by=None` sweeps the rows of everybody.
abbrev pub is_swept : Time → Option ℕ → ShareLink → Bool
is_swept now none row = is_dead now row
is_swept now (some user_id) row = is_dead now row && row.created_by == user_id

unfoldable pub purge_expired_shares : Time → Option ℕ → Db → Blobs → ℕ × Db × Blobs
unfolding pdf_paths
purge_expired_shares now created_by db blobs = (
  count (is_swept now created_by) db.shares,
  record db { shares = delete (is_swept now created_by) db.shares },
  delete_share_files (pdf_paths (select (is_swept now created_by) db.shares)) blobs,
)

unfoldable pub delete_shares_for_user : ℕ → Db → Blobs → Db × Blobs
unfolding pdf_paths
delete_shares_for_user user_id db blobs = (
  record db { shares = delete (λ row. row.created_by == user_id) db.shares },
  delete_share_files (pdf_paths (select (λ row. row.created_by == user_id) db.shares)) blobs,
)

-- The `RuntimeError`s of a creation and `ShareQuotaExceeded`.
pub data ShareError : Type 0 where
  renderer_missing pdf_too_large quota_exceeded : ShareError

-- Under the lock: purge, measure, write.
store_pdf :
    Time
    → ℕ
    → String
    → App
    → User
    → List ℕ
    → Text
    → Option ℕ
    → Option ℕ
    → Db
    → Blobs
    → Result ShareError ShareLink × Db × Blobs
unfolding new_share write pdf_share_bytes purge_expired_shares
store_pdf now id token app_row owner body filename ttl_seconds max_views db blobs =
    let (_, db1, blobs1) = purge_expired_shares now (some owner.id) db blobs in
    if ltb max_pdf_share_bytes_per_user (pdf_share_bytes owner.id db1 blobs1 + length body)
    then (err quota_exceeded, db1, blobs1)
    else (let path = codes token ++ codes ".pdf" in
        let row =
          new_share now id token app_row owner pdf (record { key = none; path = some path })
            (or_name filename (codes "shared.pdf")) ttl_seconds max_views in
        (ok row, record db1 { shares = insert row db1.shares }, write (share_key path) body blobs1))

unfoldable pub create_pdf_share :
    Time
    → ℕ
    → String
    → App
    → User
    → Option (List ℕ)
    → Text
    → Option ℕ
    → Option ℕ
    → Db
    → Blobs
    → Result ShareError ShareLink × Db × Blobs
unfolding store_pdf
create_pdf_share now id token app_row owner none filename ttl_seconds max_views db blobs =
    (err renderer_missing, db, blobs)
create_pdf_share now id token app_row owner (some body) filename ttl_seconds max_views db blobs =
    if ltb max_pdf_bytes (length body)
    then (err pdf_too_large, db, blobs)
    else store_pdf now id token app_row owner body filename ttl_seconds max_views db blobs

serveable : Time → Option ShareLink → Option ShareLink
serveable now none = none
serveable now (some row) =
    if not (is_none row.revoked_at)
    then none
    else if ltb row.expires_at now
    then none
    else if not (row.max_views == 0) && leb row.max_views row.view_count
    then none
    else some row

unfoldable pub lookup_active : Time → String → Db → Option ShareLink
unfolding serveable
lookup_active now token db = serveable now (first (has_token token) db.shares)

abbrev pub add_view : ShareLink → ShareLink
add_view row = record row { view_count = row.view_count + 1 }

-- `WHERE id = … AND view_count < max_views`, of the row as the request read it.
abbrev pub has_room : ShareLink → ShareLink → Bool
has_room seen row = row.id == seen.id && ltb row.view_count seen.max_views

unfoldable pub record_view : ShareLink → Db → Bool × Db
record_view seen db =
    if ltb 0 seen.max_views
    then (
      not (count (has_room seen) db.shares == 0),
      record db { shares = update (has_room seen) add_view db.shares },
    )
    else (true, record db { shares = update (has_id seen.id) add_view db.shares })

abbrev pub close_share : Time → ShareLink → ShareLink
close_share now row = record row { revoked_at = some now }

unfoldable pub revoke : Time → ShareLink → Db → Db
revoke now row db = record db { shares = update (has_id row.id) (close_share now) db.shares }
