-- ===== src/Shares/Quota.antt =====
-- The ceiling on the bytes of a user's rendered PDFs.
use claude_pwa_portal.Base.{
  ap, sym, ℕ, ◌+◌, ◌≤◌, String, Text, Text-Eq, codes, text_eq, text_eq_iff, ◌≡◌, refl, Bool, true,
  not, Option, none, some, ok, List, [], ◌∷◌, ◌++◌, arith, ltb, ◌==◌, ℕ-Eq, length, Bool-cases, inl,
  inr,
}
use claude_pwa_portal.Base.Table.{select, insert, All, All-delete, select-append}
use claude_pwa_portal.Models.{Time, App, User, ShareLink, Db, pdf}
use claude_pwa_portal.Blobs.{Blobs, write}
use claude_pwa_portal.Blobs.Laws.{size-write}
use claude_pwa_portal.Shares.{
  max_pdf_bytes, max_pdf_share_bytes_per_user, share_key, share_bytes, sum_bytes, pdf_of,
  pdf_share_bytes, is_swept, purge_expired_shares, or_name, new_share, store_pdf, create_pdf_share,
}

-- The row does not point at the file of that name.
abbrev pub elsewhere : Text → ShareLink → Bool
elsewhere path row = elim row.payload.path [ none ↦ true | some other ↦ not (path == other) ]

share_key-eq : (a b : Text) → (share_key a == share_key b) ≡ (a == b)
share_key-eq a b = unfold text_eq in refl

bytes-write_named :
    (path : Text) (body : List ℕ) (blobs : Blobs) (row : ShareLink) (named : Option Text)
    → row.payload.path ≡ named
    → elsewhere path row ≡ true
    → share_bytes (write (share_key path) body blobs) row ≡ share_bytes blobs row
unfolding share_bytes
bytes-write_named path body blobs row none e h = rw e refl
bytes-write_named path body blobs row (some other) e h = rw e (
    ground (
      arith,
      rw e at h,
      size-write (share_key path) (share_key other) body blobs,
      share_key-eq path other,
    ))

bytes-write_other :
    (path : Text) (body : List ℕ) (blobs : Blobs) (row : ShareLink)
    → elsewhere path row ≡ true
    → share_bytes (write (share_key path) body blobs) row ≡ share_bytes blobs row
bytes-write_other path body blobs row h =
    bytes-write_named path body blobs row row.payload.path refl h

sum-write_other :
    (path : Text) (body : List ℕ) (blobs : Blobs) (p : ShareLink → Bool) (rows : List ShareLink)
    → All (λ row. elsewhere path row ≡ true) rows
    → sum_bytes (write (share_key path) body blobs) (select p rows)
      ≡ sum_bytes blobs (select p rows)
unfolding sum_bytes select
sum-write_other path body blobs p [] h = refl
sum-write_other path body blobs p (row ∷ rows) h =
    ground (
      arith,
      h.0,
      bytes-write_other path body blobs row,
      sum-write_other path body blobs p rows h.1,
    )

sum-insert :
    (blobs : Blobs) (rows : List ShareLink) (row : ShareLink)
    → sum_bytes blobs (insert row rows) ≡ sum_bytes blobs rows + share_bytes blobs row
unfolding sum_bytes
sum-insert blobs [] row = omega arith
sum-insert blobs (x ∷ rows) row = omega (arith, sum-insert blobs rows row)

-- The rows of the table point at other files than that of the token.
abbrev pub IsFresh : String → List ShareLink → Type 0
IsFresh token rows = All (λ row. elsewhere (codes token ++ codes ".pdf") row ≡ true) rows

insert-bytes :
    (owner_id : ℕ) (path : Text) (body : List ℕ) (blobs : Blobs) (rows : List ShareLink)
    (row : ShareLink)
    → All (λ x. elsewhere path x ≡ true) rows
    → pdf_of owner_id row ≡ true
    → row.payload.path ≡ some path
    → sum_bytes (write (share_key path) body blobs) (select (pdf_of owner_id) (insert row rows))
      ≤ sum_bytes blobs (select (pdf_of owner_id) rows) + length body
unfolding share_bytes
insert-bytes owner_id path body blobs rows row fresh mine here =
    rw (select-append (pdf_of owner_id) rows row) (
      rw (mine) (
        rw (sum-insert (write (share_key path) body blobs) (select (pdf_of owner_id) rows) row) (
          rw (sum-write_other path body blobs (pdf_of owner_id) rows fresh) (
            rw (here) (
              ground (
                arith,
                size-write (share_key path) (share_key path) body blobs,
                text_eq_iff (share_key path) (share_key path),
              ))))))

store_pdf-quota :
    (now : Time) (id : ℕ) (token : String) (app_row : App) (owner : User) (body : List ℕ)
    (filename : Text) (ttl_seconds max_views : Option ℕ) (db db' : Db) (blobs blobs' : Blobs)
    {row : ShareLink}
    → IsFresh token db.shares
    → store_pdf now id token app_row owner body filename ttl_seconds max_views db blobs
      ≡ (ok row, db', blobs')
    → pdf_share_bytes owner.id db' blobs' ≤ max_pdf_share_bytes_per_user
unfolding store_pdf new_share purge_expired_shares pdf_share_bytes
store_pdf-quota now id token app_row owner body filename ttl_seconds max_views db db' blobs blobs'
      {row} fresh e =
    let (_, db1, blobs1) = purge_expired_shares now (some owner.id) db blobs in
    let path = codes token ++ codes ".pdf" in
    let made =
      new_share now id token app_row owner pdf (record { key = none; path = some path })
        (or_name filename (codes "shared.pdf")) ttl_seconds max_views in
    elim (Bool-cases
      (ltb max_pdf_share_bytes_per_user (pdf_share_bytes owner.id db1 blobs1 + length body))) [
        | inl full ↦ absurd (cc (rw full at e))
        | inr fits ↦
            let made_here = rw fits at e in
            rw (ap (λ r. r.1.shares) (sym made_here), ap (λ r. r.2) (sym made_here))
              (ground (
                arith,
                fits,
                insert-bytes owner.id path body blobs1 db1.shares made
                    (All-delete _ (is_swept now (some owner.id)) db.shares fresh) (ground arith)
                    refl,
              ))
      ]

-- Where rendering a PDF for a user succeeds, with a token that no earlier row's file is named
-- after, the bytes of that user's rendered PDFs are then within the limit for one user.
pub create_pdf_share-quota :
    (now : Time) (id : ℕ) (token : String) (app_row : App) (owner : User) (body : List ℕ)
    (filename : Text) (ttl_seconds max_views : Option ℕ) (db db' : Db) (blobs blobs' : Blobs)
    {row : ShareLink}
    → IsFresh token db.shares
    → create_pdf_share now id token app_row owner
        (some body)
        filename
        ttl_seconds
        max_views
        db
        blobs
      ≡ (ok row, db', blobs')
    → pdf_share_bytes owner.id db' blobs' ≤ max_pdf_share_bytes_per_user
unfolding create_pdf_share
create_pdf_share-quota now id token app_row owner body filename ttl_seconds max_views db db' blobs
      blobs' fresh e =
    elim (Bool-cases (ltb max_pdf_bytes (length body))) [
      | inl large ↦ absurd (cc (rw large at e))
      | inr small ↦
          store_pdf-quota now id token app_row owner body filename ttl_seconds max_views db db'
            blobs blobs' fresh (rw small at e)
    ]
