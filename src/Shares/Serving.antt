-- ===== src/Shares/Serving.antt =====
-- When a share link serves, and how often.
use claude_pwa_portal.Base.{
  ℕ, ◌+◌, ◌≤◌, ◌<◌, String, Text, ◌≡◌, ◌↔◌, ◌⊎◌, inl, inr, refl, true, ◌||◌, Option, none, some,
  List, [], ◌∷◌, arith, ltb, ◌==◌, String-Eq, ℕ-Eq, if◌then◌else◌, Bool-cases, eq_iff, nat_eq_iff,
}
use claude_pwa_portal.Base.Table.{
  first, update, count, All, first-update, first-append, first_sound, first-count_one,
  count_pos_of_first,
}
use claude_pwa_portal.Models.{Time, seconds, App, User, ShareLink, Db}
use claude_pwa_portal.Shares.{
  clamp_ttl, clamp_views, has_token, has_id, create_storage_share, serveable, lookup_active,
  add_view, has_room, record_view, close_share, revoke,
}

-- A link that serves: not revoked, not past its time, and below its cap if it has one.
pub record IsServeable (now : Time) (row : ShareLink) : Type 0 where
  pub open_still : row.revoked_at ≡ none
  pub in_time : now ≤ row.expires_at
  pub below_cap : (row.max_views ≡ 0) ⊎ (row.view_count < row.max_views)

serveable_iff :
    (now : Time) (found : Option ShareLink) (row : ShareLink)
    → (serveable now found ≡ some row) ↔ ((found ≡ some row) × IsServeable now row)
unfolding serveable
serveable_iff now none row = (λ h. cc, λ h. cc (h.0))
serveable_iff now (some other) row = (λ h. ground arith, λ h. ground arith)

-- A token finds a link exactly if the row with that token serves.
pub lookup_active_iff :
    (now : Time) (token : String) (db : Db) (row : ShareLink)
    → (lookup_active now token db ≡ some row)
      ↔ ((first (has_token token) db.shares ≡ some row) × IsServeable now row)
unfolding lookup_active
lookup_active_iff now token db row = serveable_iff now (first (has_token token) db.shares) row

-- The lifetime of a new link lies between a minute and 90 days, and its cap is at most 1000 views.
pub clamp_bounds :
    (ttl_seconds max_views : Option ℕ)
    → (60 ≤ clamp_ttl ttl_seconds)
      × (clamp_ttl ttl_seconds ≤ 7776000)
      × (clamp_views max_views ≤ 1000)
unfolding clamp_ttl clamp_views
clamp_bounds ttl_seconds max_views = ground arith

-- A new storage link is found under its token, if no row had that token, exactly until its time is
-- over: at every time up to it, and at none after.
pub lookup_active-create :
    (now later : Time) (id : ℕ) (token : String) (app_row : App) (owner : User)
    (key filename : Text) (ttl_seconds max_views : Option ℕ) (db : Db)
    → first (has_token token) db.shares ≡ none
    → let made =
        create_storage_share now id token app_row owner key filename ttl_seconds max_views db in
      lookup_active later token made.1
      ≡ (if ltb (now + seconds (clamp_ttl ttl_seconds)) later then none else some made.0)
unfolding lookup_active create_storage_share
lookup_active-create now later id token app_row owner key filename ttl_seconds max_views db fresh =
    rw (first-append (has_token token) db.shares _ fresh)
      (unfold serveable in ground (arith, eq_iff token token))

-- After the row that has a token is revoked, the token finds no link, at any time.
pub lookup_active-revoke :
    (now later : Time) (token : String) (row : ShareLink) (db : Db)
    → first (has_token token) db.shares ≡ some row
    → lookup_active later token (revoke now row db) ≡ none
unfolding lookup_active revoke
lookup_active-revoke now later token row db e =
    rw (first-update (has_token token) (has_id row.id) (close_share now) (λ x. refl) db.shares)
      (rw e (unfold serveable in ground (arith, nat_eq_iff row.id row.id)))

-- No row has been viewed more often than its cap allows.
abbrev pub Capped : ShareLink → Type 0
Capped row = (row.max_views ≡ 0) ⊎ (row.view_count ≤ row.max_views)

-- What a request read of a row is what is stored, but for the number of views.
abbrev pub Agrees : ShareLink → ShareLink → Type 0
Agrees seen row = (row.id == seen.id) ≡ true → row.max_views ≡ seen.max_views

Capped-room :
    (seen : ShareLink) (rows : List ShareLink)
    → All Capped rows
    → All (Agrees seen) rows
    → All Capped (update (has_room seen) add_view rows)
unfolding update
Capped-room seen [] c a = tt
Capped-room seen (row ∷ rows) c a = (
  elim (Bool-cases (has_room seen row)) [
    | inl t ↦ rw t (inr (ground (arith, a.0)))
    | inr f ↦ rw f c.0
  ],
  Capped-room seen rows c.1 a.1,
)

Capped-free :
    (seen : ShareLink) (rows : List ShareLink)
    → seen.max_views ≡ 0
    → All Capped rows
    → All (Agrees seen) rows
    → All Capped (update (has_id seen.id) add_view rows)
unfolding update
Capped-free seen [] z c a = tt
Capped-free seen (row ∷ rows) z c a = (
  elim (Bool-cases (has_id seen.id row)) [
    | inl t ↦ rw t (inl (ground (arith, a.0 t)))
    | inr f ↦ rw f c.0
  ],
  Capped-free seen rows z c.1 a.1,
)

-- Where no row has been viewed more often than its cap allows, and the rows with the id that a request
-- read have the cap that it read, recording the view passes no cap, however old what it read is.
pub record_view-Capped :
    (seen : ShareLink) (db : Db)
    → All Capped db.shares
    → All (Agrees seen) db.shares
    → All Capped (record_view seen db).1.shares
unfolding record_view
record_view-Capped seen db c a = elim (Bool-cases (ltb 0 seen.max_views)) [
  | inl capped ↦ rw capped (Capped-room seen db.shares c a)
  | inr free ↦ rw free (Capped-free seen db.shares (ground arith) c a)
]

-- Where one row alone has the id that a request read, and the cap that it read, recording the view
-- counts it exactly if it is allowed, and it is allowed as long as the stored row has room, whatever
-- number of views the request itself had read.
pub record_view-exact :
    (seen row : ShareLink) (db : Db)
    → first (has_id seen.id) db.shares ≡ some row
    → count (has_id seen.id) db.shares ≤ 1
    → row.max_views ≡ seen.max_views
    → let allowed = seen.max_views == 0 || ltb row.view_count row.max_views in
      ((record_view seen db).0 ≡ allowed)
      × (first (has_id seen.id) (record_view seen db).1.shares
          ≡ some (if allowed then add_view row else row))
unfolding record_view
record_view-exact seen row db f one same = elim (Bool-cases (ltb 0 seen.max_views)) [
  | inl capped ↦ rw capped (
    ground (
      arith,
      first-count_one (has_room seen) (has_id seen.id) (λ x h. ground arith) db.shares one,
      first_sound (has_room seen) db.shares {x = row},
      first_sound (has_id seen.id) db.shares {x = row} f,
      count_pos_of_first (has_room seen) (has_id seen.id) db.shares {x = row} f,
    ),
    rw (first-update (has_id seen.id) (has_room seen) add_view (λ x. refl) db.shares, f)
        (ground (arith, first_sound (has_id seen.id) db.shares {x = row} f)),
  )
  | inr free ↦ rw free (
    ground arith,
    rw (first-update (has_id seen.id) (has_id seen.id) add_view (λ x. refl) db.shares, f)
        (ground (arith, first_sound (has_id seen.id) db.shares {x = row} f)),
  )
]
