-- ===== src/Shares/Purge.antt =====
-- The sweep of dead links.
use claude_pwa_portal.Base.{ℕ, ◌≤◌, String, ◌≡◌, refl, Option, none, some, arith, String-Eq, ℕ-Eq}
use claude_pwa_portal.Base.Table.{first, count, spared, first-delete_unique}
use claude_pwa_portal.Models.{Time, ShareLink, Db}
use claude_pwa_portal.Blobs.{Blobs}
use claude_pwa_portal.Shares.{
  has_token, is_dead, is_swept, purge_expired_shares, serveable, lookup_active,
}

dead-unserveable :
    (now later : Time) (created_by : Option ℕ) (found : Option ShareLink)
    → now ≤ later
    → serveable later (spared (is_swept now created_by) found) ≡ serveable later found
unfolding serveable is_dead
dead-unserveable now later created_by none h = refl
dead-unserveable now later none (some row) h = ground arith
dead-unserveable now later (some user_id) (some row) h = ground arith

-- The sweep takes no link that anybody could still open: from its time on every token finds what it
-- would have found without the sweep, if no two rows share that token.
pub lookup_active-purge :
    (now later : Time) (created_by : Option ℕ) (token : String) (db : Db) (blobs : Blobs)
    → now ≤ later
    → count (has_token token) db.shares ≤ 1
    → lookup_active later token (purge_expired_shares now created_by db blobs).1
      ≡ lookup_active later token db
unfolding lookup_active purge_expired_shares
lookup_active-purge now later created_by token db blobs h one =
    rw (first-delete_unique (has_token token) (is_swept now created_by) db.shares one)
      (dead-unserveable now later created_by (first (has_token token) db.shares) h)
