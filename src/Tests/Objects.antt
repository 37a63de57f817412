-- ===== src/Tests/Objects.antt =====
-- The theorems on shares, storage and limits at the small portal.
use claude_pwa_portal.Base.{
  ℕ, ◌+◌, ◌≤◌, String, Text, codes, ◌≡◌, ◌⊎◌, ◌↔◌, inl, inr, refl, Bool, true, false, Option, none,
  some, List, [], ◌∷◌, ◌++◌, Result, ok, err, arith, length,
}
use claude_pwa_portal.Base.Table.{first, count, update, insert, delete, All}
use claude_pwa_portal.Tests.Data.{bob, notes, notes_app, portal, link}
use claude_pwa_portal.Auth.{cookie}
use claude_pwa_portal.Security.{check_csrf_header}
use claude_pwa_portal.Blobs.{Blobs, Blob}
use claude_pwa_portal.Shares.{
  has_token, has_id, clamp_ttl, clamp_views, create_storage_share, create_pdf_share,
  pdf_share_bytes, max_pdf_share_bytes_per_user, purge_expired_shares, lookup_active, add_view,
  record_view, revoke,
}
use claude_pwa_portal.Shares.Serving.{lookup_active-create, Capped, record_view-Capped}
use claude_pwa_portal.Shares.Quota.{create_pdf_share-quota}
use claude_pwa_portal.Gates.{Request, is_token, read_gate, write_gate}
use claude_pwa_portal.Gates.Passed.{Meant, Passed, write_gate-Passed}
use claude_pwa_portal.Storage.{namespace_prefix, storage_put, storage_get}
use claude_pwa_portal.Storage.Bounds.{IsBounded, storage_put-IsBounded, storage_get-put}
use claude_pwa_portal.Base.Chars.{matches_slug}
use claude_pwa_portal.Hosts.{normal_host, apps_base, resolve_app_slug_from_host}
use claude_pwa_portal.Hosts.Slugs.{resolve_app_slug_from_host_iff}
use claude_pwa_portal.Limits.{check_email_rate, extend, email_recipients_per_hour}
use claude_pwa_portal.Limits.Window.{is_recent, Run, Run-hourly}

lookup_active-create_example :
    lookup_active 5 "k2"
      (create_storage_share 5 2 "k2" notes_app bob (codes "b") [] none none portal).1
    ≡ some (create_storage_share 5 2 "k2" notes_app bob (codes "b") [] none none portal).0
unfolding first clamp_ttl
lookup_active-create_example =
    lookup_active-create 5 5 2 "k2" notes_app bob (codes "b") [] none none portal refl

record_view-Capped_example : All Capped (record_view link portal).1.shares
record_view-Capped_example = record_view-Capped link portal (inr (omega arith), tt) (λ h. refl, tt)

create_pdf_share-quota_example :
    pdf_share_bytes 2
      (create_pdf_share 5 2 "k2" notes_app bob (some (1 ∷ 2 ∷ [])) [] none none portal []).1
      (create_pdf_share 5 2 "k2" notes_app bob (some (1 ∷ 2 ∷ [])) [] none none portal []).2
    ≤ max_pdf_share_bytes_per_user
unfolding create_pdf_share claude_pwa_portal.Base.Table.select delete
    claude_pwa_portal.Shares.is_dead
create_pdf_share-quota_example =
    create_pdf_share-quota 5 2 "k2" notes_app bob (1 ∷ 2 ∷ []) [] none none portal
      (create_pdf_share 5 2 "k2" notes_app bob (some (1 ∷ 2 ∷ [])) [] none none portal []).1 []
      (create_pdf_share 5 2 "k2" notes_app bob (some (1 ∷ 2 ∷ [])) [] none none portal []).2
      (refl, tt) refl

-- A request from the page of an app, with the CSRF token of the session.
abbrev page_request : Request
page_request = record {
  app_slug = some notes;
  auth_method = some cookie;
  x_portal_app = none;
  referer = [];
  x_csrf = some "k";
  session_csrf = some "k";
}

write_gate-Passed_example : Passed page_request (some bob) portal bob notes_app × Meant page_request
unfolding write_gate check_csrf_header claude_pwa_portal.Base.text_eq
    claude_pwa_portal.Gates.require_app first claude_pwa_portal.Access.user_can_access_app
write_gate-Passed_example = write_gate-Passed page_request (some bob) portal bob notes_app refl

abbrev no_conflict : Text → Blobs → Bool
no_conflict key blobs = false

storage_put-IsBounded_example :
    IsBounded
      (namespace_prefix notes 2)
      (storage_put no_conflict (codes "a") (1 ∷ 2 ∷ []) page_request (some bob) portal []).1
unfolding write_gate claude_pwa_portal.Base.text_eq claude_pwa_portal.Gates.require_app first
    claude_pwa_portal.Access.user_can_access_app claude_pwa_portal.Storage.usage count
storage_put-IsBounded_example =
    storage_put-IsBounded no_conflict (1 ∷ 2 ∷ []) bob notes_app [] (codes "a") page_request
      (some bob) portal refl (omega arith, omega arith)

storage_get-put_example :
    storage_get
      (codes "a")
      page_request
      (some bob)
      portal
      (storage_put no_conflict (codes "a") (1 ∷ 2 ∷ []) page_request (some bob) portal []).1
    ≡ ok (1 ∷ 2 ∷ [])
unfolding write_gate read_gate storage_put claude_pwa_portal.Base.text_eq
    claude_pwa_portal.Gates.require_app first claude_pwa_portal.Access.user_can_access_app
    claude_pwa_portal.Storage.validate_key claude_pwa_portal.Blobs.size
    claude_pwa_portal.Blobs.read_or_none count claude_pwa_portal.Storage.usage
storage_get-put_example =
    storage_get-put no_conflict (codes "a") (1 ∷ 2 ∷ []) page_request page_request (some bob)
      (some bob) portal portal bob notes_app [] refl refl refl

Run-hourly_example : count (is_recent 9) (7 ∷ 7 ∷ []) ≤ email_recipients_per_hour
unfolding check_email_rate extend
Run-hourly_example =
    Run-hourly {last = 7} {granted = 7 ∷ 7 ∷ []} 9 (Run.request 7 2 (omega arith) Run.start)
      (omega arith)

resolve_app_slug_from_host_iff_example :
    (resolve_app_slug_from_host (codes "Notes.apps.x.org:80") (codes "x.org") ≡ some notes) ↔ (
      (normal_host (codes "Notes.apps.x.org:80") ≡ notes ++ apps_base (codes "x.org"))
      × (matches_slug notes ≡ true))
resolve_app_slug_from_host_iff_example =
    resolve_app_slug_from_host_iff (codes "Notes.apps.x.org:80") (codes "x.org") notes (λ h. cc)
      (λ h. cc)

resolve_test : resolve_app_slug_from_host (codes "Notes.apps.x.org:80") (codes "x.org") ≡ some notes
unfolding resolve_app_slug_from_host claude_pwa_portal.Base.text_eq
resolve_test = refl
