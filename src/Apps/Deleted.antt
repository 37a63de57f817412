-- ===== src/Apps/Deleted.antt =====
-- portal/apps.py and portal/admin.py, the deletion of an app: the tables and the files after it.
use mathlib.Core.Option.{some-injective}
use mathlib.Core.Path.{subst}
use claude_pwa_portal.Base.{
  Bool, if◌then◌else◌, ℕ, String, Text, Text-Eq, ◌≡◌, refl, ◌∙◌, true, false, Option, none, some,
  List, [], ◌∷◌, ◌==◌, ℕ-Eq, Bool-cases, inl, inr,
}
use claude_pwa_portal.Base.Table.{All, All-delete, All-delete-false, select}
use claude_pwa_portal.Models.{Time, User, App, ShareLink, Db}
use claude_pwa_portal.Audit.{record_event}
use claude_pwa_portal.Access.{delete_access_for_app}
use claude_pwa_portal.AppSessions.{get_active_app_session, revoke_all_app_sessions_for_slug}
use claude_pwa_portal.AppSessions.Revocation.{
  unless, get_active-revoke_slug, get_active_app_session_reads,
}
use claude_pwa_portal.Blobs.{Blobs, Blob, has_key, is_under, remove, delete_prefix}
use claude_pwa_portal.Shares.{delete_share_files, pdf_paths, is_pdf, is_file_name, share_key}
use claude_pwa_portal.Apps.{find_app, bundle_prefix, is_of_app, delete_app}

-- No object has the key under which the link's rendered PDF is stored.
abbrev pub NoPdf : Blobs → Option Text → Type 0
NoPdf blobs path =
    (name : Text)
    → path ≡ some name
    → is_file_name name ≡ true
    → All (λ b. (b.key == share_key name) ≡ false) blobs

-- The tables and the files after the deletion of an app.
pub record Deleted (max_age : ℕ) (app_row : App) (db : Db) (db' : Db) (blobs' : Blobs)
    : Type 0 where
  pub row : All (λ a. (a.id == app_row.id) ≡ false) db'.apps
  pub accesses : All (λ r. (r.app_id == app_row.id) ≡ false) db'.accesses
  pub shares : All (λ r. (r.app_id == app_row.id) ≡ false) db'.shares
  pub schedules : All (λ r. (r.app_slug == app_row.slug) ≡ false) db'.schedules
  pub submissions : All (λ r. (r.app_slug == app_row.slug) ≡ false) db'.submissions
  pub sessions :
      (later : Time) (t : Option String)
      → get_active_app_session max_age later t db'
        ≡ unless (λ r. r.slug == app_row.slug) (get_active_app_session max_age later t db)
  pub files : All (λ b. is_under (bundle_prefix app_row.slug) b ≡ false) blobs'
  pub pdfs :
      All
        (λ r. (r.app_id == app_row.id) ≡ true → is_pdf r ≡ true → NoPdf blobs' r.payload.path)
        db.shares

share_files-All :
    (P : Blob → Type 0) (names : List (Option Text)) (blobs : Blobs)
    → All P blobs
    → All P (delete_share_files names blobs)
unfolding delete_share_files remove
share_files-All P [] blobs h = h
share_files-All P (none ∷ names) blobs h = share_files-All P names blobs h
share_files-All P (some name ∷ names) blobs h = elim (Bool-cases (is_file_name name)) [
  | inl t ↦ rw t (share_files-All P names (remove (share_key name) blobs) (All-delete P _ blobs h))
  | inr t ↦ rw t (share_files-All P names blobs h)
]

share_files-NoPdf :
    (names : List (Option Text)) (blobs : Blobs)
    → All (NoPdf (delete_share_files names blobs)) names
unfolding delete_share_files remove
share_files-NoPdf [] blobs = tt
share_files-NoPdf (none ∷ names) blobs = (λ name e h. absurd (cc), share_files-NoPdf names blobs)
share_files-NoPdf (some x ∷ names) blobs = (
  λ name e h.
      subst
        (λ n.
          is_file_name n ≡ true
          → All (λ b. (b.key == share_key n) ≡ false) (delete_share_files (some x ∷ names) blobs))
        (some-injective _ _ e)
        (λ k. rw k (
          share_files-All (λ b. (b.key == share_key x) ≡ false) names (remove (share_key x) blobs)
            (All-delete-false (has_key (share_key x)) blobs)))
        h,
  share_files-NoPdf names (if is_file_name x then remove (share_key x) blobs else blobs),
)

-- What holds of the paths of the selected PDFs holds of each row.
paths-All :
    (Q : Option Text → Type 0) (p : ShareLink → Bool) (rows : List ShareLink)
    → All Q (pdf_paths (select p rows))
    → All (λ r. p r ≡ true → is_pdf r ≡ true → Q r.payload.path) rows
unfolding pdf_paths select
paths-All Q p [] h = tt
paths-All Q p (r ∷ rows) h = elim (Bool-cases (p r)) [
  | inr t ↦ (λ k l. absurd (cc), paths-All Q p rows (rw t at h))
  | inl t ↦ elim (Bool-cases (is_pdf r)) [
    | inr u ↦ (λ k l. absurd (cc), paths-All Q p rows (rw (u, pdf_paths) at (rw t at h)))
    | inl u ↦
        let parts = rw (u, pdf_paths) at (rw t at h) in (λ k l. parts.0, paths-All Q p rows parts.1)
  ]
]

-- After the deletion of an app that is there, its row is gone, and so are the access rows, the share
-- links, the schedules and the submissions of the app; no session in it is active, and the sessions in
-- other apps are as they were; no file of its bundle is there, and none of the PDFs that its links
-- had stored under a file name.
pub delete_app-Deleted :
    (max_age : ℕ) (now : Time) (slug : Text) (actor : User) (app_row : App) (db : Db)
    (blobs : Blobs)
    → find_app slug db ≡ some app_row
    → ((delete_app now slug actor db blobs).0 ≡ true)
      × Deleted max_age app_row db
          (delete_app now slug actor db blobs).1
          (delete_app now slug actor db blobs).2
unfolding delete_app delete_access_for_app record_event revoke_all_app_sessions_for_slug
    delete_prefix
delete_app-Deleted max_age now slug actor app_row db blobs found =
    rw (found, delete_app)
      (
        refl,
        record {
          row = All-delete-false (λ a. a.id == app_row.id) db.apps;
          accesses = All-delete-false (λ r. r.app_id == app_row.id) db.accesses;
          shares = All-delete-false (is_of_app app_row.id) db.shares;
          schedules = All-delete-false (λ s. s.app_slug == app_row.slug) db.schedules;
          submissions = All-delete-false (λ s. s.app_slug == app_row.slug) db.submissions;
          sessions = λ later t.
              get_active_app_session_reads max_age later t _
                (revoke_all_app_sessions_for_slug now app_row.slug db).1 refl
              ∙ get_active-revoke_slug max_age now later app_row.slug t db;
          files =
              share_files-All (λ b. is_under (bundle_prefix app_row.slug) b ≡ false)
                (pdf_paths (select (is_of_app app_row.id) db.shares))
                (delete_prefix (bundle_prefix app_row.slug) blobs)
                (All-delete-false (is_under (bundle_prefix app_row.slug)) blobs);
          pdfs =
              paths-All
                (NoPdf (
                  delete_share_files (pdf_paths (select (is_of_app app_row.id) db.shares))
                    (delete_prefix (bundle_prefix app_row.slug) blobs)))
                (is_of_app app_row.id) db.shares
                (share_files-NoPdf (pdf_paths (select (is_of_app app_row.id) db.shares))
                  (delete_prefix (bundle_prefix app_row.slug) blobs));
        },
      )
