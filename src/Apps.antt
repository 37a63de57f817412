-- ===== src/Apps.antt =====
-- portal/apps.py: the install and the update of an app, and the forms by which an administrator
-- changes what it may reach, its place, whether it is on, and that it is there. The CSRF check has
-- passed. A `set` of texts that is stored sorted is a list without an order of its own here, in
-- which no text is added twice. Parameters: those of the checks of a bundle.
pub mod Lists
pub mod Origins
pub mod Revoked
pub mod Deleted
use claude_pwa_portal.Base.{
  ℕ, zero, suc, ◌+◌, ◌*◌, String, Text, Text-Eq, codes, Bool, true, false, not, ◌&&◌, ◌||◌, Option,
  none, some, List, [], ◌∷◌, ◌++◌, map, Result, ok, err, ltb, leb, ◌==◌, String-Eq, ℕ-Eq, Eq,
  if◌then◌else◌, contains, length, is_none,
}
use claude_pwa_portal.Base.Chars.{strip, lower, rstrip_by}
use claude_pwa_portal.Base.Table.{first, select, update, delete, insert}
use claude_pwa_portal.Models.{Time, User, App, ShareLink, ShareKind, Db}
use claude_pwa_portal.Audit.{record_event}
use claude_pwa_portal.Access.{grant_default_access_for_new_app, delete_access_for_app}
use claude_pwa_portal.AppSessions.{revoke_all_app_sessions_for_slug}
use claude_pwa_portal.Blobs.{Blobs, list_under, delete_prefix, replace_tree}
use claude_pwa_portal.Shares.{delete_share_files, pdf_paths}
use claude_pwa_portal.Manifest.{allowed_services}
use claude_pwa_portal.Manifest.Origins.{matches_origin, normal_origin}
use claude_pwa_portal.Manifest.Schema.{Manifest}
use claude_pwa_portal.Bundles.{
  Bundle, UploadError, slug_mismatch, already_exists, orphaned_data, prepare_bundle,
}

abbrev pub has_slug : Text → App → Bool
has_slug slug a = a.slug == slug

unfoldable pub find_app : Text → Db → Option App
find_app slug db = first (has_slug slug) db.apps

-- The items of a list that are in none of another.
unfoldable pub without {ℓ} : {A : Type ℓ} ⦃e : Eq A⦄ → List A → List A → List A
without taken [] = []
without taken (x ∷ xs) = let rest = without taken xs in if contains taken x then rest else x ∷ rest

-- The items of a list that are in another too.
unfoldable pub among {ℓ} : {A : Type ℓ} ⦃e : Eq A⦄ → List A → List A → List A
among known [] = []
among known (x ∷ xs) = let rest = among known xs in if contains known x then x ∷ rest else rest

-- The items of a list, each where it stands first.
unfoldable pub dedupe {ℓ} : {A : Type ℓ} ⦃e : Eq A⦄ → List A → List A → List A
dedupe seen [] = []
dedupe seen (x ∷ xs) =
    let skipped = dedupe seen xs in
    let added = dedupe (x ∷ seen) xs in if contains seen x then skipped else x ∷ added

abbrev pub bundle_prefix : Text → Text
bundle_prefix slug = codes "apps/" ++ slug

-- The row of a fresh install: what the manifest declares is approved. `id` is the key that the
-- database assigns.
unfoldable pub new_app : ℕ → User → Manifest → App
new_app id uploader manifest = record {
  id = id;
  slug = manifest.slug;
  name = manifest.name;
  version = manifest.version;
  icon = manifest.icon;
  entry = manifest.entry;
  services = manifest.services;
  allowed_services = manifest.services;
  csp_strict = manifest.permissions.csp_strict;
  requested_origins = manifest.permissions.network;
  allowed_origins = manifest.permissions.network;
  revoked_origins = [];
  revoked_services = [];
  services_ungated = false;
  tools = manifest.tools;
  forms = manifest.forms;
  enabled = true;
  display_order = 0;
  uploaded_by = some uploader.id;
}

-- The origins that an administrator added by hand: allowed and never requested.
unfoldable pub admin_extras : App → List Text
unfolding without
admin_extras existing = without existing.requested_origins existing.allowed_origins

-- The row of an app after an update.
unfoldable pub replaced_app : User → Manifest → App → App
unfolding without admin_extras
replaced_app uploader manifest existing =
    let new_requested = without existing.revoked_origins manifest.permissions.network in
    record existing {
      name = manifest.name;
      version = manifest.version;
      icon = manifest.icon;
      entry = manifest.entry;
      services = manifest.services;
      allowed_services = without existing.revoked_services manifest.services;
      services_ungated = existing.services_ungated && length manifest.services == 0;
      csp_strict = manifest.permissions.csp_strict;
      requested_origins = manifest.permissions.network;
      allowed_origins = new_requested ++ without new_requested (admin_extras existing);
      tools = manifest.tools;
      forms = manifest.forms;
      uploaded_by = some uploader.id;
    }

fresh_install : ℕ → User → Manifest → Blobs → Db → Blobs → Result UploadError App × Db × Blobs
unfolding new_app list_under replace_tree
fresh_install id uploader manifest files db blobs =
    if not (length (list_under (bundle_prefix manifest.slug) blobs) == 0)
    then (err orphaned_data, db, blobs)
    else (let row = new_app id uploader manifest in
        (
          ok row,
          grant_default_access_for_new_app row (record db { apps = insert row db.apps }),
          replace_tree (bundle_prefix manifest.slug) files blobs,
        ))

replace_install : User → Manifest → App → Blobs → Db → Blobs → Result UploadError App × Db × Blobs
unfolding replaced_app replace_tree
replace_install uploader manifest existing files db blobs = (
  ok (replaced_app uploader manifest existing),
  record db {
    apps = update (λ a. a.id == existing.id) (λ a. replaced_app uploader manifest existing) db.apps;
  },
  replace_tree (bundle_prefix manifest.slug) files blobs,
)

abbrev mismatches : Option Text → Text → Bool
mismatches none slug = false
mismatches (some expected) slug = not (slug == expected)

unfoldable pub install_prepared :
    ℕ
    → User
    → Manifest
    → Blobs
    → Bool
    → Option Text
    → Db
    → Blobs
    → Result UploadError App × Db × Blobs
unfolding fresh_install replace_install find_app
install_prepared id uploader manifest files allow_replace expected_slug db blobs =
    if mismatches expected_slug manifest.slug
    then (err slug_mismatch, db, blobs)
    else elim (find_app manifest.slug db) [
      | none ↦ fresh_install id uploader manifest files db blobs
      | some existing ↦
          if allow_replace
          then replace_install uploader manifest existing files db blobs
          else (err already_exists, db, blobs)
    ]

module _ (canonical lower_path : Text → Text) where
  -- `_install_bundle_from_path`, under the lock.
  unfoldable pub install_bundle :
      ℕ → User → Bundle → Bool → Option Text → Db → Blobs → Result UploadError App × Db × Blobs
  unfolding install_prepared prepare_bundle
  install_bundle id uploader bundle allow_replace expected_slug db blobs =
      elim (prepare_bundle canonical lower_path bundle) [
        | err e ↦ (err e, db, blobs)
        | ok manifest ↦
            install_prepared id uploader manifest bundle.files allow_replace expected_slug db blobs
      ]

-- The character ends a line for `str.splitlines`.
abbrev is_line_end : ℕ → Bool
is_line_end c = leb 10 c && leb c 13 || leb 28 c && leb c 30 || c == 133 || leb 8232 c && leb c 8233

abbrev push_char : ℕ → List Text → List Text
push_char c [] = (c ∷ []) ∷ []
push_char c (line ∷ lines) = (c ∷ line) ∷ lines

-- `raw.splitlines()`, with an empty line more for a line break of two characters and at the end: an
-- empty line is no candidate.
unfoldable pub split_lines : Text → List Text
split_lines [] = []
split_lines (c ∷ s) =
    let rest = split_lines s in if is_line_end c then [] ∷ rest else push_char c rest

-- The valid origins among the lines; an origin that was seen is dropped.
unfoldable pub valid_origins : List Text → List Text → List Text
unfolding normal_origin matches_origin
valid_origins seen [] = []
valid_origins seen (line ∷ lines) =
    let cand = normal_origin line in
    let skipped = valid_origins seen lines in
    let added = valid_origins (cand ∷ seen) lines in
    if cand == [] || not (matches_origin cand) || contains seen cand then skipped else cand ∷ added

unfoldable pub parse_extra_origins : Text → List Text
unfolding split_lines valid_origins
parse_extra_origins raw = valid_origins [] (split_lines raw)

-- The app with the origins of the form, and with what the form revokes.
unfoldable pub with_network : List Text → Text → App → App
unfolding among without dedupe parse_extra_origins
with_network allowed_requested extras a =
    let checked = among a.requested_origins allowed_requested in
    record a {
      allowed_origins = dedupe [] (checked ++ parse_extra_origins extras);
      revoked_origins =
          without a.requested_origins a.revoked_origins ++ without checked a.requested_origins;
    }

-- Finds the app, changes its row and records the event; false where the code answers 404.
change_app : Text → User → String → (App → App) → Db → Bool × Db
unfolding find_app
change_app slug actor action f db = elim (find_app slug db) [
  | none ↦ (false, db)
  | some found ↦ (
    true,
    record_event (some actor) action
        (record db { apps = update (λ a. a.id == found.id) f db.apps }),
  )
]

unfoldable pub network_update : Text → User → List Text → Text → Db → Bool × Db
unfolding change_app with_network
network_update slug actor allowed_requested extras db =
    change_app slug actor "app.network.update" (with_network allowed_requested extras) db

unfoldable pub with_services : List String → App → App
unfolding among without dedupe
with_services picked a =
    let final = dedupe [] (among allowed_services (among a.services picked)) in
    record a {
      allowed_services = final;
      revoked_services = without a.services a.revoked_services ++ without final a.services;
    }

unfoldable pub services_update : Text → User → List String → Db → Bool × Db
unfolding change_app with_services
services_update slug actor picked db =
    change_app slug actor "app.services.update" (with_services picked) db

unfoldable pub toggle : Time → Text → User → Db → Bool × Db
unfolding find_app
toggle now slug actor db = elim (find_app slug db) [
  | none ↦ (false, db)
  | some found ↦
      let db1 = record db {
        apps =
            update (λ a. a.id == found.id) (λ a. record a { enabled = not found.enabled }) db.apps;
      } in
      let db2 =
        if found.enabled then (revoke_all_app_sessions_for_slug now found.slug db1).1 else db1 in
      (true, record_event (some actor) "app.toggle" db2)
]

abbrev is_of_app : ℕ → ShareLink → Bool
is_of_app id row = row.app_id == id

unfoldable pub delete_app : Time → Text → User → Db → Blobs → Bool × Db × Blobs
unfolding find_app delete_prefix delete_access_for_app delete_share_files pdf_paths
    revoke_all_app_sessions_for_slug record_event
delete_app now slug actor db blobs = elim (find_app slug db) [
  | none ↦ (false, db, blobs)
  | some found ↦
      let blobs1 =
        delete_share_files (pdf_paths (select (is_of_app found.id) db.shares))
          (delete_prefix (bundle_prefix found.slug) blobs) in
      let db1 = delete_access_for_app found.id db in
      let db2 = record db1 {
        shares = delete (is_of_app found.id) db1.shares;
        schedules = delete (λ s. s.app_slug == found.slug) db1.schedules;
        submissions = delete (λ s. s.app_slug == found.slug) db1.submissions;
      } in
      let db3 = (revoke_all_app_sessions_for_slug now found.slug db2).1 in
      let db4 = record db3 { apps = delete (λ a. a.id == found.id) db3.apps } in
      (true, record_event (some actor) "app.delete" db4, blobs1)
]
