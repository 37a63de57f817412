-- ===== src/Apps/Origins.antt =====
-- portal/apps.py and portal/admin.py: the origins of apps, over sequences of forms.
use mathlib.Core.Path.{subst}
use claude_pwa_portal.Base.{
  ℕ, String, Text, Text-Eq, ◌≡◌, refl, sym, Bool, true, false, not, ◌||◌, Option, List, [], ◌∷◌,
  arith, ◌==◌, ℕ-Eq, if◌then◌else◌, contains, length, Bool-cases, Option-cases, inl, inr,
}
use claude_pwa_portal.Base.Table.{
  All, All-append, All-update, All-delete, update, insert, first-All,
}
use claude_pwa_portal.Models.{Time, User, App, Db}
use claude_pwa_portal.Audit.{record_event}
use claude_pwa_portal.Access.{grant_default_access_for_new_app, delete_access_for_app}
use claude_pwa_portal.AppSessions.{revoke_all_app_sessions_for_slug}
use claude_pwa_portal.Blobs.{Blobs, list_under}
use claude_pwa_portal.Manifest.Origins.{matches_origin, normal_origin}
use claude_pwa_portal.Manifest.Schema.{Manifest}
use claude_pwa_portal.Bundles.{Bundle, prepare_bundle}
use claude_pwa_portal.Bundles.Safe.{Result-cases, prepare_bundle-IsAccepted}
use claude_pwa_portal.Apps.{
  among, find_app, has_slug, new_app, admin_extras, replaced_app, fresh_install, replace_install,
  mismatches, install_prepared, install_bundle, valid_origins, parse_extra_origins, split_lines,
  with_network, with_services, network_update, services_update, toggle, delete_app, change_app,
  bundle_prefix,
}
use claude_pwa_portal.Apps.Lists.{All-without, All-dedupe, All-among}

abbrev pub IsOrigin : Text → Type 0
IsOrigin o = matches_origin o ≡ true

-- The origins that the app asks for and those that it may reach are origins.
abbrev pub OriginsValid : App → Type 0
OriginsValid a = All IsOrigin a.requested_origins × All IsOrigin a.allowed_origins

valid_origins-All : (seen lines : List Text) → All IsOrigin (valid_origins seen lines)
unfolding valid_origins
valid_origins-All seen [] = tt
valid_origins-All seen (line ∷ lines) =
    elim (Bool-cases (
      normal_origin line == []
      || not (matches_origin (normal_origin line))
      || contains seen (normal_origin line))) [
        | inl t ↦ rw t (valid_origins-All seen lines)
        | inr t ↦ rw t (ground (arith, t), valid_origins-All (normal_origin line ∷ seen) lines)
      ]

with_network-OriginsValid :
    (checked : List Text) (extras : Text) (a : App)
    → OriginsValid a
    → OriginsValid (with_network checked extras a)
unfolding with_network parse_extra_origins
with_network-OriginsValid checked extras a h = (
  h.0,
  All-dedupe IsOrigin [] _ (
      All-append IsOrigin (among a.requested_origins checked) (parse_extra_origins extras)
        (All-among IsOrigin a.requested_origins checked h.0)
        (valid_origins-All [] (split_lines extras))),
)

replaced_app-OriginsValid :
    (u : User) (m : Manifest) (a : App)
    → All IsOrigin m.permissions.network
    → OriginsValid a
    → OriginsValid (replaced_app u m a)
unfolding replaced_app admin_extras
replaced_app-OriginsValid u m a asked h = (
  asked,
  All-append IsOrigin _ _ (All-without IsOrigin a.revoked_origins m.permissions.network asked)
      (All-without IsOrigin _ _ (All-without IsOrigin a.requested_origins a.allowed_origins h.1)),
)

grant-apps : (a : App) (db : Db) → (grant_default_access_for_new_app a db).apps ≡ db.apps
unfolding grant_default_access_for_new_app
grant-apps a db = ground arith

-- Every app of the portal reaches origins only.
abbrev pub AllValid : Db → Type 0
AllValid db = All OriginsValid db.apps

update-AllValid :
    (p : App → Bool) (f : App → App) (db : Db)
    → ((a : App) → OriginsValid a → OriginsValid (f a))
    → AllValid db
    → All OriginsValid (update p f db.apps)
update-AllValid p f db k h = All-update OriginsValid p f k db.apps h

fresh-AllValid :
    (id : ℕ) (u : User) (m : Manifest) (files : Blobs) (db : Db) (blobs : Blobs)
    → All IsOrigin m.permissions.network
    → AllValid db
    → AllValid (fresh_install id u m files db blobs).1
unfolding fresh_install new_app
fresh-AllValid id u m files db blobs asked h =
    elim (Bool-cases (not (length (list_under (bundle_prefix m.slug) blobs) == 0))) [
      | inl t ↦ rw t h
      | inr t ↦ rw t (
          subst (All OriginsValid)
            (sym
              (grant-apps (new_app id u m) (record db { apps = insert (new_app id u m) db.apps })))
            (All-append OriginsValid db.apps (new_app id u m ∷ []) h ((asked, asked), tt)))
    ]

replace-AllValid :
    (u : User) (m : Manifest) (existing : App) (files : Blobs) (db : Db) (blobs : Blobs)
    → All IsOrigin m.permissions.network
    → OriginsValid existing
    → AllValid db
    → AllValid (replace_install u m existing files db blobs).1
unfolding replace_install
replace-AllValid u m existing files db blobs asked held h =
    update-AllValid (λ a. a.id == existing.id) (λ a. replaced_app u m existing) db
      (λ a k. replaced_app-OriginsValid u m existing asked held) h

install_prepared-AllValid :
    (id : ℕ) (u : User) (m : Manifest) (files : Blobs) (replace : Bool) (expected : Option Text)
    (db : Db) (blobs : Blobs)
    → All IsOrigin m.permissions.network
    → AllValid db
    → AllValid (install_prepared id u m files replace expected db blobs).1
unfolding install_prepared find_app
install_prepared-AllValid id u m files replace expected db blobs asked h =
    elim (Bool-cases (mismatches expected m.slug)) [
      | inl t ↦ rw t h
      | inr t ↦ elim (Option-cases (find_app m.slug db)) [
        | inl e ↦ rw (t, e, install_prepared) (fresh-AllValid id u m files db blobs asked h)
        | inr (existing, e) ↦ elim (Bool-cases replace) [
          | inl r ↦
              rw (t, e, install_prepared)
                (rw r (
                  replace-AllValid u m existing files db blobs asked
                    (first-All OriginsValid (has_slug m.slug) db.apps h e) h))
          | inr r ↦ rw (t, e, install_prepared) (rw r h)
        ]
      ]
    ]

install_bundle-AllValid :
    (canonical lower_path : Text → Text) (id : ℕ) (u : User) (bundle : Bundle) (replace : Bool)
    (expected : Option Text) (db : Db) (blobs : Blobs)
    → AllValid db
    → AllValid (install_bundle canonical lower_path id u bundle replace expected db blobs).1
unfolding install_bundle
install_bundle-AllValid canonical lower_path id u bundle replace expected db blobs h =
    elim (Result-cases (prepare_bundle canonical lower_path bundle)) [
      | inl (x, e) ↦ rw (e, install_bundle) h
      | inr (m, e) ↦
          rw (e, install_bundle)
            (install_prepared-AllValid id u m bundle.files replace expected db blobs
              (prepare_bundle-IsAccepted canonical lower_path bundle e).2.0 h)
    ]

change_app-AllValid :
    (slug : Text) (actor : User) (action : String) (f : App → App) (db : Db)
    → ((a : App) → OriginsValid a → OriginsValid (f a))
    → AllValid db
    → AllValid (change_app slug actor action f db).1
unfolding change_app record_event
change_app-AllValid slug actor action f db k h = elim (Option-cases (find_app slug db)) [
  | inl e ↦ rw (e, change_app) h
  | inr (found, e) ↦ rw (e, change_app) (update-AllValid (λ a. a.id == found.id) f db k h)
]

toggled : Bool → Time → Text → Db → Db
toggled b now slug db = if b then (revoke_all_app_sessions_for_slug now slug db).1 else db

revoked-apps :
    (b : Bool) (now : Time) (slug : Text) (db : Db) → (toggled b now slug db).apps ≡ db.apps
unfolding revoke_all_app_sessions_for_slug toggled
revoked-apps true now slug db = refl
revoked-apps false now slug db = refl

toggle-AllValid :
    (now : Time) (slug : Text) (actor : User) (db : Db)
    → AllValid db
    → AllValid (toggle now slug actor db).1
unfolding toggle record_event toggled
toggle-AllValid now slug actor db h = elim (Option-cases (find_app slug db)) [
  | inl e ↦ rw (e, toggle) h
  | inr (found, e) ↦
      rw (e, toggle)
        (subst (All OriginsValid) (sym (revoked-apps found.enabled now found.slug _)) (
          update-AllValid (λ a. a.id == found.id) (λ a. record a { enabled = not found.enabled }) db
            (λ a k. k) h))
]

delete_app-AllValid :
    (now : Time) (slug : Text) (actor : User) (db : Db) (blobs : Blobs)
    → AllValid db
    → AllValid (delete_app now slug actor db blobs).1
unfolding delete_app record_event revoke_all_app_sessions_for_slug delete_access_for_app
delete_app-AllValid now slug actor db blobs h = elim (Option-cases (find_app slug db)) [
  | inl e ↦ rw (e, delete_app) h
  | inr (found, e) ↦ rw (e, delete_app) (All-delete OriginsValid (λ a. a.id == found.id) db.apps h)
]

module _ (canonical lower_path : Text → Text) where
  -- What an administrator does to the apps.
  pub data Step : Db → Db → Type 0 where
    installed :
        {db : Db} (id : ℕ) (u : User) (bundle : Bundle) (replace : Bool) (expected : Option Text)
        (blobs : Blobs)
        → Step db (install_bundle canonical lower_path id u bundle replace expected db blobs).1
    networked :
        {db : Db} (slug : Text) (actor : User) (checked : List Text) (extras : Text)
        → Step db (network_update slug actor checked extras db).1
    serviced :
        {db : Db} (slug : Text) (actor : User) (picked : List String)
        → Step db (services_update slug actor picked db).1
    switched :
        {db : Db} (now : Time) (slug : Text) (actor : User) → Step db (toggle now slug actor db).1
    removed :
        {db : Db} (now : Time) (slug : Text) (actor : User) (blobs : Blobs)
        → Step db (delete_app now slug actor db blobs).1

  pub data Reach (db : Db) : Db → Type 0 where
    here : Reach db db
    next : {db' db'' : Db} → Reach db db' → Step db' db'' → Reach db db''

  Step-AllValid : {db db' : Db} → Step db db' → AllValid db → AllValid db'
  unfolding network_update services_update with_services
  Step-AllValid (installed {db = db} id u bundle replace expected blobs) h =
      install_bundle-AllValid canonical lower_path id u bundle replace expected db blobs h
  Step-AllValid (networked {db = db} slug actor checked extras) h =
      change_app-AllValid slug actor "app.network.update" (with_network checked extras) db
        (λ a k. with_network-OriginsValid checked extras a k) h
  Step-AllValid (serviced {db = db} slug actor picked) h =
      change_app-AllValid slug actor "app.services.update" (with_services picked) db (λ a k. k) h
  Step-AllValid (switched {db = db} now slug actor) h = toggle-AllValid now slug actor db h
  Step-AllValid (removed {db = db} now slug actor blobs) h =
      delete_app-AllValid now slug actor db blobs h

  -- Where every app asks for and reaches origins only, every app does after every sequence of
  -- installs, updates and forms, whatever is uploaded or submitted.
  pub Reach-AllValid : {db db' : Db} → Reach db db' → AllValid db → AllValid db'
  Reach-AllValid here h = h
  Reach-AllValid (next r s) h = Step-AllValid s (Reach-AllValid r h)
