-- ===== src/Users.antt =====
-- portal/admin.py, "Users" and "Per-user app access": the forms by which an administrator creates,
-- changes and deletes accounts. The CSRF check has passed, and the messages that are flashed are the
-- constructors of `Outcome`. Parameters: the password hash and the e-mail validator.
pub mod Admins
pub mod Forms
pub mod Removal
pub mod Administered
use claude_pwa_portal.Base.{
  ℕ, ◌+◌, String, Text, Text-Eq, Bool, true, false, not, ◌&&◌, ◌||◌, Option, none, some, List, [],
  ◌∷◌, ◌++◌, leb, ◌==◌, String-Eq, ℕ-Eq, if◌then◌else◌, is_none, contains,
}
use claude_pwa_portal.Base.Table.{first, select, delete, update, count, insert}
use claude_pwa_portal.Models.{Time, Role, admin, user, User, App, UserAppAccess, Db}
use claude_pwa_portal.Audit.{record_event}
use claude_pwa_portal.Security.{validate_password}
use claude_pwa_portal.Auth.{get_user}
use claude_pwa_portal.AppSessions.{revoke_app_sessions_for_user}
use claude_pwa_portal.Credentials.{
  sign_out_everywhere, revoke_admin_credentials, revoke_all_credentials_for_user,
}
use claude_pwa_portal.Blobs.{Blobs}
use claude_pwa_portal.Shares.{delete_shares_for_user}
use claude_pwa_portal.Storage.{delete_user_namespaces}
use claude_pwa_portal.Access.{
  is_admin_role, grant_default_access_for_new_user, replace_user_app_access, delete_access_for_user,
  app_ids_of,
}

-- What the form answers: a message, or an HTTP error.
pub data Outcome : Type 0 where
  invalid_role invalid_email weak_password already_exists not_found last_admin own_account
        admin_by_role done :
      Outcome

abbrev pub holds_admin : User → Bool
holds_admin u = is_admin_role u.role

abbrev pub has_user_id : ℕ → User → Bool
has_user_id id u = u.id == id

unfoldable pub count_admins : Db → ℕ
count_admins db = count holds_admin db.users

-- "admin" and "user" are the valid roles.
unfoldable pub parse_role : String → Option Role
parse_role role = if role == "admin" then some admin else if role == "user" then some user else none

unfoldable pub insert_user : String → String → Role → Db → User × Db
insert_user email password_hash role db =
    let row : User = record {
      id = db.next_user_id;
      email = email;
      password_hash = password_hash;
      role = role;
    } in
    (row, record db { users = insert row db.users; next_user_id = db.next_user_id + 1 })

unfoldable pub create_checked :
    (String → String) → User → String → String → Role → Db → Outcome × Db
unfolding insert_user
create_checked hash_password actor email password role db =
    if not (is_none (first (λ u. u.email == email) db.users))
    then (already_exists, db)
    else (let (row, db1) = insert_user email (hash_password password) role db in
        (done, record_event (some actor) "user.create" (grant_default_access_for_new_user row db1)))

module _ (hash_password : String → String) (normalise_email : String → Option String) where
  unfoldable pub users_create : User → String → String → String → Db → Outcome × Db
  users_create actor email password role db = elim (parse_role role) [
    | none ↦ (invalid_role, db)
    | some parsed ↦ elim (normalise_email email) [
      | none ↦ (invalid_email, db)
      | some address ↦ elim (validate_password password) [
        | [] ↦ create_checked hash_password actor address password parsed db
        | _ ∷ _ ↦ (weak_password, db)
      ]
    ]
  ]

  unfoldable pub users_reset_password : Time → User → ℕ → String → Db → Outcome × Db
  users_reset_password now actor user_id password db = elim (get_user user_id db) [
    | none ↦ (not_found, db)
    | some target ↦ elim (validate_password password) [
      | _ ∷ _ ↦ (weak_password, db)
      | [] ↦
          let db1 = record db {
            users =
                update (has_user_id target.id)
                  (λ u. record u { password_hash = hash_password password }) db.users;
          } in
          (
            done,
            record_event (some actor) "user.reset_password"
                (sign_out_everywhere now target.id false db1),
          )
    ]
  ]

abbrev pub with_role : Role → User → User
with_role role u = record u { role = role }

unfoldable pub set_found_role : User → User → Role → Db → Outcome × Db
set_found_role actor target role db =
    if is_admin_role target.role && not (is_admin_role role) && leb (count_admins db) 1
    then (last_admin, db)
    else (let db1 = record db {
      users = update (has_user_id target.id) (with_role role) db.users;
    } in
        let db2 =
          if is_admin_role target.role && not (is_admin_role role)
          then revoke_admin_credentials target.id db1
          else db1 in
        (done, record_event (some actor) "user.role.change" db2))

unfoldable pub users_set_role : User → ℕ → String → Db → Outcome × Db
unfolding set_found_role
users_set_role actor user_id role db = elim (parse_role role) [
  | none ↦ (invalid_role, db)
  | some parsed ↦ elim (get_user user_id db) [
    | none ↦ (not_found, db)
    | some target ↦ set_found_role actor target parsed db
  ]
]

-- The rows of other tables that go before the account.
unfoldable pub cascade : ℕ → Db → Blobs → Db × Blobs
cascade user_id db blobs =
    delete_shares_for_user user_id
      (revoke_all_credentials_for_user user_id (delete_access_for_user user_id db)) blobs

unfoldable pub delete_found : User → User → Db → Blobs → Outcome × Db × Blobs
unfolding cascade delete_user_namespaces
delete_found actor target db blobs =
    if target.id == actor.id
    then (own_account, db, blobs)
    else if is_admin_role target.role && leb (count_admins db) 1
    then (last_admin, db, blobs)
    else (let (db1, blobs1) = cascade target.id db blobs in
        let db2 = record db1 { users = delete (has_user_id target.id) db1.users } in
        (
          done,
          record_event (some actor) "user.delete" db2,
          delete_user_namespaces target.id blobs1,
        ))

unfoldable pub delete_user : User → ℕ → Db → Blobs → Outcome × Db × Blobs
unfolding delete_found
delete_user actor user_id db blobs = elim (get_user user_id db) [
  | none ↦ (not_found, db, blobs)
  | some target ↦ delete_found actor target db blobs
]

-- The ids that are those of apps.
unfoldable pub known_ids : List App → List ℕ → List ℕ
known_ids apps [] = []
known_ids apps (aid ∷ ids) =
    let rest = known_ids apps ids in
    if is_none (first (λ a. a.id == aid) apps) then rest else aid ∷ rest

-- The slugs of the apps among `prior` that are not in `allowed`.
unfoldable pub lost_slugs : List App → List ℕ → List ℕ → List Text
lost_slugs [] prior allowed = []
lost_slugs (a ∷ apps) prior allowed =
    let rest = lost_slugs apps prior allowed in
    if contains prior a.id && not (contains allowed a.id) then a.slug ∷ rest else rest

unfoldable pub revoke_lost : Time → ℕ → List Text → Db → Db
revoke_lost now user_id [] db = db
revoke_lost now user_id (slug ∷ slugs) db =
    (revoke_app_sessions_for_user now user_id (some (slug ∷ slugs)) db).1

unfoldable pub save_found : Time → User → User → List ℕ → Db → Outcome × Db
unfolding known_ids lost_slugs revoke_lost
save_found now actor target submitted db =
    if is_admin_role target.role
    then (admin_by_role, db)
    else (let allowed = known_ids db.apps submitted in
        let revoked = lost_slugs db.apps (app_ids_of target.id db.accesses) allowed in
        let db1 = replace_user_app_access target allowed db in
        let db2 = revoke_lost now target.id revoked db1 in
        (done, record_event (some actor) "user.apps.update" db2))

-- The ids are the submitted values that read as integers.
unfoldable pub users_apps_save : Time → User → ℕ → List ℕ → Db → Outcome × Db
unfolding save_found
users_apps_save now actor user_id submitted db = elim (get_user user_id db) [
  | none ↦ (not_found, db)
  | some target ↦ save_found now actor target submitted db
]
