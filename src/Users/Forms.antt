-- ===== src/Users/Forms.antt =====
-- portal/admin.py, the account forms, one by one: what they keep of the table of accounts.
use claude_pwa_portal.Base.{
  ℕ, ◌≤◌, String, ◌≡◌, refl, Bool, true, false, not, ◌&&◌, Option, some, List, [], ◌∷◌, Text, arith,
  leb, ◌==◌, ℕ-Eq, String-Eq, if◌then◌else◌, is_none, Bool-cases, inl, inr, nat_eq_iff, ap, ◌∙◌,
}
use claude_pwa_portal.Base.Table.{
  first, delete, update, count, first_sound, count-delete_one, count-update_one,
}
use claude_pwa_portal.Models.{Time, Role, User, Db}
use claude_pwa_portal.Audit.{record_event}
use claude_pwa_portal.Auth.{get_user}
use claude_pwa_portal.Credentials.{
  sign_out_everywhere, revoke_admin_credentials, revoke_all_credentials_for_user,
}
use claude_pwa_portal.Sessions.{revoke_all_for_user}
use claude_pwa_portal.AppSessions.{revoke_all_app_sessions_for_user, revoke_app_sessions_for_user}
use claude_pwa_portal.Blobs.{Blobs}
use claude_pwa_portal.Shares.{delete_shares_for_user}
use claude_pwa_portal.Access.{
  is_admin_role, grant_default_access_for_new_user, replace_user_app_access, delete_access_for_user,
}
use claude_pwa_portal.Users.{
  holds_admin, has_user_id, with_role, count_admins, create_checked, set_found_role, delete_found,
  cascade, save_found, revoke_lost, insert_user,
}
use claude_pwa_portal.Users.Admins.{
  Accounts, Accounts-reads, update-Accounts, delete-Accounts, insert-Accounts, count-update_same,
}

-- A database with the same accounts.
pub record SameAccounts (db db' : Db) : Type 0 where
  pub users : db'.users ≡ db.users
  pub next : db'.next_user_id ≡ db.next_user_id

keeps : (db db' : Db) → SameAccounts db db' → Accounts db → Accounts db'
keeps db db' same = Accounts-reads db db' same.users same.next

grant-SameAccounts : (u : User) (db : Db) → SameAccounts db (grant_default_access_for_new_user u db)
unfolding grant_default_access_for_new_user
grant-SameAccounts u db = record { users = ground arith; next = ground arith }

sign_out-SameAccounts :
    (now : Time) (id : ℕ) (keep : Bool) (db : Db)
    → SameAccounts db (sign_out_everywhere now id keep db)
unfolding sign_out_everywhere revoke_all_for_user revoke_all_app_sessions_for_user
sign_out-SameAccounts now id keep db = record { users = ground arith; next = ground arith }

demote-SameAccounts : (id : ℕ) (db : Db) → SameAccounts db (revoke_admin_credentials id db)
unfolding revoke_admin_credentials
demote-SameAccounts id db = record { users = refl; next = refl }

cascade-SameAccounts : (id : ℕ) (db : Db) (blobs : Blobs) → SameAccounts db (cascade id db blobs).0
unfolding cascade revoke_all_credentials_for_user delete_shares_for_user delete_access_for_user
cascade-SameAccounts id db blobs = record { users = refl; next = refl }

replace-SameAccounts :
    (u : User) (ids : List ℕ) (db : Db) → SameAccounts db (replace_user_app_access u ids db)
unfolding replace_user_app_access
replace-SameAccounts u ids db = record { users = ground arith; next = ground arith }

revoke_lost-SameAccounts :
    (now : Time) (id : ℕ) (slugs : List Text) (db : Db)
    → SameAccounts db (revoke_lost now id slugs db)
unfolding revoke_lost revoke_app_sessions_for_user
revoke_lost-SameAccounts now id [] db = record { users = refl; next = refl }
revoke_lost-SameAccounts now id (slug ∷ slugs) db = record { users = refl; next = refl }

event-Accounts :
    (u : Option User) (action : String) (db : Db)
    → Accounts db
    → Accounts (record_event u action db)
unfolding record_event
event-Accounts u action db = Accounts-reads db _ refl refl

pub create-Accounts :
    (hash_password : String → String) (actor : User) (email password : String) (role : Role)
    (db : Db)
    → Accounts db
    → Accounts (create_checked hash_password actor email password role db).1
unfolding create_checked insert_user
create-Accounts hash_password actor email password role db ok =
    elim (Bool-cases (is_none (first (λ u. u.email == email) db.users))) [
      | inr taken ↦ rw taken ok
      | inl free ↦ rw free (
          event-Accounts (some actor) "user.create" _
            (keeps _ _ (grant-SameAccounts _ _) (insert-Accounts _ db refl ok)))
    ]

set_role-left :
    (target : User) (role : Role) (db : Db)
    → first (has_user_id target.id) db.users ≡ some target
    → Accounts db
    → (is_admin_role target.role && not (is_admin_role role) && leb (count_admins db) 1) ≡ false
    → 1 ≤ count holds_admin (update (has_user_id target.id) (with_role role) db.users)
unfolding count_admins
set_role-left target role db found ok guarded = ground (
  arith,
  ok.administered,
  count-update_one (has_user_id target.id) holds_admin (with_role role) db.users
      (ok.distinct target.id) found,
)

with_role-SameAccounts :
    (b : Bool) (id : ℕ) (db : Db)
    → SameAccounts db (if b then revoke_admin_credentials id db else db)
with_role-SameAccounts true id db = demote-SameAccounts id db
with_role-SameAccounts false id db = record { users = refl; next = refl }

pub set_role-Accounts :
    (actor target : User) (role : Role) (db : Db)
    → first (has_user_id target.id) db.users ≡ some target
    → Accounts db
    → Accounts (set_found_role actor target role db).1
unfolding set_found_role
set_role-Accounts actor target role db found ok =
    elim (Bool-cases
      (is_admin_role target.role && not (is_admin_role role) && leb (count_admins db) 1)) [
        | inl refused ↦ rw refused ok
        | inr guarded ↦ rw guarded (
            event-Accounts (some actor) "user.role.change" _ (
              keeps _ _
                (with_role-SameAccounts (is_admin_role target.role && not (is_admin_role role))
                  target.id _)
                (update-Accounts (has_user_id target.id) (with_role role) db (λ u. refl)
                  (set_role-left target role db found ok guarded) ok)))
      ]

delete-left :
    (target : User) (db : Db)
    → first (has_user_id target.id) db.users ≡ some target
    → Accounts db
    → (is_admin_role target.role && leb (count_admins db) 1) ≡ false
    → 1 ≤ count holds_admin (delete (has_user_id target.id) db.users)
unfolding count_admins
delete-left target db found ok guarded = ground (
  arith,
  ok.administered,
  count-delete_one (has_user_id target.id) holds_admin db.users (ok.distinct target.id) found,
)

pub delete_found-Accounts :
    (actor target : User) (db : Db) (blobs : Blobs)
    → first (has_user_id target.id) db.users ≡ some target
    → Accounts db
    → Accounts (delete_found actor target db blobs).1
unfolding delete_found
delete_found-Accounts actor target db blobs found ok = elim (Bool-cases (target.id == actor.id)) [
  | inl own ↦ rw own ok
  | inr other ↦ elim (Bool-cases (is_admin_role target.role && leb (count_admins db) 1)) [
    | inl refused ↦ rw (other, refused) ok
    | inr guarded ↦
        rw (other, guarded)
          (event-Accounts (some actor) "user.delete" _ (
            Accounts-reads (record db { users = delete (has_user_id target.id) db.users }) _
              (rw ((cascade-SameAccounts target.id db blobs).users) refl)
              ((cascade-SameAccounts target.id db blobs).next)
              (delete-Accounts (has_user_id target.id) db (delete-left target db found ok guarded)
                ok)))
  ]
]

pub save_found-Accounts :
    (now : Time) (actor target : User) (submitted : List ℕ) (db : Db)
    → Accounts db
    → Accounts (save_found now actor target submitted db).1
unfolding save_found
save_found-Accounts now actor target submitted db ok =
    elim (Bool-cases (is_admin_role target.role)) [
      | inl refused ↦ rw refused ok
      | inr guarded ↦ rw guarded (
          event-Accounts (some actor) "user.apps.update" _ (
            keeps _ _ (revoke_lost-SameAccounts now target.id _ _)
              (keeps _ _ (replace-SameAccounts target _ db) ok)))
    ]

reset-left :
    (target : User) (digest : String) (db : Db)
    → Accounts db
    → 1
      ≤ count holds_admin
          (update (has_user_id target.id) (λ u. record u { password_hash = digest }) db.users)
unfolding count_admins
reset-left target digest db ok = omega (
  arith,
  ok.administered,
  count-update_same (has_user_id target.id) holds_admin (λ u. record u { password_hash = digest })
      (λ u. refl) db.users,
)

pub reset-Accounts :
    (now : Time) (actor target : User) (digest : String) (db : Db)
    → Accounts db
    → Accounts (
        record_event (some actor) "user.reset_password" (
          sign_out_everywhere now target.id false (record db {
            users =
                update (has_user_id target.id) (λ u. record u { password_hash = digest }) db.users;
          })))
reset-Accounts now actor target digest db ok = event-Accounts (some actor) "user.reset_password" _ (
    keeps _ _ (sign_out-SameAccounts now target.id false _) (
      update-Accounts (has_user_id target.id) _ db (λ u. refl) (reset-left target digest db ok) ok))

-- The account that a query by id finds is the one with that id.
pub found_own :
    (id : ℕ) (db : Db) {target : User}
    → get_user id db ≡ some target
    → first (has_user_id target.id) db.users ≡ some target
unfolding get_user
found_own id db {target} e =
    ap (λ i. first (has_user_id i) db.users)
      ((nat_eq_iff target.id id).0 (first_sound (has_user_id id) db.users e))
    ∙ e
