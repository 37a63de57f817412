-- ===== src/Users/Removal.antt =====
-- What deleting an account leaves of it.
use claude_pwa_portal.Base.{
  ℕ, ◌≡◌, false, ◌&&◌, none, some, leb, ◌==◌, ap, sym, ℕ-Eq, Bool-cases, Option-cases, inl, inr,
  nat_eq_iff,
}
use mathlib.Core.Path.{subst}
use claude_pwa_portal.Base.Table.{delete, All, All-delete-false, first-delete, first_sound}
use claude_pwa_portal.Models.{User, Db}
use claude_pwa_portal.Audit.{record_event}
use claude_pwa_portal.Auth.{get_user}
use claude_pwa_portal.Blobs.{Blobs}
use claude_pwa_portal.Credentials.{revoke_all_credentials_for_user}
use claude_pwa_portal.Credentials.Cascade.{Deleted, revoke_all_credentials-Deleted}
use claude_pwa_portal.Shares.{delete_shares_for_user}
use claude_pwa_portal.Access.{is_admin_role, is_of, delete_access_for_user}
use claude_pwa_portal.Users.{done, has_user_id, count_admins, delete_user, delete_found, cascade}

-- The account is gone, and with it its rows in the tables that refer to it.
pub record Removed (id : ℕ) (db db' : Db) : Type 0 where
  pub account : get_user id db' ≡ none
  pub credentials : Deleted id db db'
  pub access : All (λ r. is_of id r ≡ false) db'.accesses
  pub shares : All (λ r. (r.created_by == id) ≡ false) db'.shares

removed_row : (actor target : User) (db : Db) (blobs : Blobs) → Db
removed_row actor target db blobs =
    let (db1, blobs1) = cascade target.id db blobs in
    record_event (some actor) "user.delete"
      (record db1 { users = delete (has_user_id target.id) db1.users })

cascade-Removed :
    (actor target : User) (db : Db) (blobs : Blobs)
    → Removed target.id db (removed_row actor target db blobs)
unfolding removed_row cascade record_event delete_shares_for_user delete_access_for_user get_user
    revoke_all_credentials_for_user
cascade-Removed actor target db blobs = record {
  account = first-delete (has_user_id target.id) (has_user_id target.id) (λ x h. h) db.users;
  credentials = record {
    api_tokens = (revoke_all_credentials-Deleted target.id db).api_tokens;
    user_sessions = (revoke_all_credentials-Deleted target.id db).user_sessions;
    app_sessions = (revoke_all_credentials-Deleted target.id db).app_sessions;
    launches = (revoke_all_credentials-Deleted target.id db).launches;
    grants = (revoke_all_credentials-Deleted target.id db).grants;
    codes = (revoke_all_credentials-Deleted target.id db).codes;
    schedules = (revoke_all_credentials-Deleted target.id db).schedules;
  };
  access = All-delete-false (is_of target.id) db.accesses;
  shares = All-delete-false (λ r. r.created_by == target.id) db.shares;
}

delete_found-Removed :
    (actor target : User) (db db' : Db) (blobs blobs' : Blobs)
    → delete_found actor target db blobs ≡ (done, db', blobs')
    → Removed target.id db db'
unfolding delete_found removed_row
delete_found-Removed actor target db db' blobs blobs' e =
    elim (Bool-cases (target.id == actor.id)) [
      | inl own ↦ absurd (cc (rw own at e))
      | inr other ↦ elim (Bool-cases (is_admin_role target.role && leb (count_admins db) 1)) [
        | inl refused ↦ absurd (cc (rw refused at (rw other at e)))
        | inr guarded ↦
            rw (ap (λ r. r.1) (sym (rw guarded at (rw other at e))))
              (cascade-Removed actor target db blobs)
      ]
    ]

delete_found-other :
    (actor target : User) (db db' : Db) (blobs blobs' : Blobs)
    → delete_found actor target db blobs ≡ (done, db', blobs')
    → (target.id == actor.id) ≡ false
unfolding delete_found
delete_found-other actor target db db' blobs blobs' e = elim (Bool-cases (target.id == actor.id)) [
  | inl own ↦ absurd (cc (rw own at e))
  | inr other ↦ other
]

-- Where the form that deletes an account answers that it is done, the account is not the
-- administrator's own, no account has its id any more, and no API token, session, launch token, OAuth
-- grant, scheduled run, app access or share link belongs to it, while the credentials of others are
-- as they were.
pub delete_user-Removed :
    (actor : User) (id : ℕ) (db db' : Db) (blobs blobs' : Blobs)
    → delete_user actor id db blobs ≡ (done, db', blobs')
    → (id == actor.id) ≡ false × Removed id db db'
unfolding delete_user get_user
delete_user-Removed actor id db db' blobs blobs' e = elim (Option-cases (get_user id db)) [
  | inl m ↦ absurd (cc (rw (m, delete_user) at e))
  | inr (target, m) ↦
      let named = (nat_eq_iff target.id id).0 (first_sound (has_user_id id) db.users m) in
      let found : delete_found actor target db blobs ≡ (done, db', blobs') =
        rw (m, delete_user) at e in
      subst (λ i. (i == actor.id) ≡ false × Removed i db db') named
        (
          delete_found-other actor target db db' blobs blobs' found,
          delete_found-Removed actor target db db' blobs blobs' found,
        )
]
