-- ===== src/Users/Administered.antt =====
-- portal/admin.py, the account forms: the administrators and the ids, over sequences of forms.
use claude_pwa_portal.Base.{ℕ, String, Option, List, ℕ-Eq, Option-cases, List-cases, inl, inr}
use claude_pwa_portal.Models.{Time, User, Db}
use claude_pwa_portal.Security.{validate_password}
use claude_pwa_portal.Auth.{get_user}
use claude_pwa_portal.Blobs.{Blobs}
use claude_pwa_portal.Users.{
  users_create, users_set_role, delete_user, users_reset_password, users_apps_save, parse_role,
}
use claude_pwa_portal.Users.Admins.{Accounts}
use claude_pwa_portal.Users.Forms.{
  create-Accounts, set_role-Accounts, delete_found-Accounts, save_found-Accounts, reset-Accounts,
  found_own,
}

module _ (hash_password : String → String) (normalise_email : String → Option String) where
  -- One form that an administrator submits, whatever it is answered with.
  pub data Step : Db → Db → Type 0 where
    created :
        {db : Db} (actor : User) (email password role : String)
        → Step db (users_create hash_password normalise_email actor email password role db).1
    role_set :
        {db : Db} (actor : User) (user_id : ℕ) (role : String)
        → Step db (users_set_role actor user_id role db).1
    reset :
        {db : Db} (now : Time) (actor : User) (user_id : ℕ) (password : String)
        → Step db
            (users_reset_password hash_password normalise_email now actor user_id password db).1
    deleted :
        {db : Db} (actor : User) (user_id : ℕ) (blobs : Blobs)
        → Step db (delete_user actor user_id db blobs).1
    apps_saved :
        {db : Db} (now : Time) (actor : User) (user_id : ℕ) (submitted : List ℕ)
        → Step db (users_apps_save now actor user_id submitted db).1

  pub data Reach : Db → Db → Type 0 where
    here : {db : Db} → Reach db db
    next : {db mid db' : Db} → Reach db mid → Step mid db' → Reach db db'

  users_create-Accounts :
      (actor : User) (email password role : String) (db : Db)
      → Accounts db
      → Accounts (users_create hash_password normalise_email actor email password role db).1
  unfolding users_create
  users_create-Accounts actor email password role db ok = elim (Option-cases (parse_role role)) [
    | inl e ↦ rw (e, users_create) ok
    | inr (parsed, e) ↦ elim (Option-cases (normalise_email email)) [
      | inl m ↦ rw (e, users_create) (rw m ok)
      | inr (address, m) ↦ elim (List-cases (validate_password password)) [
        | inl v ↦
            rw (e, users_create)
              (rw m (rw v (create-Accounts hash_password actor address password parsed db ok)))
        | inr (x, xs, v) ↦ rw (e, users_create) (rw m (rw v ok))
      ]
    ]
  ]

  users_set_role-Accounts :
      (actor : User) (user_id : ℕ) (role : String) (db : Db)
      → Accounts db
      → Accounts (users_set_role actor user_id role db).1
  unfolding users_set_role
  users_set_role-Accounts actor user_id role db ok = elim (Option-cases (parse_role role)) [
    | inl e ↦ rw (e, users_set_role) ok
    | inr (parsed, e) ↦ elim (Option-cases (get_user user_id db)) [
      | inl m ↦ rw (e, users_set_role) (rw m ok)
      | inr (target, m) ↦
          rw (e, users_set_role)
            (rw m (set_role-Accounts actor target parsed db (found_own user_id db m) ok))
    ]
  ]

  delete_user-Accounts :
      (actor : User) (user_id : ℕ) (db : Db) (blobs : Blobs)
      → Accounts db
      → Accounts (delete_user actor user_id db blobs).1
  unfolding delete_user
  delete_user-Accounts actor user_id db blobs ok = elim (Option-cases (get_user user_id db)) [
    | inl m ↦ rw (m, delete_user) ok
    | inr (target, m) ↦
        rw (m, delete_user)
          (delete_found-Accounts actor target db blobs (found_own user_id db m) ok)
  ]

  reset_password-Accounts :
      (now : Time) (actor : User) (user_id : ℕ) (password : String) (db : Db)
      → Accounts db
      → Accounts
          (users_reset_password hash_password normalise_email now actor user_id password db).1
  unfolding users_reset_password
  reset_password-Accounts now actor user_id password db ok =
      elim (Option-cases (get_user user_id db)) [
        | inl m ↦ rw (m, users_reset_password) ok
        | inr (target, m) ↦ elim (List-cases (validate_password password)) [
          | inl v ↦
              rw (m, users_reset_password)
                (rw v (reset-Accounts now actor target (hash_password password) db ok))
          | inr (x, xs, v) ↦ rw (m, users_reset_password) (rw v ok)
        ]
      ]

  apps_save-Accounts :
      (now : Time) (actor : User) (user_id : ℕ) (submitted : List ℕ) (db : Db)
      → Accounts db
      → Accounts (users_apps_save now actor user_id submitted db).1
  unfolding users_apps_save
  apps_save-Accounts now actor user_id submitted db ok = elim (Option-cases (get_user user_id db)) [
    | inl m ↦ rw (m, users_apps_save) ok
    | inr (target, m) ↦
        rw (m, users_apps_save) (save_found-Accounts now actor target submitted db ok)
  ]

  Step-Accounts : {db db' : Db} → Step db db' → Accounts db → Accounts db'
  Step-Accounts (created {db = db} actor email password role) ok =
      users_create-Accounts actor email password role db ok
  Step-Accounts (role_set {db = db} actor user_id role) ok =
      users_set_role-Accounts actor user_id role db ok
  Step-Accounts (reset {db = db} now actor user_id password) ok =
      reset_password-Accounts now actor user_id password db ok
  Step-Accounts (deleted {db = db} actor user_id blobs) ok =
      delete_user-Accounts actor user_id db blobs ok
  Step-Accounts (apps_saved {db = db} now actor user_id submitted) ok =
      apps_save-Accounts now actor user_id submitted db ok

  -- Where there is an administrator, no two accounts have one id and ids are below the counter, that
  -- is so after every sequence of creations, role changes, password resets, deletions and changes of
  -- a user's apps.
  pub Reach-Accounts : {db db' : Db} → Reach db db' → Accounts db → Accounts db'
  Reach-Accounts here ok = ok
  Reach-Accounts (next r st) ok = Step-Accounts st (Reach-Accounts r ok)
