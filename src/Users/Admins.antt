-- ===== src/Users/Admins.antt =====
-- The number of administrators, over every sequence of the forms that change accounts.
use claude_pwa_portal.Base.{
  ℕ, ◌+◌, ◌≤◌, ◌<◌, ◌≡◌, refl, Bool, List, [], ◌∷◌, arith, ℕ-Eq, String-Eq,
}
use claude_pwa_portal.Base.Table.{
  delete, update, count, insert, count-append, All, All-append, All-update, All-delete,
  count-delete_le,
}
use claude_pwa_portal.Models.{User, Db}
use claude_pwa_portal.Users.{holds_admin, has_user_id, count_admins}

-- No two accounts have one id.
abbrev pub DistinctIds : List User → Type 0
DistinctIds users = (id : ℕ) → count (has_user_id id) users ≤ 1

-- What the table of accounts promises: an administrator, ids that are below the counter, and no two
-- accounts with one id.
pub record Accounts (db : Db) : Type 0 where
  pub administered : 1 ≤ count_admins db
  pub below : All (λ u. u.id < db.next_user_id) db.users
  pub distinct : DistinctIds db.users

-- The accounts and the counter are all that the promise reads.
pub Accounts-reads :
    (db db' : Db)
    → db'.users ≡ db.users
    → db'.next_user_id ≡ db.next_user_id
    → Accounts db
    → Accounts db'
unfolding count_admins
Accounts-reads db db' users next ok = record {
  administered = rw users ok.administered;
  below = rw (users, next) ok.below;
  distinct = rw users ok.distinct;
}

pub count-update_same :
    (p q : User → Bool) (f : User → User)
    → ((u : User) → q (f u) ≡ q u)
    → (users : List User) → count q (update p f users) ≡ count q users
unfolding count update
count-update_same p q f same [] = refl
count-update_same p q f same (x ∷ xs) = ground (arith, same x, count-update_same p q f same xs)

count-below :
    (id : ℕ) (users : List User) → All (λ u. u.id < id) users → count (has_user_id id) users ≡ 0
unfolding count
count-below id [] h = refl
count-below id (x ∷ xs) h = ground (arith, h.0, count-below id xs h.1)

-- Changing accounts without their ids keeps the promise where an administrator is left.
pub update-Accounts :
    (p : User → Bool) (f : User → User) (db : Db)
    → ((u : User) → (f u).id ≡ u.id)
    → 1 ≤ count holds_admin (update p f db.users)
    → Accounts db
    → Accounts (record db { users = update p f db.users })
unfolding count_admins
update-Accounts p f db same left ok = record {
  administered = left;
  below = All-update (λ u. u.id < db.next_user_id) p f (λ u h. rw (same u) h) db.users ok.below;
  distinct = λ id. omega (
    arith,
    ok.distinct id,
    count-update_same p (has_user_id id) f (λ u. rw (same u) refl) db.users,
  );
}

pub delete-Accounts :
    (p : User → Bool) (db : Db)
    → 1 ≤ count holds_admin (delete p db.users)
    → Accounts db
    → Accounts (record db { users = delete p db.users })
unfolding count_admins
delete-Accounts p db left ok = record {
  administered = left;
  below = All-delete (λ u. u.id < db.next_user_id) p db.users ok.below;
  distinct = λ id. omega (arith, ok.distinct id, count-delete_le (has_user_id id) p db.users);
}

All-weaken : (n : ℕ) (users : List User) → All (λ u. u.id < n) users → All (λ u. u.id < n + 1) users
All-weaken n [] h = tt
All-weaken n (x ∷ xs) h = (omega (arith, h.0), All-weaken n xs h.1)

pub insert-Accounts :
    (row : User) (db : Db)
    → row.id ≡ db.next_user_id
    → Accounts db
    → Accounts (record db { users = insert row db.users; next_user_id = db.next_user_id + 1 })
unfolding count_admins
insert-Accounts row db numbered ok = record {
  administered = ground (arith, ok.administered, count-append holds_admin db.users row);
  below =
      All-append _ db.users (row ∷ []) (All-weaken db.next_user_id db.users ok.below)
        (omega (arith, numbered), tt);
  distinct = λ id. ground (
    arith,
    ok.distinct id,
    count-append (has_user_id id) db.users row,
    count-below db.next_user_id db.users ok.below,
  );
}
