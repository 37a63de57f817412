-- ===== src/Access.antt =====
-- portal/access.py, over the table `userappaccess`: which apps a user may launch. A set of ids is
-- a list here, and a query for the rows of one pair of ids is a query for its first row.
pub mod Replace
pub mod Settings
use claude_pwa_portal.Base.{
  ℕ, String, Text, Text-Eq, codes, Bool, true, false, not, ◌&&◌, ◌||◌, Option, none, some, List, [],
  ◌∷◌, ◌++◌, map, ◌==◌, String-Eq, ℕ-Eq, if◌then◌else◌, is_none, contains,
}
use claude_pwa_portal.Base.Table.{first, select, delete, update, insert}
use claude_pwa_portal.Models.{Role, admin, user, User, App, UserAppAccess, Setting, Db}

abbrev pub is_admin_role : Role → Bool
is_admin_role admin = true
is_admin_role user = false

abbrev value_of : Option Setting → Option Text
value_of none = none
value_of (some s) = some s.value

-- portal/settings_store.py, `get_setting` without a default
unfoldable pub get_setting : String → Db → Option Text
get_setting key db = value_of (first (λ s. s.key == key) db.settings)

valid_default : Option Text → Text
valid_default none = codes "all"
valid_default (some value) =
    if value == codes "all" || value == codes "none" then value else codes "all"

unfoldable pub get_default_access : Db → Text
unfolding valid_default
get_default_access db = valid_default (get_setting "default_user_app_access" db)

-- portal/settings_store.py, `set_setting`: an empty value clears the row.
unfoldable pub set_setting : String → Text → Db → Db
set_setting key value db =
    if value == []
    then record db { settings = delete (λ s. s.key == key) db.settings }
    else if is_none (first (λ s. s.key == key) db.settings)
    then record db { settings = insert (record { key = key; value = value }) db.settings }
    else record db {
      settings = update (λ s. s.key == key) (λ s. record s { value = value }) db.settings;
    }

-- `set_default_access`; false where it raises.
unfoldable pub set_default_access : Text → Db → Bool × Db
unfolding set_setting
set_default_access value db =
    if value == codes "all" || value == codes "none"
    then (true, set_setting "default_user_app_access" value db)
    else (false, db)

-- The row of one user and one app.
abbrev pub is_pair : ℕ → ℕ → UserAppAccess → Bool
is_pair user_id app_id row = row.user_id == user_id && row.app_id == app_id

abbrev pub is_of : ℕ → UserAppAccess → Bool
is_of user_id row = row.user_id == user_id

unfoldable pub user_can_access_app : Db → User → App → Bool
user_can_access_app db account app_row =
    if is_admin_role account.role
    then true
    else not (is_none (first (is_pair account.id app_row.id) db.accesses))

abbrev pub app_ids_of : ℕ → List UserAppAccess → List ℕ
app_ids_of user_id rows = map (λ row. row.app_id) (select (is_of user_id) rows)

unfoldable pub accessible_app_ids_for : Db → User → List ℕ
accessible_app_ids_for db account =
    if is_admin_role account.role
    then map (λ a. a.id) (select (λ a. a.enabled) db.apps)
    else app_ids_of account.id db.accesses

abbrev pub access_of : ℕ → ℕ → UserAppAccess
access_of user_id app_id = record { user_id = user_id; app_id = app_id }

unfoldable pub grant_default_access_for_new_user : User → Db → Db
grant_default_access_for_new_user account db =
    if is_admin_role account.role
    then db
    else if not (get_default_access db == codes "all")
    then db
    else record db { accesses = db.accesses ++ map (λ a. access_of account.id a.id) db.apps }

unfoldable pub grant_default_access_for_new_app : App → Db → Db
grant_default_access_for_new_app app_row db =
    if not (get_default_access db == codes "all") then db else record db {
      accesses =
          db.accesses
          ++ map (λ u. access_of u.id app_row.id)
              (select (λ u. not (is_admin_role u.role)) db.users);
    }

-- The rows to add for the ids of `desired - existing`, each id once.
unfoldable pub new_rows : ℕ → List ℕ → List ℕ → List UserAppAccess
new_rows user_id existing [] = []
new_rows user_id existing (aid ∷ desired) =
    let rest = new_rows user_id existing desired in
    if contains existing aid || contains desired aid then rest else access_of user_id aid ∷ rest

-- `app_id not in desired`, of a row of the user
abbrev pub is_removed : ℕ → List ℕ → UserAppAccess → Bool
is_removed user_id desired row = row.user_id == user_id && not (contains desired row.app_id)

unfoldable pub replace_user_app_access : User → List ℕ → Db → Db
unfolding new_rows
replace_user_app_access account desired db = if is_admin_role account.role then db else record db {
  accesses =
      delete (is_removed account.id desired) db.accesses
      ++ new_rows account.id (app_ids_of account.id db.accesses) desired;
}

unfoldable pub delete_access_for_user : ℕ → Db → Db
delete_access_for_user user_id db = record db { accesses = delete (is_of user_id) db.accesses }

unfoldable pub delete_access_for_app : ℕ → Db → Db
delete_access_for_app app_id db = record db {
  accesses = delete (λ row. row.app_id == app_id) db.accesses;
}
