-- ===== src/Access/Replace.antt =====
-- What a user may launch once an administrator has saved the list of the user's apps.
use claude_pwa_portal.Base.{
  ℕ, ◌≡◌, refl, Bool, not, ◌&&◌, ◌||◌, List, [], ◌∷◌, ◌++◌, arith, ◌==◌, ℕ-Eq, if◌then◌else◌,
  is_none, contains, nat_eq_iff, ap, Bool-cases, inl, inr,
}
use claude_pwa_portal.Base.Table.{first, select, delete}
use claude_pwa_portal.Models.{user, User, App, UserAppAccess, Db}
use claude_pwa_portal.Access.{
  user_can_access_app, replace_user_app_access, is_admin_role, is_pair, is_removed, app_ids_of,
  new_rows,
}

has_pair : ℕ → ℕ → List UserAppAccess → Bool
has_pair user_id app_id rows = not (is_none (first (is_pair user_id app_id) rows))

has_pair-append :
    (u a : ℕ) (xs ys : List UserAppAccess)
    → has_pair u a (xs ++ ys) ≡ (has_pair u a xs || has_pair u a ys)
unfolding has_pair first
has_pair-append u a [] ys = ground arith
has_pair-append u a (x ∷ xs) ys = ground (arith, has_pair-append u a xs ys)

has_pair-ids : (u a : ℕ) (xs : List UserAppAccess) → has_pair u a xs ≡ contains (app_ids_of u xs) a
unfolding has_pair first select
has_pair-ids u a [] = refl
has_pair-ids u a (x ∷ xs) = ground (arith, has_pair-ids u a xs)

has_pair-delete :
    (u a v : ℕ) (desired : List ℕ) (xs : List UserAppAccess)
    → has_pair u a (delete (is_removed v desired) xs)
      ≡ (has_pair u a xs && (not (u == v) || contains desired a))
unfolding has_pair first delete
has_pair-delete u a v desired [] = ground arith
has_pair-delete u a v desired (x ∷ xs) = ground (arith, has_pair-delete u a v desired xs)

has_pair-new :
    (u a v : ℕ) (existing desired : List ℕ)
    → has_pair u a (new_rows v existing desired)
      ≡ (u == v && contains desired a && not (contains existing a))
unfolding has_pair first new_rows
has_pair-new u a v existing [] = ground arith
has_pair-new u a v existing (x ∷ desired) = ground (arith, has_pair-new u a v existing desired)

has_pair-replaced :
    (u a v : ℕ) (desired : List ℕ) (rows : List UserAppAccess)
    → has_pair u a (delete (is_removed v desired) rows ++ new_rows v (app_ids_of v rows) desired)
      ≡ (if u == v then contains desired a else has_pair u a rows)
has_pair-replaced u a v desired rows =
    rw
      (
        has_pair-append u a,
        has_pair-delete u a v desired rows,
        has_pair-new u a v (app_ids_of v rows) desired,
      )
      (elim (Bool-cases (u == v)) [
        | inl same ↦ ground (
          arith,
          has_pair-ids v a rows,
          (nat_eq_iff u v).0 same,
          ap (λ w. has_pair w a rows) ((nat_eq_iff u v).0 same),
        )
        | inr differ ↦ ground arith
      ])

-- After an administrator has saved a list of apps for a user who is no administrator, that user may
-- launch exactly the apps of the list, and every other user what that user could launch before.
pub replace-access :
    (account other : User) (desired : List ℕ) (app_row : App) (db : Db)
    → account.role ≡ user
    → user_can_access_app (replace_user_app_access account desired db) other app_row ≡ (
        is_admin_role other.role
        || (if other.id == account.id
            then contains desired app_row.id
            else user_can_access_app db other app_row))
unfolding user_can_access_app replace_user_app_access has_pair
replace-access account other desired app_row db ordinary =
    rw ordinary
      (ground (arith, has_pair-replaced other.id app_row.id account.id desired db.accesses))
