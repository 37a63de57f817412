-- ===== src/Base/Table.antt =====
-- Tables as lists of rows, and the statements of SQL that the program runs on them.
use Prim.Native.Nat.{ℕ, suc, ◌+◌, ◌≤◌}
use mathlib.Core.Path.{◌≡◌, refl, sym, subst}
use mathlib.Core.Bool.{Bool, true, false}
use mathlib.Core.Logic.{inl, inr}
use mathlib.Core.Option.{Option, none, some, some-injective}
use mathlib.Core.List.{List, [], ◌∷◌, ◌++◌}
use native.Mathlib.Omega.{arith}
use claude_pwa_portal.Base.Tests.{if◌then◌else◌, length, Bool-cases}

module _ {ℓ} {A : Type ℓ} where
  -- `SELECT … WHERE p`, the first row of the result.
  unfoldable pub first : (A → Bool) → List A → Option A
  first p [] = none
  first p (x ∷ xs) = if p x then some x else first p xs

  -- `SELECT … WHERE p`.
  unfoldable pub select : (A → Bool) → List A → List A
  select p [] = []
  select p (x ∷ xs) = if p x then x ∷ select p xs else select p xs

  -- `DELETE … WHERE p`.
  unfoldable pub delete : (A → Bool) → List A → List A
  delete p [] = []
  delete p (x ∷ xs) = if p x then delete p xs else x ∷ delete p xs

  -- `UPDATE … SET f WHERE p`.
  unfoldable pub update : (A → Bool) → (A → A) → List A → List A
  update p f [] = []
  update p f (x ∷ xs) = (if p x then f x else x) ∷ update p f xs

  -- `SELECT count(*) … WHERE p`: also the `rowcount` of an `UPDATE` or a `DELETE`.
  unfoldable pub count : (A → Bool) → List A → ℕ
  count p [] = 0
  count p (x ∷ xs) = if p x then suc (count p xs) else count p xs

  -- `INSERT`: a new row stands last.
  abbrev pub insert : A → List A → List A
  insert x xs = xs ++ (x ∷ [])

  -- Every row of the table has the property.
  abbrev pub All {κ} : (A → Type κ) → List A → Type κ
  All P [] = Unit
  All P (x ∷ xs) = P x × All P xs

  pub All-delete {κ} :
      (P : A → Type κ) (p : A → Bool) (xs : List A) → All P xs → All P (delete p xs)
  unfolding delete
  All-delete P p [] h = tt
  All-delete P p (x ∷ xs) h = elim (Bool-cases (p x)) [
    | inl e ↦ rw e (All-delete P p xs h.1)
    | inr e ↦ rw e (h.0, All-delete P p xs h.1)
  ]

  pub All-update {κ} :
      (P : A → Type κ) (p : A → Bool) (f : A → A)
      → ((x : A) → P x → P (f x))
      → (xs : List A) → All P xs
      → All P (update p f xs)
  unfolding update
  All-update P p f k [] h = tt
  All-update P p f k (x ∷ xs) h = elim (Bool-cases (p x)) [
    | inl e ↦ rw e (k x h.0, All-update P p f k xs h.1)
    | inr e ↦ rw e (h.0, All-update P p f k xs h.1)
  ]

  pub All-append {κ} : (P : A → Type κ) (xs ys : List A) → All P xs → All P ys → All P (xs ++ ys)
  All-append P [] ys hx hy = hy
  All-append P (x ∷ xs) ys hx hy = (hx.0, All-append P xs ys hx.1 hy)

  -- No row that is deleted is left.
  pub All-delete-false : (p : A → Bool) (xs : List A) → All (λ x. p x ≡ false) (delete p xs)
  unfolding delete
  All-delete-false p [] = tt
  All-delete-false p (x ∷ xs) = elim (Bool-cases (p x)) [
    | inl e ↦ rw e (All-delete-false p xs)
    | inr e ↦ rw e (e, All-delete-false p xs)
  ]

  pub first-delete :
      (p q : A → Bool)
      → ((x : A) → p x ≡ true → q x ≡ true)
      → (xs : List A) → first p (delete q xs) ≡ none
  unfolding first delete
  first-delete p q h [] = refl
  first-delete p q h (x ∷ xs) = ground (arith, h x, first-delete p q h xs)

  -- A deletion of other rows does not change what a query finds.
  pub first-delete_other :
      (p q : A → Bool)
      → ((x : A) → p x ≡ true → q x ≡ false)
      → (xs : List A) → first p (delete q xs) ≡ first p xs
  unfolding first delete
  first-delete_other p q h [] = refl
  first-delete_other p q h (x ∷ xs) = ground (arith, h x, first-delete_other p q h xs)

  -- The rows that a deletion spares are as they were.
  pub select-delete :
      (p q : A → Bool)
      → ((x : A) → p x ≡ true → q x ≡ false)
      → (xs : List A) → select p (delete q xs) ≡ select p xs
  unfolding select delete
  select-delete p q h [] = refl
  select-delete p q h (x ∷ xs) = ground (arith, h x, select-delete p q h xs)

  abbrev pub updated : (A → Bool) → (A → A) → Option A → Option A
  updated q f none = none
  updated q f (some x) = some (if q x then f x else x)

  -- An update that keeps what a query reads is seen through the query.
  pub first-update :
      (p q : A → Bool) (f : A → A)
      → ((x : A) → p (f x) ≡ p x)
      → (xs : List A) → first p (update q f xs) ≡ updated q f (first p xs)
  unfolding first update
  first-update p q f h [] = refl
  first-update p q f h (x ∷ xs) = ground (arith, h x, first-update p q f h xs)

  pub first_sound : (p : A → Bool) (xs : List A) {x : A} → first p xs ≡ some x → p x ≡ true
  unfolding first
  first_sound p [] e = cc
  first_sound p (y ∷ xs) {x} e = ground (arith, first_sound p xs {x = x})

  pub first-All {κ} :
      (P : A → Type κ) (p : A → Bool) (xs : List A) {x : A} → All P xs → first p xs ≡ some x → P x
  unfolding first
  first-All P p [] h e = absurd (cc)
  first-All P p (y ∷ xs) h e = elim (Bool-cases (p y)) [
    | inl t ↦ subst P (some-injective _ _ (rw t at e)) h.0
    | inr t ↦ first-All P p xs h.1 (rw t at e)
  ]

  pub first-append :
      (p : A → Bool) (xs : List A) (y : A)
      → first p xs ≡ none
      → first p (insert y xs) ≡ (if p y then some y else none)
  unfolding first
  first-append p [] y h = refl
  first-append p (x ∷ xs) y h = ground (arith, first-append p xs y)

  pub first-append_other :
      (p : A → Bool) (xs : List A) (y : A) → p y ≡ false → first p (insert y xs) ≡ first p xs
  unfolding first
  first-append_other p [] y h = rw h
  first-append_other p (x ∷ xs) y h = ground (arith, first-append_other p xs y)

  pub first-append_found :
      (p : A → Bool) (xs : List A) (y : A) {x : A}
      → first p xs ≡ some x
      → first p (insert y xs) ≡ some x
  unfolding first
  first-append_found p [] y h = cc
  first-append_found p (z ∷ xs) y {x} h = ground (arith, first-append_found p xs y {x = x})

  pub count-append :
      (p : A → Bool) (xs : List A) (y : A)
      → count p (insert y xs) ≡ count p xs + (if p y then 1 else 0)
  unfolding count
  count-append p [] y = ground arith
  count-append p (x ∷ xs) y = ground (arith, count-append p xs y)

  -- A claim by `UPDATE … WHERE p` leaves no row to claim.
  pub count-update_none :
      (p : A → Bool) (f : A → A)
      → ((x : A) → p (f x) ≡ false)
      → (xs : List A) → count p (update p f xs) ≡ 0
  unfolding count update
  count-update_none p f h [] = refl
  count-update_none p f h (x ∷ xs) = ground (arith, h x, count-update_none p f h xs)

  pub update-count_none :
      (p : A → Bool) (f : A → A) (xs : List A) → count p xs ≡ 0 → update p f xs ≡ xs
  unfolding count update
  update-count_none p f [] e = refl
  update-count_none p f (x ∷ xs) e = ground (arith, update-count_none p f xs)

  pub delete-count_none : (p : A → Bool) (xs : List A) → count p xs ≡ 0 → delete p xs ≡ xs
  unfolding count delete
  delete-count_none p [] e = refl
  delete-count_none p (x ∷ xs) e = ground (arith, delete-count_none p xs)

  -- Where `p` finds one row and no other, the rows of `q` are those that a deletion leaves and it.
  pub count-delete_one :
      (p q : A → Bool) (xs : List A) {x : A}
      → count p xs ≤ 1
      → first p xs ≡ some x
      → count q xs ≡ count q (delete p xs) + (if q x then 1 else 0)
  unfolding count delete first
  count-delete_one p q [] one found = cc
  count-delete_one p q (y ∷ xs) {x} one found = elim (Bool-cases (p y)) [
    | inl t ↦
        rw
          (
            t,
            delete-count_none p xs (ground (arith, rw t at one)),
            sym (some-injective _ _ (rw t at found)),
          )
          (ground arith)
    | inr t ↦ ground (arith, count-delete_one p q xs {x = x})
  ]

  pub count-update_one :
      (p q : A → Bool) (f : A → A) (xs : List A) {x : A}
      → count p xs ≤ 1
      → first p xs ≡ some x
      → count q (update p f xs) + (if q x then 1 else 0) ≡ count q xs + (if q (f x) then 1 else 0)
  unfolding count update first
  count-update_one p q f [] one found = absurd (cc)
  count-update_one p q f (y ∷ xs) {x} one found = elim (Bool-cases (p y)) [
    | inl t ↦
        rw
          (
            t,
            update-count_none p f xs (ground (arith, rw t at one)),
            sym (some-injective _ _ (rw t at found)),
          )
          (ground arith)
    | inr t ↦ ground (arith, count-update_one p q f xs {x = x})
  ]

  pub first-count-none : (p : A → Bool) (xs : List A) → count p xs ≡ 0 → first p xs ≡ none
  unfolding count first
  first-count-none p [] e = refl
  first-count-none p (x ∷ xs) e = ground (arith, first-count-none p xs)

  pub count-delete_none :
      (p q : A → Bool)
      → ((x : A) → p x ≡ true → q x ≡ true)
      → (xs : List A) → count p (delete q xs) ≡ 0
  unfolding count delete
  count-delete_none p q h [] = refl
  count-delete_none p q h (x ∷ xs) = ground (arith, h x, count-delete_none p q h xs)

  pub count-delete_le : (p q : A → Bool) (xs : List A) → count p (delete q xs) ≤ count p xs
  unfolding count delete
  count-delete_le p q [] = omega arith
  count-delete_le p q (x ∷ xs) = ground (arith, count-delete_le p q xs)

  pub count_mono :
      (p q : A → Bool)
      → ((x : A) → p x ≡ true → q x ≡ true)
      → (xs : List A) → count p xs ≤ count q xs
  unfolding count
  count_mono p q h [] = omega arith
  count_mono p q h (x ∷ xs) = ground (arith, h x, count_mono p q h xs)

  -- Where `q` holds of one row at most and `p` of one at least, a query for `q` finds that row.
  pub first-count_one :
      (p q : A → Bool)
      → ((x : A) → p x ≡ true → q x ≡ true)
      → (xs : List A) → count q xs ≤ 1
      → 1 ≤ count p xs
      → first q xs ≡ first p xs
  unfolding count first
  first-count_one p q h [] one some_row = refl
  first-count_one p q h (x ∷ xs) one some_row =
      ground (arith, h x, count_mono p q h xs, first-count_one p q h xs)

  pub first-some-count : (p : A → Bool) (xs : List A) {x : A} → first p xs ≡ some x → 1 ≤ count p xs
  unfolding count first
  first-some-count p [] e = cc
  first-some-count p (y ∷ xs) {x} e = ground (arith, first-some-count p xs {x = x})

  pub count_pos_of_first :
      (p q : A → Bool) (xs : List A) {x : A} → first q xs ≡ some x → p x ≡ true → 1 ≤ count p xs
  unfolding count first
  count_pos_of_first p q [] e h = cc
  count_pos_of_first p q (y ∷ xs) {x} e h = ground (arith, count_pos_of_first p q xs {x = x})

  -- The rows of `p` are those that a deletion spares and those that it takes.
  pub count-delete_split :
      (p q : A → Bool) (xs : List A) → count p xs ≡ count p (delete q xs) + count q (select p xs)
  unfolding count delete select
  count-delete_split p q [] = omega arith
  count-delete_split p q (x ∷ xs) = ground (arith, count-delete_split p q xs)

  pub count-select : (p : A → Bool) (xs : List A) → length (select p xs) ≡ count p xs
  unfolding count select
  count-select p [] = refl
  count-select p (x ∷ xs) = ground (arith, count-select p xs)

  pub count-le_length : (p : A → Bool) (xs : List A) → count p xs ≤ length xs
  unfolding count
  count-le_length p [] = omega arith
  count-le_length p (x ∷ xs) = ground (arith, count-le_length p xs)

  -- Where `p` holds of one row at most, a deletion hides it from a query or changes nothing there.
  abbrev pub spared : (A → Bool) → Option A → Option A
  spared q none = none
  spared q (some x) = if q x then none else some x

  pub first-delete_unique :
      (p q : A → Bool) (xs : List A)
      → count p xs ≤ 1
      → first p (delete q xs) ≡ spared q (first p xs)
  unfolding first delete count
  first-delete_unique p q [] one = refl
  first-delete_unique p q (x ∷ xs) one =
      ground (arith, first-delete_unique p q xs, first-count-none p xs)

  pub select-append :
      (p : A → Bool) (xs : List A) (y : A)
      → select p (insert y xs) ≡ (if p y then insert y (select p xs) else select p xs)
  unfolding select
  select-append p [] y = ground arith
  select-append p (x ∷ xs) y = ground (arith, select-append p xs y)
