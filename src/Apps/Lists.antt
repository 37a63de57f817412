-- ===== src/Apps/Lists.antt =====
-- Membership in the lists that the forms compute.
use mathlib.Core.Path.{subst}
use claude_pwa_portal.Base.{
  ◌≡◌, refl, sym, true, not, ◌&&◌, ◌||◌, List, [], ◌∷◌, ◌++◌, arith, ◌==◌, Eq, contains, Bool-cases,
  inl, inr,
}
use claude_pwa_portal.Base.Table.{All}
use claude_pwa_portal.Apps.{without, among, dedupe}

module _ {ℓ} {A : Type ℓ} ⦃e : Eq A⦄ (x : A) where
  contains_same : (xs : List A) (y : A) → (x == y) ≡ true → contains xs y ≡ contains xs x
  contains_same xs y h = rw ((e.beq_iff x y).0 h) refl

  pub contains-append_or :
      (xs ys : List A) → contains (xs ++ ys) x ≡ (contains xs x || contains ys x)
  contains-append_or [] ys = refl
  contains-append_or (y ∷ xs) ys = ground (arith, contains-append_or xs ys)

  pub contains-without :
      (taken xs : List A)
      → contains (without taken xs) x ≡ (contains xs x && not (contains taken x))
  unfolding without
  contains-without taken [] = refl
  contains-without taken (y ∷ xs) = ground (arith, contains-without taken xs, contains_same taken y)

  pub contains-among :
      (known xs : List A) → contains (among known xs) x ≡ (contains xs x && contains known x)
  unfolding among
  contains-among known [] = refl
  contains-among known (y ∷ xs) = ground (arith, contains-among known xs, contains_same known y)

  pub contains-dedupe :
      (seen xs : List A) → contains (dedupe seen xs) x ≡ (contains xs x && not (contains seen x))
  unfolding dedupe
  contains-dedupe seen [] = refl
  contains-dedupe seen (y ∷ xs) = ground (
    arith,
    contains-dedupe seen xs,
    contains-dedupe (y ∷ seen) xs,
    contains_same seen y,
    contains_same (y ∷ seen) y,
  )

module _ {ℓ κ} {A : Type ℓ} ⦃e : Eq A⦄ (P : A → Type κ) where
  pub All-without : (taken xs : List A) → All P xs → All P (without taken xs)
  unfolding without
  All-without taken [] h = tt
  All-without taken (y ∷ xs) h = elim (Bool-cases (contains taken y)) [
    | inl c ↦ rw c (All-without taken xs h.1)
    | inr c ↦ rw c (h.0, All-without taken xs h.1)
  ]

  pub All-dedupe : (seen xs : List A) → All P xs → All P (dedupe seen xs)
  unfolding dedupe
  All-dedupe seen [] h = tt
  All-dedupe seen (y ∷ xs) h = elim (Bool-cases (contains seen y)) [
    | inl c ↦ rw c (All-dedupe seen xs h.1)
    | inr c ↦ rw c (h.0, All-dedupe (y ∷ seen) xs h.1)
  ]

  -- What stands in a list of such items is one.
  pub All-contains : (xs : List A) (x : A) → All P xs → contains xs x ≡ true → P x
  All-contains [] x h c = absurd (cc)
  All-contains (y ∷ xs) x h c = elim (Bool-cases (x == y)) [
    | inl t ↦ subst P (sym ((e.beq_iff x y).0 t)) h.0
    | inr t ↦ All-contains xs x h.1 (ground arith)
  ]

  pub All-among : (known xs : List A) → All P known → All P (among known xs)
  unfolding among
  All-among known [] h = tt
  All-among known (y ∷ xs) h = elim (Bool-cases (contains known y)) [
    | inl c ↦ rw c (All-contains known y h c, All-among known xs h)
    | inr c ↦ rw c (All-among known xs h)
  ]
