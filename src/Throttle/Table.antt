-- ===== src/Throttle/Table.antt =====
-- What the operations on a table of windows do to the hits of every key.
use claude_pwa_portal.Base.{
  ℕ, suc, ◌+◌, ◌≤◌, ◌<◌, Eq, ◌≡◌, refl, ◌∙◌, Bool, true, false, List, [], ◌∷◌, ◌++◌, map, ltb, ◌==◌,
  if◌then◌else◌, length, arith, is_none, Bool-cases, inl, inr, ap,
}
use claude_pwa_portal.Base.Table.{first, update, delete, insert, count}
use claude_pwa_portal.Throttle.{
  Entry, has_key, hits_of, inside, with_hits, keep_hits, fresh_hits, evict, add_hit, prune_keys,
  prune_all,
}

-- The hit is still inside the window at that time.
abbrev pub is_recent : ℕ → ℕ → ℕ → Bool
is_recent window later t = ltb later (t + window)

-- Hits that count the same from `now` on, and are no more.
pub record Narrowed (window now : ℕ) (hits hits' : List ℕ) : Type 0 where
  pub seen :
      (later : ℕ)
      → now ≤ later
      → count (is_recent window later) hits' ≡ count (is_recent window later) hits
  pub fewer : length hits' ≤ length hits

pub same-Narrowed : (window now : ℕ) (hits : List ℕ) → Narrowed window now hits hits
same-Narrowed window now hits = record { seen = λ later h. refl; fewer = omega arith }

pub then-Narrowed :
    {window now : ℕ} {hits hits' hits'' : List ℕ}
    → Narrowed window now hits hits'
    → Narrowed window now hits' hits''
    → Narrowed window now hits hits''
then-Narrowed m n = record {
  seen = λ later h. n.seen later h ∙ m.seen later h;
  fewer = omega (arith, m.fewer, n.fewer);
}

inside-seen :
    (window now later : ℕ) (hits : List ℕ)
    → now ≤ later
    → count (is_recent window later) (inside window now hits) ≡ count (is_recent window later) hits
unfolding count inside
inside-seen window now later [] h = refl
inside-seen window now later (t ∷ hits) h = ground (arith, inside-seen window now later hits h)

inside-length : (window now : ℕ) (hits : List ℕ) → length (inside window now hits) ≤ length hits
unfolding inside
inside-length window now [] = omega arith
inside-length window now (t ∷ hits) = ground (arith, inside-length window now hits)

pub inside-Narrowed :
    (window now : ℕ) (hits : List ℕ) → Narrowed window now hits (inside window now hits)
inside-Narrowed window now hits = record {
  seen = λ later h. inside-seen window now later hits h;
  fewer = inside-length window now hits;
}

module _ {ℓ} {K : Type ℓ} ⦃e : Eq K⦄ (l : K) where
  pub hits_of-delete :
      (k : K) (table : List (Entry K))
      → hits_of l (delete (has_key k) table) ≡ (if k == l then [] else hits_of l table)
  unfolding hits_of first delete
  hits_of-delete k [] = ground arith
  hits_of-delete k (entry ∷ table) =
      ground
        (arith, hits_of-delete k table, e.beq_iff entry.key l, e.beq_iff entry.key k, e.beq_iff k l)

  hits_of-update_other :
      (k : K) (f : List ℕ → List ℕ) (table : List (Entry K))
      → (k == l) ≡ false
      → hits_of l (update (has_key k) (λ entry. with_hits (f entry.hits) entry) table)
        ≡ hits_of l table
  unfolding hits_of first update
  hits_of-update_other k f [] h = refl
  hits_of-update_other k f (entry ∷ table) h = ground (
    arith,
    hits_of-update_other k f table h,
    e.beq_iff entry.key l,
    e.beq_iff entry.key k,
    e.beq_iff k l,
  )

  hits_of-update :
      (f : List ℕ → List ℕ) (table : List (Entry K))
      → hits_of l (update (has_key l) (λ entry. with_hits (f entry.hits) entry) table)
        ≡ (if is_none (first (has_key l) table) then [] else f (hits_of l table))
  unfolding hits_of first update
  hits_of-update f [] = refl
  hits_of-update f (entry ∷ table) = ground (arith, hits_of-update f table)

  hits_of-none :
      (table : List (Entry K)) → is_none (first (has_key l) table) ≡ true → hits_of l table ≡ []
  unfolding hits_of first
  hits_of-none [] h = refl
  hits_of-none (entry ∷ table) h = ground (arith, hits_of-none table)

  keep_hits-hits_of :
      (hits : List ℕ) (table : List (Entry K))
      → (is_none (first (has_key l) table) ≡ true → hits ≡ [])
      → hits_of l (keep_hits l hits table) ≡ hits
  unfolding keep_hits
  keep_hits-hits_of [] table h = ground (arith, hits_of-delete l table, e.beq_iff l l)
  keep_hits-hits_of (t ∷ hits) table h = elim (Bool-cases (is_none (first (has_key l) table))) [
    | inl gone ↦ absurd (cc (h gone))
    | inr there ↦ rw (hits_of-update (λ _. t ∷ hits) table, there) refl
  ]

  keep_hits-other :
      (k : K) (hits : List ℕ) (table : List (Entry K))
      → (k == l) ≡ false
      → hits_of l (keep_hits k hits table) ≡ hits_of l table
  unfolding keep_hits
  keep_hits-other k [] table h = ground (arith, hits_of-delete k table)
  keep_hits-other k (t ∷ hits) table h = hits_of-update_other k (λ _. t ∷ hits) table h

  pub fresh_hits-same :
      (window now : ℕ) (table : List (Entry K))
      → hits_of l (fresh_hits window now l table).1 ≡ inside window now (hits_of l table)
  unfolding fresh_hits
  fresh_hits-same window now table =
      keep_hits-hits_of (inside window now (hits_of l table)) table
        (λ h. rw (hits_of-none table h) (unfold inside in refl))

  pub fresh_hits-Narrowed :
      (window now : ℕ) (k : K) (table : List (Entry K))
      → Narrowed window now (hits_of l table) (hits_of l (fresh_hits window now k table).1)
  fresh_hits-Narrowed window now k table = elim (Bool-cases (k == l)) [
    | inl h ↦
        rw ((e.beq_iff k l).0 h)
          (rw (fresh_hits-same window now table) (inside-Narrowed window now (hits_of l table)))
    | inr h ↦
        unfold fresh_hits in
        rw (keep_hits-other k (inside window now (hits_of k table)) table h)
          (same-Narrowed window now (hits_of l table))
  ]

  prune_keys-Narrowed :
      (window now : ℕ) (keys : List K) (table : List (Entry K))
      → Narrowed window now (hits_of l table) (hits_of l (prune_keys window now keys table))
  unfolding prune_keys
  prune_keys-Narrowed window now [] table = same-Narrowed window now (hits_of l table)
  prune_keys-Narrowed window now (k ∷ keys) table =
      then-Narrowed (fresh_hits-Narrowed window now k table)
        (prune_keys-Narrowed window now keys (fresh_hits window now k table).1)

  pub prune_all-Narrowed :
      (window now : ℕ) (table : List (Entry K))
      → Narrowed window now (hits_of l table) (hits_of l (prune_all window now table))
  unfolding prune_all
  prune_all-Narrowed window now table =
      prune_keys-Narrowed window now (map (λ entry. entry.key) table) table

abbrev with_hit : ℕ → List ℕ → List ℕ
with_hit now hits = hits ++ (now ∷ [])

pub length-snoc : (hits : List ℕ) (now : ℕ) → length (hits ++ (now ∷ [])) ≡ suc (length hits)
length-snoc [] now = refl
length-snoc (t ∷ hits) now = ap suc (length-snoc hits now)

module _ {ℓ} {K : Type ℓ} ⦃e : Eq K⦄ where
  evict-small : (cap : ℕ) (table : List (Entry K)) → length table < cap → evict cap table ≡ table
  unfolding evict
  evict-small cap [] h = refl
  evict-small cap (entry ∷ table) h = ground arith

  hits_of-insert :
      (k l : K) (table : List (Entry K))
      → hits_of l (insert (record { key = k; hits = [] }) table) ≡ hits_of l table
  unfolding hits_of first
  hits_of-insert k l [] = ground arith
  hits_of-insert k l (entry ∷ table) = ground (arith, hits_of-insert k l table)

  first-insert_same :
      (k : K) (table : List (Entry K))
      → is_none (first (has_key k) (insert (record { key = k; hits = [] }) table)) ≡ false
  unfolding first
  first-insert_same k [] = ground (arith, e.beq_iff k k)
  first-insert_same k (entry ∷ table) = ground (arith, first-insert_same k table)

  add_hit-same :
      (cap now : ℕ) (k : K) (table : List (Entry K))
      → length table < cap
      → hits_of k (add_hit cap now k table) ≡ hits_of k table ++ (now ∷ [])
  unfolding add_hit
  add_hit-same cap now k table h = elim (Bool-cases (is_none (first (has_key k) table))) [
    | inl gone ↦
        let held = insert (record { key = k; hits = [] }) table in
        rw (gone, evict-small cap table h)
          (hits_of-update k (with_hit now) held
            ∙ rw (first-insert_same k table) (ap (with_hit now) (hits_of-insert k k table)))
    | inr there ↦ rw there (hits_of-update k (with_hit now) table ∙ rw there refl)
  ]

  add_hit-other :
      (cap now : ℕ) (k l : K) (table : List (Entry K))
      → length table < cap
      → (k == l) ≡ false
      → hits_of l (add_hit cap now k table) ≡ hits_of l table
  unfolding add_hit
  add_hit-other cap now k l table h other = elim (Bool-cases (is_none (first (has_key k) table))) [
    | inl gone ↦
        let held = insert (record { key = k; hits = [] }) table in
        rw (gone, evict-small cap table h)
          (hits_of-update_other l k (with_hit now) held other ∙ hits_of-insert k l table)
    | inr there ↦ rw there (hits_of-update_other l k (with_hit now) table other)
  ]

  -- `_add_hit` below the cap.
  pub add_hit-hits_of :
      (cap now : ℕ) (k l : K) (table : List (Entry K))
      → length table < cap
      → hits_of l (add_hit cap now k table)
        ≡ (if k == l then hits_of l table ++ (now ∷ []) else hits_of l table)
  add_hit-hits_of cap now k l table h = elim (Bool-cases (k == l)) [
    | inl same ↦ rw (same, (e.beq_iff k l).0 same) (add_hit-same cap now l table h)
    | inr other ↦ rw other (add_hit-other cap now k l table h other)
  ]

  pub delete-length :
      (p : Entry K → Bool) (table : List (Entry K)) → length (delete p table) ≤ length table
  unfolding delete
  delete-length p [] = omega arith
  delete-length p (entry ∷ table) = ground (arith, delete-length p table)

  update-length :
      (p : Entry K → Bool) (f : Entry K → Entry K) (table : List (Entry K))
      → length (update p f table) ≡ length table
  unfolding update
  update-length p f [] = refl
  update-length p f (entry ∷ table) = ap suc (update-length p f table)

  keep_hits-length :
      (k : K) (hits : List ℕ) (table : List (Entry K))
      → length (keep_hits k hits table) ≤ length table
  unfolding keep_hits
  keep_hits-length k [] table = delete-length (has_key k) table
  keep_hits-length k (t ∷ hits) table =
      omega (arith, update-length (has_key k) (with_hits (t ∷ hits)) table)

  pub fresh_hits-length :
      (window now : ℕ) (k : K) (table : List (Entry K))
      → length (fresh_hits window now k table).1 ≤ length table
  unfolding fresh_hits
  fresh_hits-length window now k table =
      keep_hits-length k (inside window now (hits_of k table)) table

  prune_keys-length :
      (window now : ℕ) (keys : List K) (table : List (Entry K))
      → length (prune_keys window now keys table) ≤ length table
  unfolding prune_keys
  prune_keys-length window now [] table = omega arith
  prune_keys-length window now (k ∷ keys) table = omega (
    arith,
    fresh_hits-length window now k table,
    prune_keys-length window now keys (fresh_hits window now k table).1,
  )

  pub prune_all-length :
      (window now : ℕ) (table : List (Entry K)) → length (prune_all window now table) ≤ length table
  unfolding prune_all
  prune_all-length window now table =
      prune_keys-length window now (map (λ entry. entry.key) table) table
