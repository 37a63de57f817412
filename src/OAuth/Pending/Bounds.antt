-- ===== src/OAuth/Pending/Bounds.antt =====
-- portal/oauth.py, `authorize`: the number of parked requests, of one client and in all.
use claude_pwa_portal.Base.{
  ap, sym, ℕ, zero, suc, ◌+◌, ◌-◌, ◌≤◌, ◌<◌, String, ◌≡◌, refl, Bool, true, Result, ok, arith, ltb,
  leb, String-Eq, List, [], ◌∷◌, map, contains, length, inl, inr, Bool-cases, eq_iff,
}
use claude_pwa_portal.Base.Table.{
  select, delete, count, count-append, count-delete_split, count-select, count-delete_le,
}
use claude_pwa_portal.Models.{Time, Db}
use claude_pwa_portal.OAuth.Pending.{
  Pending, AuthorizationParams, AuthorizeError, max_pending_per_client, max_live_pending,
  insert_by_expiry, order_by_expiry, limit, oldest, make_room, of_client, every, park, authorize,
  in_range,
}

count-insert_by_expiry :
    (q : Pending → Bool) (row : Pending) (xs : List Pending)
    → count q (insert_by_expiry row xs) ≡ count q (row ∷ xs)
unfolding count insert_by_expiry
count-insert_by_expiry q row [] = refl
count-insert_by_expiry q row (x ∷ xs) = ground (arith, count-insert_by_expiry q row xs)

-- Sorting changes no count.
count-order_by_expiry :
    (q : Pending → Bool) (xs : List Pending) → count q (order_by_expiry xs) ≡ count q xs
unfolding order_by_expiry count
count-order_by_expiry q [] = refl
count-order_by_expiry q (x ∷ xs) =
    rw count-insert_by_expiry (unfold count in ground (arith, count-order_by_expiry q xs))

length-insert_by_expiry :
    (row : Pending) (xs : List Pending) → length (insert_by_expiry row xs) ≡ suc (length xs)
unfolding insert_by_expiry
length-insert_by_expiry row [] = refl
length-insert_by_expiry row (x ∷ xs) = ground (arith, length-insert_by_expiry row xs)

length-order_by_expiry : (xs : List Pending) → length (order_by_expiry xs) ≡ length xs
unfolding order_by_expiry
length-order_by_expiry [] = refl
length-order_by_expiry (x ∷ xs) =
    rw length-insert_by_expiry (omega (arith, length-order_by_expiry xs))

length-limit : (n : ℕ) (xs : List Pending) → n ≤ length xs → length (limit n xs) ≡ n
unfolding limit
length-limit zero xs h = refl
length-limit (suc n) [] h = absurd (omega arith)
length-limit (suc n) (x ∷ xs) h = omega (arith, length-limit n xs)

count-limit_le :
    (q : Pending → Bool) (n : ℕ) (xs : List Pending) → count q (limit n xs) ≤ count q xs
unfolding count limit
count-limit_le q zero xs = omega arith
count-limit_le q (suc n) [] = omega arith
count-limit_le q (suc n) (x ∷ xs) = ground (arith, count-limit_le q n xs)

abbrev txns : List Pending → List String
txns = map (λ row. row.txn)

contains-grow :
    (t s : String) (ys : List String) → contains ys t ≡ true → contains (s ∷ ys) t ≡ true
contains-grow t s ys h = ground arith

-- Every row of a list has its key among the keys of the list.
count-own_keys :
    (xs : List Pending) (keys : List String)
    → ((t : String) → contains (txns xs) t ≡ true → contains keys t ≡ true)
    → count (λ row. contains keys row.txn) xs ≡ length xs
unfolding count
count-own_keys [] keys h = refl
count-own_keys (x ∷ xs) keys h = ground (
  arith,
  h x.txn,
  eq_iff x.txn x.txn,
  count-own_keys xs keys (λ t m. h t (contains-grow t x.txn (txns xs) m)),
)

abbrev taken : (Pending → Bool) → ℕ → List Pending → Pending → Bool
taken p n rows row = contains (oldest p n rows) row.txn

count-taken :
    (p : Pending → Bool) (n : ℕ) (rows : List Pending)
    → n ≤ count p rows
    → n ≤ count (taken p n rows) (select p rows)
unfolding oldest
count-taken p n rows h = omega (
  arith,
  count-select p rows,
  length-order_by_expiry (select p rows),
  length-limit n (order_by_expiry (select p rows)),
  count-own_keys (limit n (order_by_expiry (select p rows))) (oldest p n rows) (λ t m. m),
  count-limit_le (taken p n rows) n (order_by_expiry (select p rows)),
  count-order_by_expiry (taken p n rows) (select p rows),
)

-- The deletion of the oldest takes at least as many rows of the filter as it was told to, so there
-- is room under the cap.
make_room-count :
    (p : Pending → Bool) (cap : ℕ) (rows : List Pending)
    → 0 < cap
    → count p (make_room p cap rows) < cap
unfolding make_room
make_room-count p cap rows h = elim (Bool-cases (leb cap (count p rows))) [
  | inl full ↦ rw full (
      ground (
        arith,
        count-taken p (count p rows - cap + 1) rows,
        count-delete_split p (taken p (count p rows - cap + 1) rows) rows,
      ))
  | inr free ↦ rw free (ground arith)
]

make_room-count_le :
    (p q : Pending → Bool) (cap : ℕ) (rows : List Pending)
    → count q (make_room p cap rows) ≤ count q rows
unfolding make_room
make_room-count_le p q cap rows = elim (Bool-cases (leb cap (count p rows))) [
  | inl full ↦ rw full (count-delete_le q _ rows)
  | inr free ↦ rw free (omega arith)
]

module _ (now : Time) (txn client_id : String) (params : AuthorizationParams)
    (rows : List Pending) where
  fresh_rows : List Pending
  fresh_rows = delete (λ row. ltb row.expires_at now) rows

  client_room : List Pending
  client_room = make_room (of_client client_id) max_pending_per_client fresh_rows

  park-client :
      count (of_client client_id) (park now txn client_id params rows) ≤ max_pending_per_client
  unfolding park fresh_rows client_room
  park-client = rw count-append (
      ground (
        arith,
        make_room-count (of_client client_id) max_pending_per_client fresh_rows (omega arith),
        make_room-count_le every (of_client client_id) max_live_pending client_room,
      ))

  park-all : count every (park now txn client_id params rows) ≤ max_live_pending
  unfolding park fresh_rows client_room
  park-all =
      rw count-append
        (omega (arith, make_room-count every max_live_pending client_room (omega arith)))

authorize-parked :
    (now : Time) (base txn client_id : String) (params : AuthorizationParams) (db : Db)
    {url : String} {db' : Db}
    → authorize now base txn client_id params db ≡ (ok url, db')
    → (in_range params ≡ true) × (db'.pendings ≡ park now txn client_id params db.pendings)
unfolding authorize
authorize-parked now base txn client_id params db e = elim (Bool-cases (in_range params)) [
  | inl fits ↦ (
    fits,
    ap (λ (r : Result AuthorizeError String × Db). r.1.pendings) (sym (rw (fits, authorize) at e)),
  )
  | inr unfit ↦ absurd (cc (rw (unfit, authorize) at e))
]

-- After a request is parked, its client has at most 10 parked requests and the table at most 500,
-- whatever the table held before.
pub authorize_bounded :
    (now : Time) (base txn client_id : String) (params : AuthorizationParams) (db : Db)
    {url : String} {db' : Db}
    → authorize now base txn client_id params db ≡ (ok url, db')
    → (count (of_client client_id) db'.pendings ≤ 10) × (count every db'.pendings ≤ 500)
authorize_bounded now base txn client_id params db e =
    let p = authorize-parked now base txn client_id params db e in
    (
      rw p.1 (park-client now txn client_id params db.pendings),
      rw p.1 (park-all now txn client_id params db.pendings),
    )
