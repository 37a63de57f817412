-- ===== src/Throttle.antt =====
-- portal/main.py, "Login rate limit": two tables of rolling windows, one for each key. A table is a
-- Python `dict`, an association list in the order of insertion whose entries hold the times of the
-- hits, oldest first. Times are seconds of the monotonic clock, and each function is one step under
-- the lock.
pub mod Table
pub mod Guesses
use claude_pwa_portal.Base.{
  ℕ, suc, ◌+◌, ◌-◌, Text, Text-Eq, Eq, ◌≡◌, ◌↔◌, Bool, true, false, not, ◌&&◌, ◌||◌, Option, none,
  some, List, [], ◌∷◌, ◌++◌, map, leb, ltb, ◌==◌, if◌then◌else◌, length, arith, is_none,
  text_eq_iff,
}
use claude_pwa_portal.Base.Table.{first, update, delete, insert}

pub record Entry {ℓ} (K : Type ℓ) : Type ℓ where
  pub key : K
  pub hits : List ℕ

-- `[t for t in hits if t > cutoff]`, with `cutoff = now - window`
unfoldable pub inside : ℕ → ℕ → List ℕ → List ℕ
inside window now [] = []
inside window now (t ∷ hits) =
    let rest = inside window now hits in if ltb now (t + window) then t ∷ rest else rest

module _ {ℓ} {K : Type ℓ} ⦃e : Eq K⦄ where
  abbrev pub has_key : K → Entry K → Bool
  has_key k entry = entry.key == k

  abbrev pub found_hits : Option (Entry K) → List ℕ
  found_hits none = []
  found_hits (some entry) = entry.hits

  -- `table.get(key, ())`
  unfoldable pub hits_of : K → List (Entry K) → List ℕ
  hits_of k table = found_hits (first (has_key k) table)

  abbrev pub with_hits : List ℕ → Entry K → Entry K
  with_hits hits entry = record entry { hits = hits }

  -- `if hits: table[key] = hits`, and `table.pop(key, None)` without
  unfoldable pub keep_hits : K → List ℕ → List (Entry K) → List (Entry K)
  keep_hits k [] table = delete (has_key k) table
  keep_hits k (t ∷ hits) table = update (has_key k) (with_hits (t ∷ hits)) table

  -- `_fresh_hits`: the hits of the key inside the window, and the table without the others.
  unfoldable pub fresh_hits : ℕ → ℕ → K → List (Entry K) → List ℕ × List (Entry K)
  unfolding hits_of inside keep_hits
  fresh_hits window now k table =
      let hits = inside window now (hits_of k table) in (hits, keep_hits k hits table)

  -- `while len(table) >= cap: table.pop(next(iter(table)))`
  unfoldable pub evict : ℕ → List (Entry K) → List (Entry K)
  evict cap [] = []
  evict cap (entry ∷ table) =
      let rest = evict cap table in if leb cap (length (entry ∷ table)) then rest else entry ∷ table

  unfoldable pub add_hit : ℕ → ℕ → K → List (Entry K) → List (Entry K)
  unfolding evict
  add_hit cap now k table =
      let held =
        if is_none (first (has_key k) table)
        then insert (record { key = k; hits = [] }) (evict cap table)
        else table in
      update (has_key k) (λ entry. record entry { hits = entry.hits ++ (now ∷ []) }) held

  -- `for k in list(table): _fresh_hits(table, k, cutoff)`
  unfoldable pub prune_keys : ℕ → ℕ → List K → List (Entry K) → List (Entry K)
  unfolding fresh_hits
  prune_keys window now [] table = table
  prune_keys window now (k ∷ keys) table =
      prune_keys window now keys (fresh_hits window now k table).1

  unfoldable pub prune_all : ℕ → ℕ → List (Entry K) → List (Entry K)
  unfolding prune_keys
  prune_all window now table = prune_keys window now (map (λ entry. entry.key) table) table

-- A client network and an e-mail address.
pub record LoginKey : Type 0 where
  pub network : Text
  pub email : Text

abbrev login_key_eq : LoginKey → LoginKey → Bool
login_key_eq k l = k.network == l.network && k.email == l.email

pub login_key_eq_iff : (k l : LoginKey) → (login_key_eq k l ≡ true) ↔ (k ≡ l)
login_key_eq_iff k l = (
  λ h. ground (arith, text_eq_iff k.network l.network, text_eq_iff k.email l.email),
  λ h. ground (arith, text_eq_iff k.network l.network, text_eq_iff k.email l.email),
)

instance abbrev pub LoginKey-Eq : Eq LoginKey
LoginKey-Eq = record { beq = login_key_eq; beq_iff = login_key_eq_iff }

-- The tables `_login_failures` and `_login_net_hits`, and `_login_last_full_prune`.
pub record Throttle : Type 0 where
  pub failures : List (Entry LoginKey)
  pub net_hits : List (Entry Text)
  pub last_full_prune : ℕ

-- `_LOGIN_FAIL_WINDOW_SECONDS`
abbrev pub login_fail_window : ℕ
login_fail_window = 600

-- `_LOGIN_FAIL_LIMIT`
abbrev pub login_fail_limit : ℕ
login_fail_limit = 5

-- `_LOGIN_NET_LIMIT`
abbrev pub login_net_limit : ℕ
login_net_limit = 30

-- `_LOGIN_FAIL_MAX_KEYS`
abbrev pub login_fail_max_keys : ℕ
login_fail_max_keys = 100000

unfoldable pub prune_now_and_then : ℕ → Throttle → Throttle
unfolding prune_all
prune_now_and_then now th =
    if ltb 30 (now - th.last_full_prune)
    then record {
      failures = prune_all login_fail_window now th.failures;
      net_hits = prune_all login_fail_window now th.net_hits;
      last_full_prune = now;
    }
    else th

-- `or` leaves the key's own table alone where the network is over its limit.
unfoldable pub reserve_pruned : ℕ → LoginKey → Throttle → Bool × Throttle
unfolding fresh_hits add_hit
reserve_pruned now key th =
    let (net_fresh, net_table) = fresh_hits login_fail_window now key.network th.net_hits in
    let (fresh, table) = fresh_hits login_fail_window now key th.failures in
    if leb login_net_limit (length net_fresh)
    then (false, record th { net_hits = net_table })
    else if leb login_fail_limit (length fresh)
    then (false, record th { net_hits = net_table; failures = table })
    else (
      true,
      record th {
        failures = add_hit login_fail_max_keys now key table;
        net_hits = add_hit login_fail_max_keys now key.network net_table;
      },
    )

unfoldable pub reserve_login_attempt : ℕ → LoginKey → Throttle → Bool × Throttle
unfolding prune_now_and_then reserve_pruned
reserve_login_attempt now key th = reserve_pruned now key (prune_now_and_then now th)

-- `net_hits.pop()`
unfoldable pub pop_last : List ℕ → List ℕ
pop_last [] = []
pop_last (t ∷ []) = []
pop_last (t ∷ u ∷ hits) = t ∷ pop_last (u ∷ hits)

unfoldable pub clear_login_failures : LoginKey → Throttle → Throttle
unfolding pop_last
clear_login_failures key th = record th {
  failures = delete (has_key key) th.failures;
  net_hits =
      update (has_key key.network) (λ entry. record entry { hits = pop_last entry.hits })
        th.net_hits;
}
