-- ===== src/Throttle/Guesses.antt =====
-- portal/main.py, the login limit: the guesses of one account's password.
use claude_pwa_portal.Base.{
  ℕ, ◌-◌, Text-Eq, ◌≤◌, ◌<◌, ◌≡◌, true, false, ◌&&◌, List, [], ◌∷◌, ◌++◌, leb, ltb, ◌==◌,
  if◌then◌else◌, length, arith, Bool-cases, inl, inr,
}
use mathlib.Core.Path.{subst}
use claude_pwa_portal.Base.Table.{count, first, count-append, count-le_length}
use claude_pwa_portal.Throttle.{
  Entry, LoginKey, LoginKey-Eq, login_key_eq_iff, Throttle, hits_of, fresh_hits, prune_now_and_then,
  reserve_pruned, reserve_login_attempt, clear_login_failures, login_fail_window, login_fail_limit,
  login_net_limit, login_fail_max_keys,
}
use claude_pwa_portal.Throttle.Table.{
  is_recent, Narrowed, same-Narrowed, fresh_hits-Narrowed, fresh_hits-length, prune_all-Narrowed,
  prune_all-length, fresh_hits-same, add_hit-hits_of, hits_of-delete, length-snoc,
}

-- A history of the login page, for the attempts under one key: the time of the last attempt, the times
-- of those that went on to the password since the last success under the key, and the tables.
pub data Run (key : LoginKey) : ℕ → List ℕ → Throttle → Type 0 where
  start : Run key 0 [] (record { failures = []; net_hits = []; last_full_prune = 0 })
  attempt :
      {last : ℕ} {granted : List ℕ} {th : Throttle} (now : ℕ) (other : LoginKey)
      → last ≤ now
      → length th.failures < login_fail_max_keys
      → Run key last granted th
      → Run key now
          (if (reserve_login_attempt now other th).0 && other == key
            then granted ++ (now ∷ [])
            else granted)
          (reserve_login_attempt now other th).1
  success :
      {last : ℕ} {granted : List ℕ} {th : Throttle} (other : LoginKey)
      → Run key last granted th
      → Run key last (if other == key then [] else granted) (clear_login_failures other th)

record Covers (key : LoginKey) (last : ℕ) (granted : List ℕ) (th : Throttle) : Type 0 where
  seen :
      (later : ℕ)
      → last ≤ later
      → count (is_recent login_fail_window later) granted
        ≤ count (is_recent login_fail_window later) (hits_of key th.failures)
  bounded : length (hits_of key th.failures) ≤ login_fail_limit

module _ (key : LoginKey) where
  Covers-Narrowed :
      (last now : ℕ) (granted : List ℕ) (th th' : Throttle)
      → last ≤ now
      → Narrowed login_fail_window now (hits_of key th.failures) (hits_of key th'.failures)
      → Covers key last granted th
      → Covers key now granted th'
  Covers-Narrowed last now granted th th' h n c = record {
    seen = λ later k. omega (arith, c.seen later (omega (arith, h, k)), n.seen later k);
    bounded = omega (arith, c.bounded, n.fewer);
  }

  prune-Narrowed :
      (now : ℕ) (th : Throttle)
      → Narrowed login_fail_window now
          (hits_of key th.failures)
          (hits_of key (prune_now_and_then now th).failures)
  unfolding prune_now_and_then
  prune-Narrowed now th = elim (Bool-cases (ltb 30 (now - th.last_full_prune))) [
    | inl t ↦ rw t (prune_all-Narrowed key login_fail_window now th.failures)
    | inr t ↦ rw t (same-Narrowed login_fail_window now (hits_of key th.failures))
  ]

prune-length :
    (now : ℕ) (th : Throttle) → length (prune_now_and_then now th).failures ≤ length th.failures
unfolding prune_now_and_then
prune-length now th = ground (arith, prune_all-length login_fail_window now th.failures)

-- A hit is added to the window of the key only where there were fewer than five.
granted-Covers :
    (key other : LoginKey) (now : ℕ) (granted : List ℕ) (th : Throttle) (table : Throttle)
    → (hits_of key table.failures
        ≡ (if other == key then hits_of key th.failures ++ (now ∷ []) else hits_of key th.failures))
    → (other == key ≡ true → length (hits_of key th.failures) < login_fail_limit)
    → Covers key now granted th
    → Covers key now (if other == key then granted ++ (now ∷ []) else granted) table
granted-Covers key other now granted th table e room c = elim (Bool-cases (other == key)) [
  | inl t ↦ rw t (record {
    seen = λ later k.
        rw (e, t)
          (ground (
            arith,
            c.seen later k,
            count-append (is_recent login_fail_window later) granted now,
            count-append (is_recent login_fail_window later) (hits_of key th.failures) now,
          ));
    bounded = rw (e, t) (omega (arith, room t, length-snoc (hits_of key th.failures) now));
  })
  | inr t ↦
      rw t (record { seen = λ later k. rw (e, t) (c.seen later k); bounded = rw (e, t) c.bounded })
]

fresh-room :
    (key : LoginKey) (now : ℕ) (table : List (Entry LoginKey))
    → leb login_fail_limit (length (fresh_hits login_fail_window now key table).0) ≡ false
    → length (hits_of key (fresh_hits login_fail_window now key table).1) < login_fail_limit
fresh-room key now table room =
    rw (fresh_hits-same key login_fail_window now table) (unfold fresh_hits in ground (arith, room))

reserve-Covers :
    (key other : LoginKey) (now : ℕ) (granted : List ℕ) (th : Throttle)
    → length th.failures < login_fail_max_keys
    → Covers key now granted th
    → Covers key now
        (if (reserve_pruned now other th).0 && other == key then granted ++ (now ∷ []) else granted)
        (reserve_pruned now other th).1
unfolding reserve_pruned
reserve-Covers key other now granted th small c =
    let fresh = fresh_hits login_fail_window now other th.failures in
    let kept : Covers key now granted (record th { failures = fresh.1 }) =
      Covers-Narrowed key now now granted th (record th { failures = fresh.1 }) (omega arith)
        (fresh_hits-Narrowed key login_fail_window now other th.failures) c in
    elim (Bool-cases (
      leb login_net_limit
        (length (fresh_hits login_fail_window now other.network th.net_hits).0))) [
          | inl t ↦ rw t (record { seen = c.seen; bounded = c.bounded })
          | inr t ↦ elim (Bool-cases (leb login_fail_limit (length fresh.0))) [
            | inl full ↦ rw (t, full) (record { seen = kept.seen; bounded = kept.bounded })
            | inr room ↦
                rw (t, room)
                  (granted-Covers key other now granted (record th { failures = fresh.1 }) _
                    (add_hit-hits_of login_fail_max_keys now other key fresh.1 (
                      omega
                        (arith, small, fresh_hits-length login_fail_window now other th.failures)))
                    (λ t.
                      subst (λ k. length (hits_of k fresh.1) < login_fail_limit)
                        ((login_key_eq_iff other key).0 t) (fresh-room other now th.failures room))
                    kept)
          ]
        ]

Covers-start :
    (key : LoginKey)
    → Covers key 0 [] (record { failures = []; net_hits = []; last_full_prune = 0 })
unfolding count hits_of first
Covers-start key = record { seen = λ later h. omega arith; bounded = omega arith }

success-Covers :
    (key other : LoginKey) (last : ℕ) (granted : List ℕ) (th : Throttle)
    → Covers key last granted th
    → Covers key last (if other == key then [] else granted) (clear_login_failures other th)
unfolding clear_login_failures
success-Covers key other last granted th c = elim (Bool-cases (other == key)) [
  | inl t ↦ rw t (record {
    seen = λ later h. rw (hits_of-delete key other th.failures, t) (unfold count in omega arith);
    bounded = rw (hits_of-delete key other th.failures, t) (omega arith);
  })
  | inr t ↦ rw t (record {
    seen = λ later h. rw (hits_of-delete key other th.failures, t) (c.seen later h);
    bounded = rw (hits_of-delete key other th.failures, t) c.bounded;
  })
]

Run-Covers :
    (key : LoginKey) {last : ℕ} {granted : List ℕ} {th : Throttle}
    → Run key last granted th
    → Covers key last granted th
unfolding reserve_login_attempt
Run-Covers key start = Covers-start key
Run-Covers key (attempt {last = last} {granted = granted} {th = th} now other h small r) =
    reserve-Covers key other now granted (prune_now_and_then now th)
      (omega (arith, small, prune-length now th))
      (Covers-Narrowed key last now granted th (prune_now_and_then now th) h
        (prune-Narrowed key now th) (Run-Covers key r))
Run-Covers key (success {last = last} {granted = granted} {th = th} other r) =
    success-Covers key other last granted th (Run-Covers key r)

-- Over every sequence of logins, of any keys, at times that do not go back and in tables that stay
-- below their cap, no more than five attempts for one address from one network reach the password
-- within ten minutes without a success among them.
pub Run-Guesses :
    (key : LoginKey) (later : ℕ) {last : ℕ} {granted : List ℕ} {th : Throttle}
    → Run key last granted th
    → last ≤ later
    → count (is_recent login_fail_window later) granted ≤ login_fail_limit
Run-Guesses key later {th = th} r h = omega (
  arith,
  (Run-Covers key r).seen later h,
  (Run-Covers key r).bounded,
  count-le_length (is_recent login_fail_window later) (hits_of key th.failures),
)
