-- ===== src/Scheduler/Ticker/Due.antt =====
-- portal/scheduler.py: the schedules that are due after a tick, and a run that is refused.
use mathlib.Core.Path.{subst}
use claude_pwa_portal.Base.{
  ℕ, suc, ◌<◌, String, String-Eq, ◌≡◌, refl, sym, Bool, true, false, not, ◌&&◌, ◌||◌, some, List,
  [], ◌∷◌, arith, ltb, ◌==◌, ℕ-Eq, err, Bool-cases, Option-cases, inl, inr, nat_eq_iff,
}
use claude_pwa_portal.Base.Table.{All, select, update}
use claude_pwa_portal.Bundles.Safe.{Result-cases}
use claude_pwa_portal.Models.{ScheduledRun, Db}
use claude_pwa_portal.Manifest.Schema.{Tool}
use claude_pwa_portal.Scheduler.{DateTime, instant, compute_next_run}
use claude_pwa_portal.Scheduler.Calendar.{IsDate}
use claude_pwa_portal.Scheduler.Cadence.{compute_next_run-Fits}
use claude_pwa_portal.Auth.{get_user}
use claude_pwa_portal.Apps.{find_app}
use claude_pwa_portal.Scheduler.Ticker.{
  RunTool, Refusal, is_admin_user, find_in_app, runnable, attempt, recorded, next_of, write_run,
  advanced, run_one, run_rows, run_due_schedules,
}

-- The frequencies that `compute_next_run` knows.
abbrev pub known_frequency : ScheduledRun → Bool
known_frequency s = s.frequency == "weekly" || s.frequency == "monthly" || s.frequency == "daily"

third : (a b c : Bool) → (a || b || c) ≡ true → a ≡ false → b ≡ false → c ≡ true
third a b c h p q = ground (arith, h, p, q)

next_of_known :
    (s : ScheduledRun) (now : DateTime)
    → known_frequency s ≡ true
    → (run : DateTime) × (next_of s now ≡ some run)
unfolding compute_next_run
next_of_known s now h = elim (Bool-cases (s.frequency == "weekly")) [
  | inl w ↦ rw w (_, refl)
  | inr w ↦ elim (Bool-cases (s.frequency == "monthly")) [
    | inl m ↦ rw (w, m) (_, refl)
    | inr m ↦ rw (w, m, third _ _ _ h w m) (_, refl)
  ]
]

-- One of the rows has the id and the next run of this one.
unfoldable pub matched : List ScheduledRun → ScheduledRun → Bool
matched [] r = false
matched (s ∷ rows) r = s.id == r.id && s.next_run_at == r.next_run_at || matched rows r

All-map :
    {A : Type 0} {P Q : A → Type 0} → ((x : A) → P x → Q x) → (xs : List A) → All P xs → All Q xs
All-map f [] h = tt
All-map f (x ∷ xs) h = (f x h.0, All-map f xs h.1)

All-select :
    {A : Type 0} (P : A → Type 0) (p : A → Bool) (xs : List A) → All P xs → All P (select p xs)
unfolding select
All-select P p [] h = tt
All-select P p (x ∷ xs) h = elim (Bool-cases (p x)) [
  | inl t ↦ rw t (h.0, All-select P p xs h.1)
  | inr t ↦ rw t (All-select P p xs h.1)
]

select_on :
    (x : ScheduledRun) (xs : List ScheduledRun)
    → x.enabled ≡ true
    → select (λ s. s.enabled) (x ∷ xs) ≡ x ∷ select (λ s. s.enabled) xs
unfolding select
select_on x xs on = ground (arith, on)

select_off :
    (x : ScheduledRun) (xs : List ScheduledRun)
    → x.enabled ≡ false
    → select (λ s. s.enabled) (x ∷ xs) ≡ select (λ s. s.enabled) xs
unfolding select
select_off x xs off = ground (arith, off)

future : {a b : ℕ} → a < b → ltb a b ≡ true
future h = ground (arith, h)

module _ (run_tool : RunTool)
    (keeps : (t : Tool) (s : ScheduledRun) (db : Db) → (run_tool t s db).1.schedules ≡ db.schedules)
    (now : DateTime) (date : IsDate now) where
  -- The schedule is off, lies in the future, or is still to be looked at.
  settled : List ScheduledRun → ScheduledRun → Bool
  settled rows r = not r.enabled || ltb (instant now) r.next_run_at || matched rows r

  attempt-schedules :
      (s : ScheduledRun) (db : Db) → (attempt run_tool s db).1.schedules ≡ db.schedules
  unfolding attempt
  attempt-schedules s db = elim (Result-cases (runnable s db)) [
    | inl (x, e) ↦ rw (e, attempt) refl
    | inr (t, e) ↦ rw (e, attempt) (keeps t s db)
  ]

  skipped-settled :
      (s r : ScheduledRun) (rows : List ScheduledRun)
      → ltb (instant now) s.next_run_at ≡ true
      → settled (s ∷ rows) r ≡ true
      → settled rows r ≡ true
  unfolding settled matched
  skipped-settled s r rows later h = ground (arith, later, h)

  recorded-settled :
      (s : ScheduledRun) (status : String) (run : DateTime) (rows xs : List ScheduledRun)
      → instant now < instant run
      → All (λ r. settled (s ∷ rows) r ≡ true) xs
      → All
          (λ r. settled rows r ≡ true)
          (update (λ x. x.id == s.id) (recorded now status (some run)) xs)
  unfolding update settled matched
  recorded-settled s status run rows [] later h = tt
  recorded-settled s status run rows (x ∷ xs) later h = (
    ground (arith, h.0, later, nat_eq_iff s.id x.id),
    recorded-settled s status run rows xs later h.1,
  )

  run_rows-settled :
      (rows : List ScheduledRun) (ran : ℕ) (db : Db)
      → All (λ s. known_frequency s ≡ true) rows
      → All (λ r. settled rows r ≡ true) db.schedules
      → (n : ℕ) × ((run_rows run_tool now ran rows db).0 ≡ some n)
        × All (λ r. settled [] r ≡ true) (run_rows run_tool now ran rows db).1.schedules
  unfolding run_rows run_one advanced write_run
  run_rows-settled [] ran db known h = (ran, refl, h)
  run_rows-settled (s ∷ rows) ran db known h = elim (Bool-cases (ltb (instant now) s.next_run_at)) [
    | inl later ↦ rw later (
        run_rows-settled rows ran db known.1
          (All-map (λ r k. skipped-settled s r rows later k) db.schedules h))
    | inr due ↦
        let run = next_of_known s now known.0 in
        rw (due, run.1, advanced)
          (run_rows-settled rows (suc ran)
            (write_run now s (attempt run_tool s db).0 (some run.0) (attempt run_tool s db).1)
            known.1
            (recorded-settled s (attempt run_tool s db).0 run.0 rows
              (attempt run_tool s db).1.schedules
              (compute_next_run-Fits s.frequency s.hour s.minute s.day_of_week s.day_of_month now
                date run.1).0
              (subst (All (λ r. settled (s ∷ rows) r ≡ true)) (sym (attempt-schedules s db)) h)))
  ]

  matched-weaken :
      (s : ScheduledRun) (rows xs : List ScheduledRun)
      → All (λ r. settled rows r ≡ true) xs
      → All (λ r. settled (s ∷ rows) r ≡ true) xs
  unfolding settled matched
  matched-weaken s rows [] h = tt
  matched-weaken s rows (x ∷ xs) h = (ground (arith, h.0), matched-weaken s rows xs h.1)

  own-settled : (x : ScheduledRun) (rows : List ScheduledRun) → settled (x ∷ rows) x ≡ true
  unfolding settled matched
  own-settled x rows = ground (arith, nat_eq_iff x.id x.id, nat_eq_iff x.next_run_at x.next_run_at)

  settled-select :
      (xs : List ScheduledRun) → All (λ r. settled (select (λ s. s.enabled) xs) r ≡ true) xs
  settled-select [] = tt
  settled-select (x ∷ xs) = elim (Bool-cases x.enabled) [
    | inl on ↦
        subst (λ rows. All (λ r. settled rows r ≡ true) (x ∷ xs)) (sym (select_on x xs on))
          (
            own-settled x (select (λ s. s.enabled) xs),
            matched-weaken x (select (λ s. s.enabled) xs) xs (settled-select xs),
          )
    | inr off ↦
        subst (λ rows. All (λ r. settled rows r ≡ true) (x ∷ xs)) (sym (select_off x xs off))
          (unfold settled in ground (arith, off), settled-select xs)
  ]

  -- Every enabled schedule lies in the future.
  abbrev pub NoneDue : Db → Type 0
  NoneDue db = All (λ s. s.enabled ≡ true → instant now < s.next_run_at) db.schedules

  settled-NoneDue :
      (xs : List ScheduledRun)
      → All (λ r. settled [] r ≡ true) xs
      → All (λ s. s.enabled ≡ true → instant now < s.next_run_at) xs
  unfolding settled matched
  settled-NoneDue xs h = All-map (λ s k on. ground (arith, k, on)) xs h

  idle :
      (xs : List ScheduledRun) (db : Db)
      → All (λ s. s.enabled ≡ true → instant now < s.next_run_at) xs
      → run_rows run_tool now 0 (select (λ s. s.enabled) xs) db ≡ (some 0, db)
  unfolding run_rows select
  idle [] db h = refl
  idle (x ∷ xs) db h = elim (Bool-cases x.enabled) [
    | inr off ↦ rw off (idle xs db h.1)
    | inl on ↦ rw on (rw (future (h.0 on)) (idle xs db h.1))
  ]

  -- Where every schedule has a frequency that the portal knows and no tool writes to the schedules, a
  -- tick at a time of the calendar ends without an error and leaves no enabled schedule due, however
  -- long it was overdue and whatever the tools answer; a second tick at that time fires nothing and
  -- changes nothing.
  pub run_due_schedules-NoneDue :
      (db : Db)
      → All (λ s. known_frequency s ≡ true) db.schedules
      → (n : ℕ) × ((run_due_schedules run_tool now db).0 ≡ some n)
        × NoneDue (run_due_schedules run_tool now db).1
        × (run_due_schedules run_tool now (run_due_schedules run_tool now db).1
            ≡ (some 0, (run_due_schedules run_tool now db).1))
  unfolding run_due_schedules
  run_due_schedules-NoneDue db known =
      let done =
        run_rows-settled (select (λ s. s.enabled) db.schedules) 0 db
          (All-select _ _ db.schedules known) (settled-select db.schedules) in
      let quiet = settled-NoneDue _ done.2 in (done.0, done.1, quiet, idle _ _ quiet)

refused-owner :
    (s : ScheduledRun) (db : Db)
    → is_admin_user (get_user s.user_id db) ≡ false
    → (x : Refusal) × (runnable s db ≡ err x)
unfolding runnable find_in_app
refused-owner s db h = elim (Option-cases (find_app s.app_slug db)) [
  | inl e ↦ rw (e, runnable) (_, refl)
  | inr (app_row, e) ↦ elim (Bool-cases app_row.enabled) [
    | inr off ↦ rw (e, runnable) (rw off (_, refl))
    | inl on ↦ rw (e, runnable) (rw (on, h) (_, refl))
  ]
]

-- The run of a schedule whose owner is no administrator any more, or is gone, does not reach the
-- tool: it is recorded the same whatever the tool would have done.
pub run_one_refused :
    (run_tool other : RunTool) (now : DateTime) (advance : Bool) (s : ScheduledRun) (db : Db)
    → is_admin_user (get_user s.user_id db) ≡ false
    → run_one run_tool now advance s db ≡ run_one other now advance s db
unfolding run_one attempt advanced write_run
run_one_refused run_tool other now advance s db h =
    let refused = refused-owner s db h in rw (refused.1, attempt) refl
