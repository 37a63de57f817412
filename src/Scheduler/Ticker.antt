-- ===== src/Scheduler/Ticker.antt =====
-- portal/scheduler.py, from `_find_tool` on: a schedule is run, and all that are due. The run of a
-- tool (portal/app_tools.py) is an argument, `run_tool`: whether it delivered or raised, and the
-- database after it. What a run reports is its status; the text of the result is not modelled.
-- `next_run_at` is the instant of the `datetime` in the column.
pub mod Due
use claude_pwa_portal.Base.{
  ℕ, suc, String, Text, Text-Eq, Bool, true, false, not, Option, none, some, List, [], ◌∷◌, Result,
  ok, err, ltb, ◌==◌, ℕ-Eq, if◌then◌else◌,
}
use claude_pwa_portal.Base.Table.{first, select, update}
use claude_pwa_portal.Models.{Time, User, App, ScheduledRun, Db}
use claude_pwa_portal.Manifest.Schema.{Tool}
use claude_pwa_portal.Access.{is_admin_role}
use claude_pwa_portal.Auth.{get_user}
use claude_pwa_portal.Apps.{find_app}
use claude_pwa_portal.Scheduler.{DateTime, instant, compute_next_run}

abbrev pub RunTool : Type 0
RunTool = Tool → ScheduledRun → Db → Bool × Db

unfoldable pub find_tool : List Tool → Text → Option Tool
find_tool tools name = first (λ t. t.name == name) tools

-- Why a run does not reach its tool.
pub data Refusal : Type 0 where
  app_missing owner_not_admin tool_missing : Refusal

abbrev pub is_admin_user : Option User → Bool
is_admin_user none = false
is_admin_user (some owner) = is_admin_role owner.role

find_in_app : ScheduledRun → Db → App → Result Refusal Tool
unfolding find_tool get_user
find_in_app sched db app_row =
    if not app_row.enabled
    then err app_missing
    else if not (is_admin_user (get_user sched.user_id db))
    then err owner_not_admin
    else elim (find_tool app_row.tools sched.tool_name) [
      | none ↦ err tool_missing
      | some decl ↦ ok decl
    ]

-- The tool that a schedule may run.
unfoldable pub runnable : ScheduledRun → Db → Result Refusal Tool
unfolding find_in_app find_app
runnable sched db = elim (find_app sched.app_slug db) [
  | none ↦ err app_missing
  | some app_row ↦ find_in_app sched db app_row
]

abbrev recorded : DateTime → String → Option DateTime → ScheduledRun → ScheduledRun
recorded now status none s = record s { last_run_at = some (instant now); last_status = status }
recorded now status (some run) s = record s {
  last_run_at = some (instant now);
  last_status = status;
  next_run_at = instant run;
}

abbrev pub next_of : ScheduledRun → DateTime → Option DateTime
next_of sched now =
    compute_next_run sched.frequency sched.hour sched.minute sched.day_of_week sched.day_of_month
      now

write_run : DateTime → ScheduledRun → String → Option DateTime → Db → Db
write_run now sched status run db = record db {
  schedules = update (λ s. s.id == sched.id) (recorded now status run) db.schedules;
}

advanced : DateTime → ScheduledRun → String → Option DateTime → Db → Bool × Db
unfolding write_run
advanced now sched status none db = (false, db)
advanced now sched status (some run) db = (true, write_run now sched status (some run) db)

module _ (run_tool : RunTool) where
  -- The status of the run, and the database after the tool.
  unfoldable pub attempt : ScheduledRun → Db → String × Db
  unfolding runnable
  attempt sched db = elim (runnable sched db) [
    | err refusal ↦ ("error", db)
    | ok decl ↦
        let (delivered, db1) = run_tool decl sched db in (if delivered then "ok" else "error", db1)
  ]

  -- `_run_one`; false where `compute_next_run` raises, which rolls the row back.
  unfoldable pub run_one : DateTime → Bool → ScheduledRun → Db → Bool × Db
  unfolding attempt advanced write_run compute_next_run
  run_one now advance sched db =
      let (status, db1) = attempt sched db in
      if advance
      then advanced now sched status (next_of sched now) db1
      else (true, write_run now sched status none db1)

  -- None where there is no such schedule.
  unfoldable pub fire_schedule : DateTime → ℕ → Db → Option (Bool × Db)
  unfolding run_one
  fire_schedule now sched_id db = elim (first (λ s. s.id == sched_id) db.schedules) [
    | none ↦ none
    | some sched ↦ some (run_one now false sched db)
  ]

  -- The loop over the rows of the query: how many fired, unless a run raised, and the database.
  unfoldable pub run_rows : DateTime → ℕ → List ScheduledRun → Db → Option ℕ × Db
  unfolding run_one instant
  run_rows now ran [] db = (some ran, db)
  run_rows now ran (sched ∷ rows) db =
      let skipped = run_rows now ran rows db in
      let (done, db1) = run_one now true sched db in
      let fired = run_rows now (suc ran) rows db1 in
      if ltb (instant now) sched.next_run_at then skipped else if done then fired else (none, db1)

  unfoldable pub run_due_schedules : DateTime → Db → Option ℕ × Db
  unfolding run_rows
  run_due_schedules now db = run_rows now 0 (select (λ s. s.enabled) db.schedules) db
