-- ===== src/Scheduler.antt =====
-- internal/scheduler/scheduler.go: the runs that schedules ask for.
pub mod Due
use pici.Base.{
  ℕ, zero, suc, ◌+◌, ◌-◌, ◌*◌, ◌≤◌, ◌<◌, String, ◌≡◌, refl, sym, ap, ◌∙◌, ◌≢◌, ◌↔◌, ◌⊎◌, inl, inr,
  Bool, true, false, not, ◌&&◌, ◌||◌, Option, none, some, List, [], ◌∷◌, ◌++◌, map, arith, eq_iff,
  ltb, leb, ◌==◌, str_eq, if◌then◌else◌, ==_iff, Bool-cases, Option-cases, length, get_elem?, any,
  all, drop, take, All, length-append, Text, codes, has_prefix, contains, ℤ, pos, negsuc, decrement,
  increment, is_zero, is_negative, is_positive, Dict, get, get_or, put, get_or-put, get-put, count,
  count-append, length-le_of_count, count-eq_of_length, select, select_all, update, delete,
  order_by, str_leb,
}
use pici.Records.{Project}
use pici.Schedules.{Schedule, is_key, CronParser, next_run, upsert_row, list_due_schedules}

-- What a tick meets: GetProject, Trigger (whether it succeeds), the parser of cron
-- expressions, and the clock when the next time of a schedule is computed.
pub record Clockwork : Type 0 where
  pub get_project : String → Option Project
  pub trigger : Project → (workflow ref : String) → Bool
  pub parser : CronParser
  pub clock : (project_id workflow : String) → ℕ

-- A call of Trigger, with TriggerCron.
pub record Call : Type 0 where
  pub project_id : String
  pub workflow : String
  pub ref : String

abbrev pub rescheduled : List Schedule → Schedule → Option ℕ → List Schedule
rescheduled rows s none = rows
rescheduled rows s (some t) = upsert_row rows (record s { next_run_at = t })

-- What becomes of the table for one schedule that is due.
abbrev pub tick_row : Clockwork → List Schedule → Schedule → Option Project → List Schedule
tick_row c rows s none = rows
tick_row c rows s (some project) =
    if c.trigger project s.workflow project.default_branch
    then rescheduled rows s (next_run c.parser s.cron_expr (c.clock s.project_id s.workflow))
    else rows

abbrev pub call_of : Schedule → Option Project → List Call
call_of s none = []
call_of s (some project) =
    record { project_id = project.id; workflow = s.workflow; ref = project.default_branch } ∷ []

-- The loop of Scheduler.tick: the table, and the calls in their order.
unfoldable pub tick_each : Clockwork → List Schedule → List Schedule → List Schedule × List Call
unfolding next_run
tick_each c rows [] = (rows, [])
tick_each c rows (s ∷ due) =
    let project = c.get_project s.project_id in
    let (rows', calls) = tick_each c (tick_row c rows s project) due in
    (rows', call_of s project ++ calls)

-- Scheduler.tick
unfoldable pub tick : Clockwork → (now : ℕ) → List Schedule → List Schedule × List Call
unfolding tick_each
tick c now rows = tick_each c rows (list_due_schedules rows now)
