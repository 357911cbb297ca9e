-- ===== src/Schedules.antt =====
-- internal/ci/schedule.go, and the statements on schedules of internal/stores/sqlite.go.
pub mod Refines
use pici.Base.{
  ℕ, zero, suc, ◌+◌, ◌-◌, ◌*◌, ◌≤◌, ◌<◌, String, ◌≡◌, refl, sym, ap, ◌∙◌, ◌≢◌, ◌↔◌, ◌⊎◌, inl, inr,
  Bool, true, false, not, ◌&&◌, ◌||◌, Option, none, some, List, [], ◌∷◌, ◌++◌, map, arith, eq_iff,
  ltb, leb, ◌==◌, str_eq, if◌then◌else◌, ==_iff, Bool-cases, Option-cases, length, get_elem?, any,
  all, drop, take, All, length-append, Text, codes, has_prefix, contains, ℤ, pos, negsuc, decrement,
  increment, is_zero, is_negative, is_positive, Dict, get, get_or, put, get_or-put, get-put, count,
  count-append, length-le_of_count, count-eq_of_length, select, select_all, update, delete,
  order_by, str_leb,
}
use pici.Config.{Config}
use pici.Config.Parse.{Fields, Parsed, ok, err, parse}
use pici.Config.Triggers.{effective_schedule}

pub record Schedule : Type 0 where
  pub project_id : String
  pub workflow : String
  pub cron_expr : String
  pub next_run_at : ℕ

-- The parser of robfig/cron with five fields: a schedule as its Next. A time is counted from Go's zero
-- time, which is 0 and which Next gives where it finds no time.
abbrev pub CronParser : Type 0
CronParser = String → Option (ℕ → ℕ)

-- cron.Next
unfoldable pub next_run : CronParser → String → ℕ → Option ℕ
next_run parser expr from = elim (parser expr) [ none ↦ none | some sched ↦ some (sched from) ]

-- What the functions of this file call of stores.Store, for a store with states `S`.
pub record ScheduleStore (S : Type 0) : Type 0 where
  pub upsert_schedule : S → Schedule → S
  pub delete_schedule : S → (project_id workflow : String) → S

abbrev pub is_key : (project_id workflow : String) → Schedule → Bool
is_key project_id workflow r = str_eq r.project_id project_id && str_eq r.workflow workflow

-- UpsertSchedule of the SQLite store; PRIMARY KEY (project_id, workflow)
unfoldable pub upsert_row : List Schedule → Schedule → List Schedule
upsert_row rows s =
    if any (is_key s.project_id s.workflow) rows
    then update (is_key s.project_id s.workflow)
        (λ r. record r { cron_expr = s.cron_expr; next_run_at = s.next_run_at }) rows
    else rows ++ s ∷ []

-- DeleteSchedule of the SQLite store
unfoldable pub delete_row : List Schedule → (project_id workflow : String) → List Schedule
delete_row rows project_id workflow = delete (is_key project_id workflow) rows

-- The table schedules.
abbrev pub sqlite : ScheduleStore (List Schedule)
sqlite = record { upsert_schedule = upsert_row; delete_schedule = delete_row }

-- ListDueSchedules of the SQLite store
unfoldable pub list_due_schedules : List Schedule → ℕ → List Schedule
list_due_schedules rows now = select_all (λ (s : Schedule). leb s.next_run_at now) rows

-- SyncSchedule at the time `now`: the store after it, and whether it returns no error.
unfoldable pub sync_schedule :
    {S : Type 0}
    → ScheduleStore S
    → CronParser
    → (now : ℕ) → S
    → (project_id workflow expr : String) → S × Bool
unfolding next_run
sync_schedule store parser now s project_id workflow expr =
    if str_eq expr ""
    then (store.delete_schedule s project_id workflow, true)
    else elim (next_run parser expr now) [
      | none ↦ (s, false)
      | some t ↦ (
        store.upsert_schedule s (record {
          project_id = project_id;
          workflow = workflow;
          cron_expr = expr;
          next_run_at = t;
        }),
        true,
      )
    ]

-- An entry of the directory .ci: a directory with its ci.yml, if that can be read.
pub record DirEntry : Type 0 where
  pub name : String
  pub is_dir : Bool
  pub content : Option Text

abbrev pub parsed_schedule : Parsed Config → Option String
parsed_schedule (ok cfg) = some (effective_schedule cfg)
parsed_schedule (err e) = none

-- The schedule that an entry asks for; `none` where the loop goes on to the next entry.
abbrev pub schedule_of :
    (unmarshal_root : Text → Option Fields) → (Text → Parsed Config) → DirEntry → Option String
schedule_of root config e =
    if not e.is_dir
    then none
    else elim e.content [ none ↦ none | some content ↦ parsed_schedule (parse root config content) ]

-- The loop of SyncProjectSchedules, over what its entries ask for. `clock` is the time of the call of
-- SyncSchedule for a name.
abbrev pub sync_asked :
    {S : Type 0}
    → ScheduleStore S
    → CronParser
    → (clock : String → ℕ) → (project_id : String) → List (String × Option String)
    → S
    → S × Bool
sync_asked store parser clock project_id [] s = (s, true)
sync_asked store parser clock project_id ((name, none) ∷ asked) s =
    sync_asked store parser clock project_id asked s
sync_asked store parser clock project_id ((name, some expr) ∷ asked) s =
    let rest = sync_asked store parser clock project_id asked in
    let (s', good) = sync_schedule store parser (clock name) s project_id name expr in
    if good then rest s' else (s', false)

-- SyncProjectSchedules; without entries the directory cannot be read.
unfoldable pub sync_project_schedules :
    {S : Type 0}
    → ScheduleStore S
    → CronParser
    → (clock : String → ℕ) → (unmarshal_root : Text → Option Fields) → (Text → Parsed Config)
    → S
    → (project_id : String) → Option (List DirEntry)
    → S × Bool
unfolding sync_schedule
sync_project_schedules store parser clock root config s project_id none = (s, false)
sync_project_schedules store parser clock root config s project_id (some entries) =
    sync_asked store parser clock project_id
      (map (λ e. (e.name, schedule_of root config e)) entries) s
