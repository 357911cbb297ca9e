-- ===== src/Store.antt =====
-- internal/stores/sqlite.go: the table of executions and the SQL statements on it.
pub mod Keys
pub mod Claim
use pici.Base.{
  ℕ, zero, suc, ◌+◌, ◌-◌, ◌*◌, ◌≤◌, ◌<◌, String, ◌≡◌, refl, sym, ap, ◌∙◌, ◌≢◌, ◌↔◌, ◌⊎◌, inl, inr,
  Bool, true, false, not, ◌&&◌, ◌||◌, Option, none, some, List, [], ◌∷◌, ◌++◌, map, arith, eq_iff,
  ltb, leb, ◌==◌, str_eq, if◌then◌else◌, ==_iff, Bool-cases, Option-cases, length, get_elem?, any,
  all, drop, take, All, length-append, Text, codes, has_prefix, contains, ℤ, pos, negsuc, decrement,
  increment, is_zero, is_negative, is_positive, Dict, get, get_or, put, get_or-put, get-put, count,
  count-append, length-le_of_count, count-eq_of_length,
}
use pici.Records.{
  Status, Trigger, Source, StepResult, Execution, is_pending, is_running, is_retry, is_rebuild,
}

-- A row of the table executions.
pub record Row : Type 0 where
  pub project_id : String
  pub id : ℕ
  pub execution_id : ℕ
  pub attempt : ℕ
  pub workflow : String
  pub ref : String
  pub commit_sha : String
  pub status : Status
  pub trigger : Trigger
  pub steps : List StepResult
  pub error : String
  pub started_at : Option ℕ
  pub setup_finished_at : Option ℕ
  pub finished_at : Option ℕ
  pub created_at : ℕ
  pub concurrency_group : String
  pub source : Source
  pub snapshot_id : Option String
  pub parent_id : Option ℕ
  pub workspace_id : Option ℕ
  pub created_by : Option String
  pub check_run_id : ℕ
  pub claimed_by : String
  pub cancel_requested : Bool

-- `seqs` is projects.execution_seq, with an entry for each project.
pub record Db : Type 0 where
  pub seqs : Dict ℕ
  pub rows : List Row

-- WHERE project_id = ? AND id = ?
abbrev pub is_at : String → ℕ → Row → Bool
is_at pid id r = str_eq r.project_id pid && (r.id == id)

-- UPDATE executions SET … WHERE …
abbrev pub update_where : (Row → Bool) → (Row → Row) → List Row → List Row
update_where p f [] = []
update_where p f (r ∷ rows) = (if p r then f r else r) ∷ update_where p f rows

-- SELECT … LIMIT 1
abbrev pub find_where : (Row → Bool) → List Row → Option Row
find_where p [] = none
find_where p (r ∷ rows) = if p r then some r else find_where p rows

-- SELECT COUNT(*)
abbrev pub count_where : (Row → Bool) → List Row → ℕ
count_where p [] = 0
count_where p (r ∷ rows) = (if p r then 1 else 0) + count_where p rows

-- The defaults that CreateExecution fills in.
abbrev pub default_status : Status → Status
default_status Status.unset = Status.pending
default_status s = s

abbrev pub default_trigger : Trigger → Trigger
default_trigger Trigger.unset = Trigger.manual
default_trigger t = t

abbrev pub default_source : Source → Source
default_source Source.unset = Source.git
default_source s = s

-- What CreateExecution leaves in `*e`, once the project's sequence has given the id. WorkspaceID
-- points to e.ID, so it takes the new id too.
unfoldable pub numbered : Execution → ℕ → Execution
numbered e id =
    let attempt = if e.attempt == 0 then 1 else e.attempt in
    let first = e.execution_id == 0 in
    let attempt' = if first then 1 else attempt in
    record e {
      id = id;
      execution_id = if first then id else e.execution_id;
      attempt = attempt';
      attempts_count = if e.attempts_count == 0 then attempt' else e.attempts_count;
      status = default_status e.status;
      trigger = default_trigger e.trigger;
      source = default_source e.source;
      workspace_id = elim e.workspace_id [ none ↦ some id | some w ↦ some w ];
    }

unfoldable pub inserted : Execution → Row
inserted e = record {
  project_id = e.project_id;
  id = e.id;
  execution_id = e.execution_id;
  attempt = e.attempt;
  workflow = e.workflow;
  ref = e.ref;
  commit_sha = e.commit_sha;
  status = e.status;
  trigger = e.trigger;
  steps = e.steps;
  error = e.error;
  started_at = e.started_at;
  setup_finished_at = e.setup_finished_at;
  finished_at = e.finished_at;
  created_at = e.created_at;
  concurrency_group = e.concurrency_group;
  source = e.source;
  snapshot_id = e.snapshot_id;
  parent_id = elim e.previous_attempt_id [ none ↦ e.parent_id | some p ↦ some p ];
  workspace_id = e.workspace_id;
  created_by = e.created_by;
  check_run_id = e.check_run_id;
  claimed_by = "";
  cancel_requested = false;
}

abbrev pub is_attempt_of : String → ℕ → Row → Bool
is_attempt_of pid eid r = str_eq r.project_id pid && (r.execution_id == eid)

-- A row that refuses a new one: PRIMARY KEY (project_id, id), and the unique index
-- idx_executions_attempt on (project_id, execution_id, attempt).
abbrev pub is_conflict : Row → Row → Bool
is_conflict new r =
    is_at new.project_id new.id r
    || (is_attempt_of new.project_id new.execution_id r && (r.attempt == new.attempt))

-- CreateExecution; `none` is an error, after which the transaction is rolled back.
unfoldable pub create_execution : Db → Execution → Option (Db × Execution)
unfolding numbered inserted
create_execution db e = elim (get e.project_id db.seqs) [
  | none ↦ none
  | some seq ↦
      let e' = numbered e (seq + 1) in
      if any (is_conflict (inserted e')) db.rows
      then none
      else some (
        record { seqs = put e.project_id (seq + 1) db.seqs; rows = db.rows ++ inserted e' ∷ [] },
        e',
      )
]

-- UpdateExecution
unfoldable pub update_execution : Db → Execution → Db
update_execution db e = record db {
  rows =
      update_where (is_at e.project_id e.id)
        (λ r. record r {
          status = e.status;
          steps = e.steps;
          error = e.error;
          started_at = e.started_at;
          setup_finished_at = e.setup_finished_at;
          finished_at = e.finished_at;
          commit_sha = e.commit_sha;
          concurrency_group = e.concurrency_group;
        })
        db.rows;
}

abbrev pub larger : ℕ → ℕ → ℕ
larger a b = if ltb a b then b else a

-- SELECT MAX(a.attempt) FROM executions a WHERE …, 0 if there is none
abbrev pub max_attempt : String → ℕ → List Row → ℕ
max_attempt pid eid [] = 0
max_attempt pid eid (r ∷ rows) =
    let rest = max_attempt pid eid rows in
    if str_eq r.project_id pid && (r.execution_id == eid) then larger r.attempt rest else rest

-- sqliteRawExecutionColumns and scanExecution
unfoldable pub raw_view : List Row → Row → Execution
raw_view rows r =
    let attempt = if r.attempt == 0 then 1 else r.attempt in
    let most = max_attempt r.project_id r.execution_id rows in
    record {
      id = r.id;
      execution_id = r.execution_id;
      attempt = attempt;
      attempts_count = if most == 0 then attempt else most;
      project_id = r.project_id;
      project = "";
      workflow = r.workflow;
      ref = r.ref;
      commit_sha = r.commit_sha;
      status = r.status;
      trigger = r.trigger;
      source = r.source;
      steps = r.steps;
      error = r.error;
      created_at = r.created_at;
      started_at = r.started_at;
      setup_finished_at = r.setup_finished_at;
      finished_at = r.finished_at;
      claimed_by = "";
      cancel_requested = false;
      concurrency_group = r.concurrency_group;
      parent_id = if is_rebuild r.trigger then r.parent_id else none;
      previous_attempt_id = if is_retry r.trigger then r.parent_id else none;
      workspace_id = r.workspace_id;
      snapshot_id = r.snapshot_id;
      check_run_id = r.check_run_id;
      created_by = r.created_by;
    }

-- sqliteJoinedExecutionColumns: `root` is the row of the first attempt.
unfoldable pub joined_view : List Row → Row → Row → Execution
unfolding raw_view
joined_view rows root r =
    let e = raw_view rows r in
    record e {
      trigger = root.trigger;
      created_at = root.created_at;
      parent_id = root.parent_id;
      created_by = root.created_by;
      check_run_id = root.check_run_id;
    }

-- GetAttempt; `none` is ErrNotFound.
unfoldable pub get_attempt : Db → String → ℕ → Option Execution
unfolding raw_view
get_attempt db pid id = elim (find_where (is_at pid id) db.rows) [
  | none ↦ none
  | some r ↦ some (raw_view db.rows r)
]

-- ORDER BY e.attempt DESC LIMIT 1
unfoldable pub latest_row : String → ℕ → List Row → Option Row
latest_row pid eid [] = none
latest_row pid eid (r ∷ rows) =
    let rest = latest_row pid eid rows in
    if is_attempt_of pid eid r
    then elim rest [
      | none ↦ some r
      | some r' ↦ if ltb r.attempt r'.attempt then some r' else some r
    ]
    else rest

-- GetExecutionAttempt; attempt 0 asks for the latest one.
unfoldable pub get_execution_attempt : Db → String → ℕ → ℕ → Option Execution
unfolding joined_view latest_row
get_execution_attempt db pid eid attempt = elim (find_where (is_at pid eid) db.rows) [
  | none ↦ none
  | some root ↦
      elim (if ltb 0 attempt
        then find_where (λ r. is_attempt_of pid eid r && (r.attempt == attempt)) db.rows
        else latest_row pid eid db.rows) [
          | none ↦ none
          | some r ↦ some (joined_view db.rows root r)
        ]
]

-- WHERE status = 'pending' ORDER BY id ASC LIMIT 1. SQL leaves open which of two rows with one id, of different
-- projects, comes first; here it is the older row.
unfoldable pub oldest_pending : List Row → Option Row
oldest_pending [] = none
oldest_pending (r ∷ rows) =
    let rest = oldest_pending rows in
    if is_pending r.status
    then elim rest [ none ↦ some r | some r' ↦ if ltb r'.id r.id then some r' else some r ]
    else rest

-- ClaimPendingExecution at time `now`. The transaction makes it one step.
unfoldable pub claim_pending_execution : Db → String → ℕ → Db × Option Execution
unfolding oldest_pending get_attempt
claim_pending_execution db worker now = elim (oldest_pending db.rows) [
  | none ↦ (db, none)
  | some r ↦
      let db' : Db = record db {
        rows =
            update_where (λ q. is_at r.project_id r.id q && is_pending q.status)
              (λ q. record q {
                status = Status.running;
                claimed_by = worker;
                started_at = some now;
              })
              db.rows;
      } in
      (db', get_attempt db' r.project_id r.id)
]

-- RequeueOrphanedExecutions
unfoldable pub requeue_orphaned_executions : Db → Db
requeue_orphaned_executions db = record db {
  rows =
      update_where (λ r. is_running r.status)
        (λ r. record r { status = Status.pending; claimed_by = "" }) db.rows;
}

-- SetCancelRequested
unfoldable pub set_cancel_requested : Db → String → ℕ → Db
set_cancel_requested db pid id = record db {
  rows = update_where (is_at pid id) (λ r. record r { cancel_requested = true }) db.rows;
}

-- IsCancelRequested
unfoldable pub is_cancel_requested : Db → String → ℕ → Option Bool
is_cancel_requested db pid id = elim (find_where (is_at pid id) db.rows) [
  | none ↦ none
  | some r ↦ some r.cancel_requested
]

-- CountPendingExecutions
unfoldable pub count_pending_executions : Db → ℕ
count_pending_executions db = count_where (λ r. is_pending r.status) db.rows

-- CancelRunningInGroup
unfoldable pub cancel_running_in_group : Db → String → String → ℕ → Db
cancel_running_in_group db pid group exclude = record db {
  rows =
      update_where
        (λ r.
          str_eq r.project_id pid
          && (str_eq r.concurrency_group group && (is_running r.status && not (r.id == exclude))))
        (λ r. record r { cancel_requested = true }) db.rows;
}

abbrev pub uses_workspace : String → ℕ → Row → Bool
uses_workspace pid w r =
    str_eq r.project_id pid && elim r.workspace_id [ none ↦ false | some v ↦ v == w ]

-- WorkspaceBusy
unfoldable pub workspace_busy : Db → String → ℕ → Bool
workspace_busy db pid w = ltb 0 (
    count_where (λ r. uses_workspace pid w r && (is_pending r.status || is_running r.status))
      db.rows)

-- WorkspaceRetained
unfoldable pub workspace_retained : Db → String → ℕ → ℕ → Bool
workspace_retained db pid w cutoff = ltb 0 (
    count_where
      (λ r.
        uses_workspace pid w r
        && (is_pending r.status
            || is_running r.status
            || elim r.finished_at [ none ↦ true | some t ↦ leb cutoff t ]))
      db.rows)

-- SetCheckRunID
unfoldable pub set_check_run_id : Db → String → ℕ → ℕ → Db
set_check_run_id db pid id check_run_id = record db {
  rows = update_where (is_at pid id) (λ r. record r { check_run_id = check_run_id }) db.rows;
}
