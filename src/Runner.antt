-- ===== src/Runner.antt =====
-- internal/ci/runner.go: the queue of executions, and what a retry carries over.
pub mod Latest
pub mod Retry
pub mod First
use pici.Base.{
  ℕ, zero, suc, ◌+◌, ◌-◌, ◌*◌, ◌≤◌, ◌<◌, String, ◌≡◌, refl, sym, ap, ◌∙◌, ◌≢◌, ◌↔◌, ◌⊎◌, inl, inr,
  Bool, true, false, not, ◌&&◌, ◌||◌, Option, none, some, List, [], ◌∷◌, ◌++◌, map, arith, eq_iff,
  ltb, leb, ◌==◌, str_eq, if◌then◌else◌, ==_iff, Bool-cases, Option-cases, length, get_elem?, any,
  all, drop, take, All, length-append, Text, codes, has_prefix, contains, ℤ, pos, negsuc, decrement,
  increment, is_zero, is_negative, is_positive, Dict, get, get_or, put, get_or-put, get-put, count,
  count-append, length-le_of_count, count-eq_of_length,
}
use pici.Records.{
  Status, Trigger, Source, StepStatus, StepResult, Project, Execution, is_pending, is_running,
  is_success, is_failed, is_skipped, is_retry, is_rebuild,
}
use pici.Store.{
  Row, Db, is_at, update_where, find_where, count_where, numbered, inserted, default_status,
  create_execution, update_execution, raw_view, joined_view, get_attempt, is_attempt_of,
  is_conflict, latest_row, get_execution_attempt, claim_pending_execution, set_cancel_requested,
  uses_workspace, workspace_busy, workspace_retained,
}

-- The zero value of stores.Execution.
abbrev pub empty_execution : Execution
empty_execution = record {
  id = 0;
  execution_id = 0;
  attempt = 0;
  attempts_count = 0;
  project_id = "";
  project = "";
  workflow = "";
  ref = "";
  commit_sha = "";
  status = Status.unset;
  trigger = Trigger.unset;
  source = Source.unset;
  steps = [];
  error = "";
  created_at = 0;
  started_at = none;
  setup_finished_at = none;
  finished_at = none;
  claimed_by = "";
  cancel_requested = false;
  concurrency_group = "";
  parent_id = none;
  previous_attempt_id = none;
  workspace_id = none;
  snapshot_id = none;
  check_run_id = 0;
  created_by = none;
}

-- The errors of the queue. `not_latest` to `nothing_to_retry`, and `busy`, wrap ErrNotRetryable, and
-- `workspace_gone` wraps ErrWorkspaceGone.
pub data QueueError : Type 0 where
  not_found not_created : QueueError
  not_latest from_snapshot not_failed nothing_to_retry busy : QueueError
  workspace_gone : QueueError

pub data Queued : Type 0 where
  refused : QueueError → Queued
  queued : Db → Execution → Queued

-- Runner.enqueue
unfoldable pub enqueue : Db → Execution → Queued
enqueue db exec =
    let exec' : Execution = record exec { status = default_status exec.status } in
    elim (create_execution db exec') [
      | none ↦ refused QueueError.not_created
      | some (db', e) ↦ queued db' e
    ]

-- The execution that Enqueue queues.
abbrev pub git_execution :
    Project → (workflow ref commit_sha : String) → Trigger → ℕ → Option String → Execution
git_execution project workflow ref commit_sha trigger now created_by = record empty_execution {
  project_id = project.id;
  project = project.name;
  workflow = workflow;
  ref = ref;
  commit_sha = commit_sha;
  trigger = trigger;
  source = Source.git;
  created_at = now;
  created_by = created_by;
}

-- Runner.Enqueue
unfoldable pub enqueue_git :
    Db → Project → (workflow ref commit_sha : String) → Trigger → ℕ → Option String → Queued
unfolding enqueue
enqueue_git db project workflow ref commit_sha trigger now created_by =
    enqueue db (git_execution project workflow ref commit_sha trigger now created_by)

-- Runner.EnqueueSnapshot
unfoldable pub enqueue_snapshot :
    Db → Project → (workflow ref commit_sha snapshot_id : String) → ℕ → Option String → Queued
unfolding enqueue
enqueue_snapshot db project workflow ref commit_sha snapshot_id now created_by =
    enqueue db (record empty_execution {
      project_id = project.id;
      project = project.name;
      workflow = workflow;
      ref = ref;
      commit_sha = commit_sha;
      trigger = Trigger.manual;
      source = Source.snapshot;
      snapshot_id = some snapshot_id;
      created_at = now;
      created_by = created_by;
    })

-- Runner.EnqueueRebuild
unfoldable pub enqueue_rebuild : Db → Project → Execution → ℕ → Option String → Queued
unfolding enqueue
enqueue_rebuild db project previous now created_by = enqueue db (record empty_execution {
  project_id = project.id;
  project = project.name;
  workflow = previous.workflow;
  ref = previous.ref;
  commit_sha = previous.commit_sha;
  trigger = Trigger.rebuild;
  source = Source.git;
  parent_id = some previous.execution_id;
  created_at = now;
  created_by = created_by;
})

-- hasRetryableSteps
unfoldable pub has_retryable_steps : List StepResult → Bool
has_retryable_steps [] = false
has_retryable_steps (s ∷ steps) =
    if is_failed s.status || is_skipped s.status then true else has_retryable_steps steps

abbrev pub is_git : Source → Bool
is_git Source.git = true
is_git _ = false

abbrev pub is_failed_run : Status → Bool
is_failed_run Status.failed = true
is_failed_run _ = false

abbrev pub workspace_of : Execution → ℕ
workspace_of e = elim e.workspace_id [ none ↦ e.id | some w ↦ w ]

-- The execution that EnqueueRetry queues.
abbrev pub next_attempt : Project → Execution → ℕ → Option String → Execution
next_attempt project previous now created_by = record empty_execution {
  project_id = project.id;
  project = project.name;
  execution_id = previous.execution_id;
  attempt = previous.attempt + 1;
  workflow = previous.workflow;
  ref = previous.ref;
  commit_sha = previous.commit_sha;
  trigger = Trigger.retry;
  source = Source.git;
  previous_attempt_id = some previous.id;
  workspace_id = some (workspace_of previous);
  created_at = now;
  created_by = created_by;
}

-- The checks of EnqueueRetry on the latest attempt, in their order. `has_dir` tells whether the
-- directory of a workspace exists.
unfoldable pub retry_error :
    (String → ℕ → Bool) → Db → Project → Execution → Execution → Option QueueError
unfolding has_retryable_steps
retry_error has_dir db project previous latest =
    if not (latest.id == previous.id)
    then some QueueError.not_latest
    else if not (is_git latest.source)
    then some QueueError.from_snapshot
    else if not (is_failed_run latest.status)
    then some QueueError.not_failed
    else if not (has_retryable_steps latest.steps)
    then some QueueError.nothing_to_retry
    else if not (has_dir project.id (workspace_of latest))
    then some QueueError.workspace_gone
    else if workspace_busy db project.id (workspace_of latest)
    then some QueueError.busy
    else none

-- Runner.EnqueueRetry
unfoldable pub enqueue_retry :
    (String → ℕ → Bool) → Db → Project → Execution → ℕ → Option String → Queued
unfolding enqueue retry_error
enqueue_retry has_dir db project previous now created_by =
    elim (get_execution_attempt db project.id previous.execution_id 0) [
      | none ↦ refused QueueError.not_found
      | some latest ↦ elim (retry_error has_dir db project previous latest) [
        | some err ↦ refused err
        | none ↦ enqueue db (next_attempt project latest now created_by)
      ]
    ]

-- carryOverSteps
unfoldable pub carry_from : List StepResult → Dict StepResult → Dict StepResult
carry_from [] out = out
carry_from (s ∷ steps) out =
    carry_from steps (if is_success s.status then put s.name s out else out)

unfoldable pub carry_over_steps : List StepResult → Dict StepResult
unfolding carry_from
carry_over_steps steps = carry_from steps []

-- stepError: the first failed step and its error, of which the source makes one text.
unfoldable pub step_error : List StepResult → Option (String × String)
step_error [] = none
step_error (s ∷ steps) = if is_failed s.status then some (s.name, s.error) else step_error steps
