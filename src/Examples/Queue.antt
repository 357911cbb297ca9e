-- ===== src/Examples/Queue.antt =====
-- A table of two executions.
use pici.Base.{
  ℕ, ◌+◌, ◌-◌, String, ◌≡◌, refl, ◌⊎◌, Bool, true, false, none, some, List, [], ◌∷◌, arith, str_eq,
  if◌then◌else◌, any, get, get_or,
}
use pici.Records.{Status, Trigger, StepStatus, Provider, AuthType, Project, Execution, bare_result}
use pici.Store.{
  Row, Db, is_at, raw_view, joined_view, numbered, inserted, create_execution,
  claim_pending_execution, count_pending_executions, get_execution_attempt, latest_row,
  workspace_busy,
}
use pici.Store.Keys.{Op, create, claim, requeue, IsValid, apply_all, apply_all-IsValid}
use pici.Store.Claim.{IsClaim, claim_pending_execution-IsClaim, count-claim_pending_execution}
use pici.Runner.{
  QueueError, Queued, refused, queued, enqueue, empty_execution, git_execution, enqueue_retry,
  retry_error, has_retryable_steps,
}
use pici.Runner.Retry.{enqueue_retry-once}
use pici.Store.{is_cancel_requested}
use pici.Gc.{ProjectDir, Disk, cleanup_workspaces}
use pici.Gc.Spares.{holds, cleanup_workspaces-spares}
use pici.Executions.{err, ok, not_found, cancel}
use pici.Executions.Cancels.{is_key, IsAbsent, cancel-requested}
use pici.Runner.Latest.{IsLatest}

abbrev project : Project
project = record {
  id = "p";
  name = "demo";
  repo_url = "https://example.com/demo";
  provider = Provider.generic;
  auth_type = AuthType.none;
  auth_user = "";
  auth_secret = "";
  webhook_secret = "s3cret";
  default_branch = "main";
}

-- An execution of which a step has failed.
abbrev failed_run : Execution
failed_run = record empty_execution {
  project_id = "p";
  status = Status.failed;
  steps = bare_result "test" StepStatus.failed ∷ [];
}

abbrev after_one : Db
after_one = record { seqs = ("p", 1) ∷ []; rows = inserted (numbered failed_run 1) ∷ [] }

abbrev previous : Execution
previous = numbered failed_run 1

-- A second execution, which waits.
abbrev waiting_run : Execution
waiting_run = git_execution project "ci" "main" "" Trigger.manual 7 none

abbrev after_two : Db
after_two = record {
  seqs = ("p", 2) ∷ [];
  rows = inserted (numbered failed_run 1) ∷ inserted (numbered waiting_run 2) ∷ [];
}

after_one-IsValid : IsValid after_one
unfolding inserted numbered get_or
after_one-IsValid = record { keys = refl; ids = refl }

after_two-IsValid : IsValid after_two
unfolding inserted numbered get_or
after_two-IsValid = record { keys = refl; ids = refl }

abbrev ops : List Op
ops = create waiting_run ∷ claim "w" 9 ∷ requeue ∷ []

apply_all-IsValid_example :
    IsValid (apply_all after_one ops)
    × (any
          (is_at "p" (get_or "p" 0 (apply_all after_one ops).seqs + 1))
          (apply_all after_one ops).rows
        ≡ false)
apply_all-IsValid_example = apply_all-IsValid ops after_one "p" after_one-IsValid

claim_pending_execution-IsClaim_example :
    IsClaim after_two 9 (claim_pending_execution after_two "w" 9).1
claim_pending_execution-IsClaim_example =
    claim_pending_execution-IsClaim after_two "w" 9 after_two-IsValid

count-claim_pending_execution_example :
    count_pending_executions (claim_pending_execution after_two "w" 9).0
    ≡ count_pending_executions after_two - 1
count-claim_pending_execution_example =
    count-claim_pending_execution after_two "w" 9 after_two-IsValid

pending_before : count_pending_executions after_two ≡ 1
unfolding count_pending_executions inserted numbered
pending_before = refl

abbrev has_dir : String → ℕ → Bool
has_dir pid w = true

abbrev queued_or : Db → Queued → Db × Execution
queued_or db (queued db' e) = (db', e)
queued_or db (refused e) = (db, empty_execution)

abbrev first_retry : Db × Execution
first_retry = queued_or after_one (enqueue_retry has_dir after_one project previous 20 none)

retry_queues :
    enqueue_retry has_dir after_one project previous 20 none ≡ queued first_retry.0 first_retry.1
unfolding enqueue_retry get_execution_attempt joined_view raw_view latest_row retry_error
    has_retryable_steps workspace_busy enqueue create_execution inserted numbered get
retry_queues = refl

enqueue_retry-once_example :
    enqueue_retry has_dir first_retry.0 project previous 21 none ≡ refused QueueError.not_latest
unfolding numbered
enqueue_retry-once_example =
    enqueue_retry-once has_dir after_one first_retry.0 project previous first_retry.1 20 21 none
      none after_one-IsValid (omega arith) retry_queues

cancel-requested_example :
    ((cancel after_two "p" 2 ≡ err not_found) × IsAbsent "p" 2 after_two.rows)
    ⊎ ((r : Row) × IsLatest "p" 2 after_two.rows (some r)
        × ((db' : Db) × (cancel after_two "p" 2 ≡ ok (db', ("p", r.id)))
            × (is_cancel_requested db' "p" 1 ≡ (
                if is_key "p" r.id "p" 1 then some true else is_cancel_requested after_two "p" 1))))
cancel-requested_example = cancel-requested after_two "p" 2 "p" 1

abbrev disk : Disk
disk = record {
  parse_uuid = λ s. some s;
  parse_int = λ s. if str_eq s "2" then some 2 else none;
  older_than = λ dir name. true;
  retained_fails = λ pid id. false;
}

abbrev dirs : List ProjectDir
dirs =
    record {
      name = "p";
      is_dir = true;
      entries =
          some
            (record { name = "stray"; is_dir = true } ∷ record { name = "2"; is_dir = true } ∷ []);
    }
    ∷ []

workspace_2_busy : workspace_busy after_two "p" 2 ≡ true
unfolding workspace_busy inserted numbered
workspace_2_busy = refl

cleanup_workspaces-spares_example :
    any (holds "p" "2") (cleanup_workspaces disk after_two 99 dirs) ≡ true
cleanup_workspaces-spares_example =
    cleanup_workspaces-spares disk after_two "p" "p" "2" 99 2 dirs refl refl refl refl
      workspace_2_busy refl
