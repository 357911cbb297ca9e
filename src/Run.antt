-- ===== src/Run.antt =====
-- Runner.run of internal/ci/runner.go: one execution from its claim to its end.
pub mod Underway
pub mod Prepared
pub mod Finishes
pub mod Ends
pub mod Success
use pici.Base.{
  ℕ, zero, suc, ◌+◌, ◌-◌, ◌*◌, ◌≤◌, ◌<◌, String, ◌≡◌, refl, sym, ap, ◌∙◌, ◌≢◌, ◌↔◌, ◌⊎◌, inl, inr,
  Bool, true, false, not, ◌&&◌, ◌||◌, Option, none, some, List, [], ◌∷◌, ◌++◌, map, arith, eq_iff,
  ltb, leb, ◌==◌, str_eq, if◌then◌else◌, ==_iff, Bool-cases, Option-cases, length, get_elem?, any,
  all, drop, take, All, length-append, Text, codes, has_prefix, contains, ℤ, pos, negsuc, decrement,
  increment, is_zero, is_negative, is_positive, Dict, get, get_or, put, get_or-put, get-put, count,
  count-append, length-le_of_count, count-eq_of_length,
}
use pici.Records.{
  Status, Trigger, Source, StepStatus, StepResult, Project, Execution, bare_result, is_retry,
}
use pici.Config.{Config, Step}
use pici.Config.Parse.{Fields, Parsed, ParseError, ok, err, parse}
use pici.Config.Triggers.{matches_manual, effective_schedule}
use pici.Steps.{OrderError, OrderResult, order_steps}
use pici.Steps
use pici.Executor
use pici.Executor.{State, Event, Progress, is_carried, start}
use pici.Store.{Db, update_execution, get_attempt, cancel_running_in_group}
use pici.Runner.{carry_over_steps, step_error, workspace_of}

-- What an execution meets outside of this code, with `none` for the absence of an error: the row of
-- the project, the log directory, the container engine, the clone, the snapshot's archive, go-git,
-- the file system, the YAML decoders, Docker, and the clock. `events` is the schedule of the
-- goroutines that run the steps, and `stopped` tells whether the context is canceled at the end.
-- The texts are those of errors and of fmt.Sprintf.
pub record Outside : Type 0 where
  pub project : String ⊎ Project
  pub log_error : Option String
  pub has_engine : Bool
  pub repo_error : ℕ → Option String
  pub clone : (ref : String) → Option String
  pub unpack : (snapshot : String) → Option String
  pub head_sha : String
  pub read_config : (workflow : String) → String ⊎ Text
  pub unmarshal_root : Text → Option Fields
  pub unmarshal_config : Text → Parsed Config
  pub is_tag : (ref : String) → Bool
  pub glob : String → String → Option Bool
  pub has_registry : Bool
  pub ensures_registry : Bool
  pub build : Option String
  pub push : Option String
  pub create_sandbox : Option String
  pub dial : Option String
  pub pull : Option String
  pub events : List Event
  pub stopped : Bool
  pub parse_text : ParseError → String
  pub order_text : OrderError → String
  pub manual_text : (workflow ref : String) → String
  pub fail_text : (step error : String) → String
  pub now : ℕ

-- What is done beside the table of executions.
pub data Effect : Type 0 where
  synced_schedule : (cron : String) → Effect
  started : Effect
  built pushed : Effect
  sandbox_created client_opened client_closed sandbox_removed : Effect
  finished : Status → (summary : String) → Effect
  removed_snapshot : (snapshot : String) → Effect

-- The variables of `run`.
pub record RunState : Type 0 where
  pub db : Db
  pub exec : Execution
  pub effects : List Effect

-- A stage of `run` goes on, or ends in `finish` with StatusFailed and an error.
pub data Stage (A : Type 0) : Type 0 where
  next : A → Stage A
  stop : RunState → String → Stage A

infixl 5 ◌>>=◌
abbrev pub ◌>>=◌ : {A B : Type 0} → Stage A → (A → Stage B) → Stage B
next a >>= f = f a
stop st message >>= f = stop st message

abbrev pub check : RunState → Option String → Stage RunState
check st none = next st
check st (some message) = stop st message

-- `_ = r.Store.UpdateExecution(ctx, exec)`
abbrev pub saved : RunState → Execution → RunState
saved st exec = record st { db = update_execution st.db exec; exec = exec }

abbrev pub did : RunState → Effect → RunState
did st e = record st { effects = st.effects ++ e ∷ [] }

abbrev pub is_snapshot : Source → Bool
is_snapshot Source.snapshot = true
is_snapshot _ = false

abbrev pub is_manual : Trigger → Bool
is_manual Trigger.manual = true
is_manual _ = false

-- Runner.materializeSource
unfoldable pub materialize_source : Outside → Execution → Option String
materialize_source out exec =
    if not (is_snapshot exec.source)
    then out.clone (if str_eq exec.commit_sha "" then exec.ref else exec.commit_sha)
    else elim exec.snapshot_id [
      | none ↦ some "snapshot execution is missing its snapshot id"
      | some snapshot ↦ out.unpack snapshot
    ]

-- The directory of the repository: that of the first attempt on a retry, else a new one.
unfoldable pub prepare_source : Outside → RunState → Stage RunState
unfolding materialize_source
prepare_source out st =
    if is_retry st.exec.trigger
    then check st (out.repo_error (workspace_of st.exec))
    else check st (materialize_source out st.exec)

-- The filter for manual runs.
abbrev pub is_refused : Outside → Execution → Config → Bool
is_refused out exec cfg =
    is_manual exec.trigger
    && not (
        matches_manual out.glob cfg exec.ref (not (is_snapshot exec.source) && out.is_tag exec.ref))

abbrev pub with_config : Outside → RunState → Parsed Config → Stage (RunState × Config)
with_config out st (err e) = stop st (out.parse_text e)
with_config out st (ok cfg) =
    if is_refused out st.exec cfg
    then stop st (out.manual_text st.exec.workflow st.exec.ref)
    else next (st, cfg)

abbrev pub with_content : Outside → RunState → String ⊎ Text → Stage (RunState × Config)
with_content out st (inl message) = stop st message
with_content out st (inr content) =
    with_config out st (parse out.unmarshal_root out.unmarshal_config content)

-- The commit, ci.yml, and the filter for manual runs.
unfoldable pub read_workflow : Outside → RunState → Stage (RunState × Config)
read_workflow out st =
    with_content out (saved st (record st.exec { commit_sha = out.head_sha }))
      (out.read_config st.exec.workflow)

abbrev pub carried_of : Option Execution → Dict StepResult
carried_of none = []
carried_of (some parent) = carry_over_steps parent.steps

abbrev pub carried_from : Db → String → Option ℕ → Dict StepResult
carried_from db pid none = []
carried_from db pid (some id) = carried_of (get_attempt db pid id)

-- What a retry carries over from the attempt before it.
unfoldable pub carried : RunState → Dict StepResult
carried st =
    if is_retry st.exec.trigger
    then carried_from st.db st.exec.project_id st.exec.previous_attempt_id
    else []

-- The steps as they are planned, in their order.
abbrev pub planned : Dict StepResult → List String → List StepResult
planned carry [] = []
planned carry (n ∷ order) =
    elim (get n carry) [ none ↦ bare_result n StepStatus.pending | some res ↦ res ]
    ∷ planned carry order

-- The steps of the plan, if there is one.
abbrev pub planned_as : Dict StepResult → RunState → OrderResult (List String) → RunState
planned_as carry st (Steps.err e) = st
planned_as carry st (Steps.ok order) = saved st (record st.exec { steps = planned carry order })

unfoldable pub plan_steps : Config → Dict StepResult → RunState → RunState
plan_steps cfg carry st = planned_as carry st (order_steps cfg.steps)

-- The schedule of the workflow.
unfoldable pub plan_schedule : Config → RunState → RunState
plan_schedule cfg st =
    if is_snapshot st.exec.source then st else did st (synced_schedule (effective_schedule cfg))

-- The concurrency group: the other running executions of it are asked to stop.
unfoldable pub join_group : Config → RunState → RunState
join_group cfg st =
    if str_eq cfg.concurrency ""
    then st
    else let grouped = saved st (record st.exec { concurrency_group = cfg.concurrency }) in
      record grouped {
        db = cancel_running_in_group grouped.db st.exec.project_id cfg.concurrency st.exec.id;
      }

unfoldable pub plan : Config → Dict StepResult → RunState → RunState
unfolding plan_steps plan_schedule join_group
plan cfg carry st = did (join_group cfg (plan_schedule cfg (plan_steps cfg carry st))) started

-- workflowNeedsSandbox
unfoldable pub workflow_needs_sandbox : Config → Bool
workflow_needs_sandbox cfg = any (λ (s : Step). s.docker) cfg.steps

-- The push of the image to the registry of the sandbox.
abbrev pub push_image : Outside → RunState → Stage RunState
push_image out st = do st1 ← check st out.push; next (did st1 pushed)

-- The image of the steps.
unfoldable pub build_image : Outside → Config → RunState → Stage RunState
unfolding workflow_needs_sandbox
build_image out cfg st =
    let sandboxed = workflow_needs_sandbox cfg in
    let registry = out.has_registry || out.ensures_registry in
    if not (str_eq cfg.image "")
    then next st
    else if sandboxed && not registry
    then stop st "docker sandbox unavailable: image registry is not configured"
    else do
      st1 ← check st out.build
      let st2 = did st1 built
      if sandboxed then push_image out st2 else next st2

-- What startSandbox does once CreateSandbox has succeeded: Dial and Pull, after which it cleans up if
-- they fail.
abbrev pub pull_image : RunState → Option String → Stage RunState
pull_image st none = next st
pull_image st (some message) = stop (did (did st client_closed) sandbox_removed) message

abbrev pub dial_sandbox : Outside → RunState → Option String → Stage RunState
dial_sandbox out st (some message) = stop (did st sandbox_removed) message
dial_sandbox out st none = pull_image (did st client_opened) out.pull

-- startSandbox
unfoldable pub start_sandbox : Outside → Config → RunState → Stage RunState
unfolding workflow_needs_sandbox
start_sandbox out cfg st =
    if not (workflow_needs_sandbox cfg)
    then next st
    else if not (out.has_registry || out.ensures_registry)
    then stop st "image registry is not running"
    else do st1 ← check st out.create_sandbox; dial_sandbox out (did st1 sandbox_created) out.dial

-- What executeSteps returns, and the snapshots that it hands to onUpdate.
pub record Executed : Type 0 where
  pub steps : List StepResult
  pub is_failed : Bool
  pub is_canceled : Bool
  pub updates : List Progress

-- `out[i] = results[pos[n]]`
abbrev pub results_of : Dict StepResult → List String → List StepResult
results_of results [] = []
results_of results (n ∷ order) =
    get_or n (bare_result "" StepStatus.unset) results ∷ results_of results order

abbrev pub executed_as : Outside → Config → Dict StepResult → OrderResult (List String) → Executed
executed_as out cfg carry (Steps.err e) = record {
  steps = record (bare_result "workflow" StepStatus.failed) { error = out.order_text e } ∷ [];
  is_failed = true;
  is_canceled = false;
  updates = [];
}
executed_as out cfg carry (Steps.ok order) =
    let s = Executor.run cfg.steps (is_carried carry) (start cfg.steps order carry) out.events in
    record {
      steps = results_of s.results order;
      is_failed = s.failed;
      is_canceled = s.canceled;
      updates = s.updates;
    }

unfoldable pub execute_steps : Outside → Config → Dict StepResult → Executed
execute_steps out cfg carry = executed_as out cfg carry (order_steps cfg.steps)

abbrev pub results_in : Progress → List StepResult
results_in [] = []
results_in ((n, res) ∷ progress) = res ∷ results_in progress

-- onStepUpdate for each snapshot: the table after them.
unfoldable pub persist_updates : Execution → List Progress → Db → Db
persist_updates base [] db = db
persist_updates base (p ∷ updates) db =
    persist_updates base updates (update_execution db (record base { steps = results_in p }))

abbrev pub or_now : ℕ → Option ℕ → Option ℕ
or_now now none = some now
or_now now (some t) = some t

-- The execution as `finish` stores it.
abbrev pub ended : ℕ → (with_log : Bool) → Execution → Status → List StepResult → String → Execution
ended now with_log exec status steps message =
    let finished_at = or_now now exec.finished_at in
    record exec {
      status = status;
      steps = steps;
      error = message;
      finished_at = finished_at;
      setup_finished_at = elim exec.setup_finished_at [
        | none ↦ if with_log then finished_at else none
        | some t ↦ some t
      ];
    }

abbrev pub reported : (with_log : Bool) → RunState → Status → String → RunState
reported false st status message = st
reported true st status message = did st (finished status message)

abbrev pub snapshot_of : Execution → Option String
snapshot_of exec = if is_snapshot exec.source then exec.snapshot_id else none

abbrev pub drop_snapshot : RunState → Option String → RunState
drop_snapshot st none = st
drop_snapshot st (some snapshot) = did st (removed_snapshot snapshot)

-- Runner.finish. Without a setup log it is called by `fail`, whose reporter does nothing.
unfoldable pub finish :
    ℕ → (with_log : Bool) → RunState → Status → List StepResult → String → RunState
finish now with_log st status steps message =
    drop_snapshot
      (reported with_log (saved st (ended now with_log st.exec status steps message)) status
        message)
      (snapshot_of st.exec)

-- The status of an execution whose steps have run.
abbrev pub verdict : (is_canceled is_failed : Bool) → Status
verdict true failed = Status.canceled
verdict false true = Status.failed
verdict false false = Status.success

abbrev pub fail_text_of : Outside → Option (String × String) → String
fail_text_of out none = ""
fail_text_of out (some (step, message)) = out.fail_text step message

-- The state when the steps have run.
abbrev pub with_steps : Outside → RunState → Executed → RunState
with_steps out st done =
    let base : Execution = record st.exec { setup_finished_at = some out.now } in
    record st {
      db = persist_updates base done.updates st.db;
      exec = record base {
        steps = done.steps;
        error = fail_text_of out (step_error done.steps);
        finished_at = some out.now;
      };
    }

-- `defer r.stopSandbox(sb)`: the client is closed and the sandbox removed.
abbrev pub close_sandbox : (sandboxed : Bool) → RunState → RunState
close_sandbox false st = st
close_sandbox true st = did (did st client_closed) sandbox_removed

-- Whether executeSteps has got past wg.Wait: its loop and all of its goroutines have ended.
abbrev pub has_waited : Outside → Config → Dict StepResult → OrderResult (List String) → Bool
has_waited out cfg carry (Steps.err e) = true
has_waited out cfg carry (Steps.ok order) =
    Executor.is_quiet
      (Executor.run cfg.steps (is_carried carry) (start cfg.steps order carry) out.events)

-- The stages after the sandbox is up, once executeSteps has returned: the execution ends with what the
-- steps have come to.
unfoldable pub execute : Outside → Config → Dict StepResult → RunState → RunState
unfolding execute_steps persist_updates finish
execute out cfg carry st =
    let done = execute_steps out cfg carry in
    close_sandbox (workflow_needs_sandbox cfg) (
      finish out.now true (with_steps out st done)
        (verdict (done.is_canceled || out.stopped) done.is_failed) done.steps
        (fail_text_of out (step_error done.steps)))

-- The stages that can fail.
unfoldable pub set_up : Outside → RunState → Stage (RunState × (Config × Dict StepResult))
unfolding prepare_source read_workflow carried plan build_image start_sandbox
set_up out st = do
  st0 ← check st (if out.has_engine then none else some "container engine is unavailable")
  st1 ← prepare_source out st0
  (st2, cfg) ← read_workflow out st1
  let carry = carried st2
  st3 ← build_image out cfg (plan cfg carry st2)
  st4 ← start_sandbox out cfg st3
  next (st4, (cfg, carry))

-- The end of `run`, after a stage that failed or with the steps; `none` while goroutines of the steps
-- are still under way when the events are over.
abbrev pub conclude : Outside → Stage (RunState × (Config × Dict StepResult)) → Option RunState
conclude out (stop st message) = some (finish out.now true st Status.failed [] message)
conclude out (next (st, (cfg, carry))) =
    if has_waited out cfg carry (order_steps cfg.steps)
    then some (execute out cfg carry st)
    else none

-- `run` after the log directory has been made.
abbrev pub run_logged : Outside → RunState → Option String → Option RunState
run_logged out st (some message) = some (finish out.now false st Status.failed [] message)
run_logged out st none = conclude out (set_up out st)

abbrev pub run_project : Outside → RunState → String ⊎ Project → Option RunState
run_project out st (inl message) = some (finish out.now false st Status.failed [] message)
run_project out st (inr project) =
    run_logged out (saved st (record st.exec { status = Status.running })) out.log_error

-- Runner.run
unfoldable pub run : Outside → Db → Execution → Option RunState
run out db exec = run_project out (record { db = db; exec = exec; effects = [] }) out.project
