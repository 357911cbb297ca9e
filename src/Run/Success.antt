-- ===== src/Run/Success.antt =====
-- What it takes for a run to end in success.
use pici.Base.{
  ℕ, ◌≤◌, String, ◌≡◌, refl, sym, ap, ◌∙◌, inl, inr, Bool, true, false, ◌||◌, Option, none, some,
  List, [], ◌∷◌, arith, eq_iff, Bool-cases, All, Dict, put, count,
}
use pici.Records.{Status, StepResult, Execution, is_retry}
use pici.Config.{Config}
use pici.Steps.{OrderResult, order_steps}
use pici.Steps
use pici.Executor.{Progress}
use pici.Store.{Db}
use pici.Runner.{step_error}
use pici.Run.{
  Outside, RunState, carried_of, carried_from, carried, results_of, workflow_needs_sandbox,
  executed_as, execute_steps, finish, verdict, fail_text_of, with_steps, close_sandbox, execute,
}
use pici.Run.Underway.{either}
use pici.Config.{Step, step_names}
use pici.Steps.{is_known}
use pici.Steps.Order.Edges.{nodup, known_iff_count}
use pici.Steps.Order.Sound.{order_steps_sound}
use pici.Records.{is_success}
use pici.Executor
use pici.Executor.{State, is_carried, carried_status, start, is_quiet}
use pici.Executor.Success.{status_in, only_successes, quiet_all_success}
use pici.Runner.{carry_from, carry_over_steps}
use pici.Store.{get_attempt}
use pici.Run.Finishes.{finish-exec}

abbrev pub is_successful : Status → Bool
is_successful Status.success = true
is_successful _ = false

only_successes-put :
    (n : String) (res : StepResult) (carry : Dict StepResult)
    → is_success res.status ≡ true
    → only_successes carry ≡ true
    → only_successes (put n res carry) ≡ true
unfolding put
only_successes-put n res [] s o = ground arith
only_successes-put n res ((k, r) ∷ carry) s o = ground (arith, only_successes-put n res carry s)

only_successes-carry_from :
    (steps : List StepResult) (out : Dict StepResult)
    → only_successes out ≡ true
    → only_successes (carry_from steps out) ≡ true
unfolding carry_from
only_successes-carry_from [] out o = o
only_successes-carry_from (s ∷ steps) out o = elim (Bool-cases (is_success s.status)) [
  | inl e ↦
      rw e
        (only_successes-carry_from steps (put s.name s out) (only_successes-put s.name s out e o))
  | inr e ↦ rw e (only_successes-carry_from steps out o)
]

carried_of-only_successes : (parent : Option Execution) → only_successes (carried_of parent) ≡ true
unfolding carry_over_steps
carried_of-only_successes none = refl
carried_of-only_successes (some parent) = only_successes-carry_from parent.steps [] refl

carried_from-only_successes :
    (db : Db) (pid : String) (id : Option ℕ) → only_successes (carried_from db pid id) ≡ true
carried_from-only_successes db pid none = refl
carried_from-only_successes db pid (some id) = carried_of-only_successes (get_attempt db pid id)

-- What a run carries over are successes.
carried-only_successes : (st : RunState) → only_successes (carried st) ≡ true
unfolding carried
carried-only_successes st =
    either (λ c. only_successes c ≡ true) (is_retry st.exec.trigger) _ []
      (carried_from-only_successes st.db st.exec.project_id st.exec.previous_attempt_id) refl

results_of-success :
    (steps : List Step) (results : Dict StepResult) (order : List String)
    → ((m : String) → 1 ≤ count m order → is_known steps m ≡ true)
    → ((m : String) → is_known steps m ≡ true → is_success (status_in results m) ≡ true)
    → All (λ res. is_success res.status ≡ true) (results_of results order)
results_of-success steps results [] k h = tt
results_of-success steps results (n ∷ order) k h = (
  h n (k n (ground (arith, eq_iff n n))),
  results_of-success steps results order (λ m e. k m (omega (arith, e))) h,
)

verdict-success : (c f : Bool) → is_successful (verdict c f) ≡ true → (c ≡ false) × (f ≡ false)
verdict-success false false e = (refl, refl)
verdict-success false true e = cc
verdict-success true f e = cc

close_sandbox-exec :
    (sandboxed : Bool) (st : RunState) → (close_sandbox sandboxed st).exec ≡ st.exec
close_sandbox-exec false st = refl
close_sandbox-exec true st = refl

execute-exec :
    (out : Outside) (cfg : Config) (carry : Dict StepResult) (st : RunState)
    → let done = execute_steps out cfg carry in
      ((execute out cfg carry st).exec.status
        ≡ verdict (done.is_canceled || out.stopped) done.is_failed)
      × ((execute out cfg carry st).exec.steps ≡ done.steps)
unfolding execute
execute-exec out cfg carry st =
    let done = execute_steps out cfg carry in
    let st1 = with_steps out st done in
    let status = verdict (done.is_canceled || out.stopped) done.is_failed in
    let message = fail_text_of out (step_error done.steps) in
    let st2 = finish out.now true st1 status done.steps message in
    let e =
      close_sandbox-exec (workflow_needs_sandbox cfg) st2
      ∙ finish-exec out.now true st1 status done.steps message in
    (ap (λ x. x.status) e, ap (λ x. x.steps) e)

executed-success :
    (out : Outside) (cfg : Config) (carry : Dict StepResult) (order : List String)
    → nodup (step_names cfg.steps) ≡ true
    → order_steps cfg.steps ≡ Steps.ok order
    → is_quiet (Executor.run cfg.steps (is_carried carry) (start cfg.steps order carry) out.events)
      ≡ true
    → only_successes carry ≡ true
    → (execute_steps out cfg carry).is_canceled ≡ false
    → (execute_steps out cfg carry).is_failed ≡ false
    → All (λ res. is_success res.status ≡ true) (execute_steps out cfg carry).steps
unfolding execute_steps
executed-success out cfg carry order u ordered q o calm fine =
    let e : execute_steps out cfg carry ≡ executed_as out cfg carry (Steps.ok order) =
      ap (executed_as out cfg carry) ordered in
    let s = Executor.run cfg.steps (is_carried carry) (start cfg.steps order carry) out.events in
    let c : s.canceled ≡ false = sym (ap (λ x. x.is_canceled) e) ∙ calm in
    let f : s.failed ≡ false = sym (ap (λ x. x.is_failed) e) ∙ fine in
    let known : (m : String) → 1 ≤ count m order → is_known cfg.steps m ≡ true = λ m h. ground (
      arith,
      (order_steps_sound cfg.steps order u ordered).1 m,
      known_iff_count cfg.steps m u,
      h,
    ) in
    rw (ap (λ x. x.steps) e) (
      results_of-success cfg.steps s.results order known
        (quiet_all_success cfg.steps order carry out.events u ordered o q (ground (arith, c, f))))

-- Let the names of a workflow's steps be distinct, `order` be their order, and the goroutines of the
-- steps have ended. If the execution, a retry's carried results included, then ends in success, so
-- has every one of its steps.
pub execute-success :
    (out : Outside) (cfg : Config) (before st : RunState) (order : List String)
    → nodup (step_names cfg.steps) ≡ true
    → order_steps cfg.steps ≡ Steps.ok order
    → is_quiet (
        Executor.run cfg.steps
          (is_carried (carried before))
          (start cfg.steps order (carried before))
          out.events)
      ≡ true
    → is_successful (execute out cfg (carried before) st).exec.status ≡ true
    → All (λ res. is_success res.status ≡ true) (execute out cfg (carried before) st).exec.steps
execute-success out cfg before st order u ordered q s =
    let carry = carried before in
    let done = execute_steps out cfg carry in
    let e = execute-exec out cfg carry st in
    let v = verdict-success (done.is_canceled || out.stopped) done.is_failed (rw e.0 at s) in
    rw e.1 (
      executed-success out cfg carry order u ordered q (carried-only_successes before)
        (ground arith) v.1)
