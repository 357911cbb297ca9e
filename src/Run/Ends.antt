-- ===== src/Run/Ends.antt =====
-- What a run leaves behind: how it ends, and what it reports.
use pici.Base.{
  String, ◌≡◌, ◌⊎◌, inl, inr, Bool, true, false, Option, none, some, [], if◌then◌else◌, Dict,
}
use pici.Records.{Project, Status, StepResult, Execution}
use pici.Config.{Config}
use pici.Steps.{order_steps}
use pici.Store.{Db}
use pici.Run.{Outside, RunState, Stage, next, stop, saved, has_waited, set_up}
use pici.Run.Underway.{is_sandbox_start, is_sandbox_stop, is_client_start, is_client_stop, tally}
use pici.Run.Finishes.{IsEnded}

-- A run has ended, each sandbox that it created is removed, and each client of one is closed.
pub record IsOver (db : Db) (exec : Execution) (logged : Bool) (st : RunState) : Type 0 where
  pub ended : IsEnded db exec logged st
  pub sandboxes : tally is_sandbox_start st.effects ≡ tally is_sandbox_stop st.effects
  pub clients : tally is_client_start st.effects ≡ tally is_client_stop st.effects

-- What is opened for the sandbox before it is closed.
record IsOpen (sandboxed : Bool) (st : RunState) : Type 0 where
  opened : tally is_sandbox_start st.effects ≡ (if sandboxed then 1 else 0)
  unclosed : tally is_sandbox_stop st.effects ≡ 0
  dialed : tally is_client_start st.effects ≡ (if sandboxed then 1 else 0)
  unhung : tally is_client_stop st.effects ≡ 0

-- The end of a run that has one.
abbrev pub EndsOver : Db → Execution → Bool → Option RunState → Type 0
EndsOver db exec logged o = (st : RunState) × (o ≡ some st) × IsOver db exec logged st

-- The goroutines of the steps have ended with the events, if the steps are reached.
abbrev pub steps_ended : Outside → Stage (RunState × (Config × Dict StepResult)) → Bool
steps_ended out (stop st message) = true
steps_ended out (next (st, (cfg, carry))) = has_waited out cfg carry (order_steps cfg.steps)

abbrev pub is_none : Option String → Bool
is_none none = true
is_none (some _) = false

-- Whether the run gets as far as its log.
abbrev pub has_log : String ⊎ Project → Option String → Bool
has_log (inl message) log_error = false
has_log (inr project) log_error = is_none log_error

abbrev logged_ended : Outside → RunState → Option String → Bool
logged_ended out st (some message) = true
logged_ended out st none = steps_ended out (set_up out st)

abbrev project_ended : Outside → RunState → String ⊎ Project → Bool
project_ended out st (inl message) = true
project_ended out st (inr project) =
    logged_ended out (saved st (record st.exec { status = Status.running })) out.log_error

-- Whether the goroutines of the run's steps have ended with the events, if it gets to its steps.
abbrev pub has_ended : Outside → Db → Execution → Bool
has_ended out db exec =
    project_ended out (record { db = db; exec = exec; effects = [] }) out.project
