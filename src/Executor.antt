-- ===== src/Executor.antt =====
-- executeSteps of internal/ci/step.go: the goroutines that run the steps of one execution. The lock
-- makes each critical section one event; events of different goroutines interleave in any order.
pub mod Slots
pub mod Cover
pub mod Finish
pub mod Ends
pub mod Promises
pub mod Success
use pici.Base.{
  ℕ, zero, suc, ◌+◌, ◌-◌, ◌*◌, ◌≤◌, ◌<◌, String, ◌≡◌, refl, sym, ap, ◌∙◌, ◌≢◌, ◌↔◌, ◌⊎◌, inl, inr,
  Bool, true, false, not, ◌&&◌, ◌||◌, Option, none, some, List, [], ◌∷◌, ◌++◌, map, arith, eq_iff,
  ltb, leb, ◌==◌, str_eq, if◌then◌else◌, ==_iff, Bool-cases, Option-cases, length, get_elem?, any,
  all, drop, take, All, length-append, Text, codes, has_prefix, contains, ℤ, pos, negsuc, decrement,
  increment, is_zero, is_negative, is_positive, Dict, get, get_or, put, get_or-put, get-put, count,
  count-append, length-le_of_count, count-eq_of_length,
}
use pici.Config.{Step, step_names}
use pici.Steps.{is_known}
use pici.Records.{StepStatus, StepResult, bare_result, is_unset, is_success, is_failed, is_canceled}

abbrev pub max_parallel_steps : ℕ
max_parallel_steps = 8

-- What runStep hands back, but for the name and the status.
pub record Report : Type 0 where
  pub started_at : Option ℕ
  pub finished_at : Option ℕ
  pub timeout : ℤ
  pub exit_code : ℤ
  pub error : String
  pub env : List Text

-- What runStep hands back. Its status is one of the three.
pub data Outcome : Type 0 where
  succeeded failed canceled : Report → Outcome

abbrev pub reported : String → StepStatus → Report → StepResult
reported name status r = record {
  name = name;
  status = status;
  started_at = r.started_at;
  finished_at = r.finished_at;
  timeout = r.timeout;
  exit_code = r.exit_code;
  error = r.error;
  env = r.env;
}

abbrev pub step_result : String → Outcome → StepResult
step_result name (succeeded r) = reported name StepStatus.success r
step_result name (failed r) = reported name StepStatus.failed r
step_result name (canceled r) = reported name StepStatus.canceled r

-- The result of a step that is not run because the context is canceled.
abbrev pub canceled_result : String → StepResult
canceled_result name =
    let r : StepResult = bare_result name StepStatus.canceled in record r { error = "canceled" }

-- The list of results in dependency order, one entry for each name.
abbrev pub Progress : Type 0
Progress = Dict StepResult

-- Where the goroutine of a step is. It holds a slot of the semaphore from `entered` to
-- `launching`. A snapshot is taken under the lock and handed to `notify` after it.
pub data Phase : Type 0 where
  waiting entered : Phase
  decided : (skip : Bool) → Phase
  starting : (snapshot : Progress) → Phase
  running : Phase
  finishing : (snapshot : Progress) (ready : List String) → Phase
  launching : (ready : List String) → Phase
  done : Phase

pub record Thread : Type 0 where
  pub name : String
  pub phase : Phase

pub record State : Type 0 where
  pub statuses : Dict StepStatus
  pub results : Dict StepResult
  pub progress : Progress
  pub failed : Bool
  pub canceled : Bool
  -- what onUpdate was called with
  pub updates : List Progress
  -- the goroutines in the order of their launches; those that ended stay in the list
  pub threads : List Thread
  -- the steps that the launching loop of the caller has still to look at
  pub scan : List Step
  -- ctx.Err() != nil
  pub ctx_done : Bool

pub data Event : Type 0 where
  -- the next round of the launching loop
  scan : Event
  -- the context is canceled
  cancel : Event
  -- goroutine `i` goes on; `outcome` is what its runStep returns, if that is where it is
  turn : (i : ℕ) (outcome : Outcome) → Event

-- statuses[pos[d]]
abbrev pub status_of : Dict StepStatus → String → StepStatus
status_of statuses d = get_or d StepStatus.unset statuses

-- depsByName[name]: of two steps with one name the last one counts.
unfoldable pub deps_by_name : List Step → String → List String
deps_by_name [] name = []
deps_by_name (s ∷ steps) name =
    let rest = deps_by_name steps name in
    if is_known steps name then rest else if str_eq s.name name then s.depends_on else []

abbrev children_among : String → String → List String → List String
children_among d name [] = []
children_among d name (e ∷ es) =
    let rest = children_among d name es in if str_eq e d then name ∷ rest else rest

-- children[d]
unfoldable pub children : List Step → String → List String
children [] d = []
children (s ∷ steps) d = children_among d s.name s.depends_on ++ children steps d

abbrev pub all_set : Dict StepStatus → List String → Bool
all_set statuses ds = all (λ d. not (is_unset (status_of statuses d))) ds

abbrev pub all_success : Dict StepStatus → List String → Bool
all_success statuses ds = all (λ d. is_success (status_of statuses d)) ds

-- The children whose dependencies all have a status.
unfoldable pub ready_children : List Step → Dict StepStatus → List String → List String
ready_children steps statuses [] = []
ready_children steps statuses (c ∷ cs) =
    let rest = ready_children steps statuses cs in
    if all_set statuses (deps_by_name steps c) then c ∷ rest else rest

abbrev pub holds_slot : Phase → Bool
holds_slot waiting = false
holds_slot done = false
holds_slot _ = true

-- How many goroutines hold a slot of the semaphore.
abbrev pub holders : List Thread → ℕ
holders [] = 0
holders (t ∷ ts) = (if holds_slot t.phase then 1 else 0) + holders ts

abbrev pub set_phase : List Thread → ℕ → Phase → List Thread
set_phase [] i p = []
set_phase (t ∷ ts) zero p = record t { phase = p } ∷ ts
set_phase (t ∷ ts) (suc i) p = t ∷ set_phase ts i p

abbrev pub go_to : State → ℕ → Phase → State
go_to s i p = record s { threads = set_phase s.threads i p }

abbrev pub launch : State → String → State
launch s name = record s { threads = s.threads ++ record { name = name; phase = waiting } ∷ [] }

-- The second critical section: the result is written, and the children that became ready are
-- collected.
unfoldable pub store_result : List Step → State → ℕ → String → StepResult → State
unfolding children ready_children
store_result steps s i name res =
    let statuses = put name res.status s.statuses in
    let progress = put name res s.progress in
    record s {
      statuses = statuses;
      results = put name res s.results;
      progress = progress;
      failed = s.failed || is_failed res.status;
      canceled = s.canceled || is_canceled res.status;
      threads =
          set_phase s.threads i
            (finishing progress (ready_children steps statuses (children steps name)));
    }

-- One turn of goroutine `i`.
unfoldable pub turn_from : List Step → State → ℕ → String → Phase → Outcome → State
unfolding store_result deps_by_name
turn_from steps s i name waiting outcome =
    if ltb (holders s.threads) max_parallel_steps then go_to s i entered else s
turn_from steps s i name entered outcome =
    go_to s i (decided (not (all_success s.statuses (deps_by_name steps name))))
turn_from steps s i name (decided true) outcome =
    store_result steps s i name (bare_result name StepStatus.skipped)
turn_from steps s i name (decided false) outcome =
    if s.ctx_done
    then store_result steps s i name (canceled_result name)
    else let progress = put name (bare_result name StepStatus.running) s.progress in
      record s { progress = progress; threads = set_phase s.threads i (starting progress) }
turn_from steps s i name (starting snapshot) outcome = record s {
  updates = s.updates ++ snapshot ∷ [];
  threads = set_phase s.threads i running;
}
turn_from steps s i name running outcome = store_result steps s i name (step_result name outcome)
turn_from steps s i name (finishing snapshot ready) outcome = record s {
  updates = s.updates ++ snapshot ∷ [];
  threads = set_phase s.threads i (launching ready);
}
turn_from steps s i name (launching []) outcome = go_to s i done
turn_from steps s i name (launching (c ∷ ready)) outcome = launch (go_to s i (launching ready)) c
turn_from steps s i name done outcome = s

-- One round of the launching loop: steps that are carried over are passed by.
unfoldable pub scan_from : (String → Bool) → State → List Step → State
scan_from carried s [] = s
scan_from carried s (x ∷ rest) =
    let s' : State = record s { scan = rest } in
    if carried x.name then s' else if all_set s.statuses x.depends_on then launch s' x.name else s'

unfoldable pub step : List Step → (String → Bool) → State → Event → State
unfolding turn_from scan_from
step steps carried s scan = scan_from carried s s.scan
step steps carried s cancel = record s { ctx_done = true }
step steps carried s (turn i outcome) = elim (get_elem? s.threads i) [
  | none ↦ s
  | some t ↦ turn_from steps s i t.name t.phase outcome
]

-- A schedule: the events in the order in which they happen.
unfoldable pub run : List Step → (String → Bool) → State → List Event → State
unfolding step
run steps carried s [] = s
run steps carried s (e ∷ es) = run steps carried (step steps carried s e) es

-- The status of a result that is carried over; an empty one counts as success.
abbrev pub carried_status : StepResult → StepStatus
carried_status res = if is_unset res.status then StepStatus.success else res.status

unfoldable pub carry_over : Dict StepResult → List String → State → State
carry_over carry [] s = s
carry_over carry (n ∷ order) s = elim (get n carry) [
  | none ↦ carry_over carry order s
  | some res ↦
      let res' : StepResult = record res { name = n; status = carried_status res } in
      carry_over carry order (record s {
        statuses = put n res'.status s.statuses;
        results = put n res' s.results;
        progress = put n res' s.progress;
      })
]

abbrev pub pending_progress : List String → Progress
pending_progress [] = []
pending_progress (n ∷ order) = (n, bare_result n StepStatus.pending) ∷ pending_progress order

abbrev pub is_carried : Dict StepResult → String → Bool
is_carried carry n = elim (get n carry) [ none ↦ false | some res ↦ true ]

-- The state before anything is carried over.
abbrev pub fresh : List Step → List String → State
fresh steps order = record {
  statuses = [];
  results = [];
  progress = pending_progress order;
  failed = false;
  canceled = false;
  updates = [];
  threads = [];
  scan = steps;
  ctx_done = false;
}

-- The state when the launching loop begins, after the first call of onUpdate.
unfoldable pub start : List Step → List String → Dict StepResult → State
unfolding carry_over
start steps order carry =
    let s = carry_over carry order (fresh steps order) in record s { updates = s.progress ∷ [] }

-- wg.Wait() returns: the launching loop and every goroutine have ended.
abbrev pub all_done : List Thread → Bool
all_done [] = true
all_done (t ∷ ts) = elim t.phase [ done ↦ all_done ts | _ ↦ false ]

abbrev pub is_quiet : State → Bool
is_quiet s = elim s.scan [ [] ↦ all_done s.threads | _ ↦ false ]
