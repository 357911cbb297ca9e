-- ===== src/Executor/Slots.antt =====
-- The semaphore bounds how many steps run at once.
use pici.Base.{
  ℕ, zero, suc, ◌+◌, ◌≤◌, String, ◌≡◌, refl, inl, inr, Bool, true, false, not, some, List, [], ◌∷◌,
  ◌++◌, arith, if◌then◌else◌, Option-cases, get_elem?, Dict, get, put,
}
use pici.Config.{Step}
use pici.Records.{StepStatus, StepResult, bare_result}
use pici.Executor.{
  Outcome, step_result, canceled_result, Phase, waiting, entered, decided, starting, running,
  finishing, launching, done, Thread, State, Event, scan, cancel, turn, max_parallel_steps,
  deps_by_name, children, all_success, ready_children, holds_slot, holders, set_phase, store_result,
  turn_from, scan_from, step, run, carry_over, is_carried, start,
}

holders-set_phase :
    (ts : List Thread) (i : ℕ) (p : Phase) (t : Thread)
    → get_elem? ts i ≡ some t
    → holders (set_phase ts i p) + (if holds_slot t.phase then 1 else 0)
      ≡ holders ts + (if holds_slot p then 1 else 0)
holders-set_phase [] i p t e = cc
holders-set_phase (u ∷ ts) zero p t e = ground arith
holders-set_phase (u ∷ ts) (suc i) p t e = omega (arith, holders-set_phase ts i p t e)

holders-snoc :
    (ts : List Thread) (t : Thread)
    → holders (ts ++ t ∷ []) ≡ holders ts + (if holds_slot t.phase then 1 else 0)
holders-snoc [] t = omega arith
holders-snoc (u ∷ ts) t = omega (arith, holders-snoc ts t)

abbrev Fits : State → Type 0
Fits s = holders s.threads ≤ max_parallel_steps

store_result-Fits :
    (steps : List Step) (s : State) (i : ℕ) (t : Thread) (name : String) (res : StepResult)
    → get_elem? s.threads i ≡ some t
    → holds_slot t.phase ≡ true
    → Fits s
    → Fits (store_result steps s i name res)
unfolding store_result
store_result-Fits steps s i t name res e q f =
    let statuses = put name res.status s.statuses in
    let next =
      finishing (put name res s.progress) (ready_children steps statuses (children steps name)) in
    ground (arith, holders-set_phase s.threads i next t)

turn_from-Fits :
    (steps : List Step) (s : State) (i : ℕ) (t : Thread) (name : String) (p : Phase) (o : Outcome)
    → get_elem? s.threads i ≡ some t
    → t.phase ≡ p
    → Fits s
    → Fits (turn_from steps s i name p o)
unfolding turn_from
turn_from-Fits steps s i t name waiting o e q f =
    ground (arith, holders-set_phase s.threads i entered t)
turn_from-Fits steps s i t name (launching (c ∷ ready)) o e q f = ground (
  arith,
  holders-set_phase s.threads i (launching ready) t,
  holders-snoc (set_phase s.threads i (launching ready)) (record { name = c; phase = waiting }),
)
turn_from-Fits steps s i t name done o e q f = f
turn_from-Fits steps s i t name entered o e q f = ground (
  arith,
  holders-set_phase s.threads i (decided (not (all_success s.statuses (deps_by_name steps name))))
      t,
)
turn_from-Fits steps s i t name (decided true) o e q f =
    store_result-Fits steps s i t name (bare_result name StepStatus.skipped) e (rw q) f
turn_from-Fits steps s i t name (decided false) o e q f =
    let progress = put name (bare_result name StepStatus.running) s.progress in
    ground (
      arith,
      store_result-Fits steps s i t name (canceled_result name) e,
      holders-set_phase s.threads i (starting progress) t,
    )
turn_from-Fits steps s i t name (starting snapshot) o e q f =
    ground (arith, holders-set_phase s.threads i running t)
turn_from-Fits steps s i t name running o e q f =
    store_result-Fits steps s i t name (step_result name o) e (rw q) f
turn_from-Fits steps s i t name (finishing snapshot ready) o e q f =
    ground (arith, holders-set_phase s.threads i (launching ready) t)
turn_from-Fits steps s i t name (launching []) o e q f =
    ground (arith, holders-set_phase s.threads i done t)

step-Fits :
    (steps : List Step) (carried : String → Bool) (s : State) (e : Event)
    → Fits s
    → Fits (step steps carried s e)
unfolding step
step-Fits steps carried s scan f = go s.scan
  where
    go : (todo : List Step) → Fits (scan_from carried s todo)
    go [] = f
    go (x ∷ rest) =
        ground (arith, holders-snoc s.threads (record { name = x.name; phase = waiting }))
step-Fits steps carried s cancel f = f
step-Fits steps carried s (turn i o) f = elim (Option-cases (get_elem? s.threads i)) [
  | inl e ↦ rw (e, step) f
  | inr (t, e) ↦ rw (e, step) (turn_from-Fits steps s i t t.name t.phase o e refl f)
]

run-Fits :
    (steps : List Step) (carried : String → Bool) (s : State) (es : List Event)
    → Fits s
    → Fits (run steps carried s es)
unfolding run
run-Fits steps carried s [] f = f
run-Fits steps carried s (e ∷ es) f =
    run-Fits steps carried (step steps carried s e) es (step-Fits steps carried s e f)

threads-carry_over :
    (carry : Dict StepResult) (order : List String) (s : State)
    → (carry_over carry order s).threads ≡ s.threads
unfolding carry_over
threads-carry_over carry [] s = refl
threads-carry_over carry (n ∷ order) s = elim (Option-cases (get n carry)) [
  | inl e ↦ rw (e, carry_over) (threads-carry_over carry order s)
  | inr (res, e) ↦ rw (e, carry_over) (threads-carry_over carry order _)
]

pub threads-start :
    (steps : List Step) (order : List String) (carry : Dict StepResult)
    → (start steps order carry).threads ≡ []
unfolding start
threads-start steps order carry = threads-carry_over carry order _

-- Whatever the schedule, at most eight goroutines hold a slot of the semaphore at any time.
pub holders-le_max :
    (steps : List Step) (order : List String) (carry : Dict StepResult) (es : List Event)
    → holders (run steps (is_carried carry) (start steps order carry) es).threads ≤ 8
holders-le_max steps order carry es =
    run-Fits steps (is_carried carry) (start steps order carry) es (rw threads-start (omega arith))
