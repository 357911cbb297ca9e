-- ===== src/Executor/Success.antt =====
-- A run that reports neither a failure nor a cancellation has only successes.
use pici.Base.{
  ℕ, String, ◌≡◌, refl, sym, ap, ◌∙◌, inl, inr, Bool, true, false, ◌&&◌, ◌||◌, none, some, List, [],
  ◌∷◌, arith, ltb, str_eq, if◌then◌else◌, Bool-cases, Option-cases, get_elem?, all, Dict, get,
  get_or, put, get_or-put,
}
use pici.Config.{Step, step_names}
use pici.Steps.{is_known, ok, order_steps}
use pici.Steps.Order.Edges.{nodup}
use pici.Steps.Order.Sound.{order_steps_sound}
use pici.Steps.Order.Ranks.{position, order_steps-IsRanked}
use pici.Records.{StepStatus, StepResult, bare_result, is_unset, is_success, is_failed, is_canceled}
use pici.Executor.{
  Outcome, succeeded, failed, canceled, step_result, canceled_result, Phase, waiting, entered,
  decided, starting, running, finishing, launching, done, Thread, State, Event, scan, cancel, turn,
  status_of, deps_by_name, children, all_set, ready_children, holders, set_phase, store_result,
  turn_from, scan_from, step, run, carried_status, carry_over, is_carried, start, fresh, is_quiet,
}
use pici.Executor.Cover.{all-set_phase, all-snoc, all-get_elem?, status_of-put, AreFound}
use pici.Executor.Ends.{quiet_all_set, AreFound-self}
use pici.Executor.Promises.{
  is_over, promises, promised, all-promised-put, ready_children-all_ready, is_fine, skip_is_over,
}

abbrev pub status_in : Dict StepResult → String → StepStatus
status_in results m = (get_or m (bare_result "" StepStatus.unset) results).status

record CleanOf (steps : List Step) (statuses : Dict StepStatus) (results : Dict StepResult)
    (over : Bool) (threads : List Thread) (todo : List Step) : Type 0 where
  fine : (m : String) → is_fine over (status_of statuses m) ≡ true
  same : (m : String) → status_in results m ≡ status_of statuses m
  kept : all (promised steps statuses over) threads ≡ true
  found : AreFound steps todo

abbrev Clean : List Step → State → Type 0
Clean steps s = CleanOf steps s.statuses s.results (is_over s) s.threads s.scan

or_swap : (a b c d : Bool) → ((a || b) || (c || d)) ≡ ((a || c) || (b || d))
or_swap a b c d = ground arith

move-Clean :
    (steps : List Step) (statuses : Dict StepStatus) (results : Dict StepResult) (over : Bool)
    (threads : List Thread) (todo : List Step) (i : ℕ) (p : Phase) (t : Thread)
    → get_elem? threads i ≡ some t
    → promises steps statuses over t.name p ≡ true
    → CleanOf steps statuses results over threads todo
    → CleanOf steps statuses results over (set_phase threads i p) todo
move-Clean steps statuses results over threads todo i p t e h c = record {
  fine = c.fine;
  same = c.same;
  kept = all-set_phase (promised steps statuses over) threads i p t e c.kept h;
  found = c.found;
}

status_in-put :
    (n m : String) (res : StepResult) (results : Dict StepResult)
    → status_in (put n res results) m ≡ (if str_eq n m then res.status else status_in results m)
status_in-put n m res results =
    ground (arith, get_or-put n m (bare_result "" StepStatus.unset) res results)

store_result-Clean :
    (steps : List Step) (s : State) (i : ℕ) (t : Thread) (res : StepResult)
    → get_elem? s.threads i ≡ some t
    → is_unset res.status ≡ false
    → is_fine (is_over s || (is_failed res.status || is_canceled res.status)) res.status ≡ true
    → Clean steps s
    → Clean steps (store_result steps s i t.name res)
unfolding store_result
store_result-Clean steps s i t res e set fine c =
    let more = is_failed res.status || is_canceled res.status in
    let statuses = put t.name res.status s.statuses in
    let progress = put t.name res s.progress in
    let ready = ready_children steps statuses (children steps t.name) in
    rw (or_swap s.failed (is_failed res.status) s.canceled (is_canceled res.status)) (record {
      fine =
          λ m. rw (status_of-put t.name m res.status s.statuses) (ground (arith, c.fine m, fine));
      same = λ m.
          rw
            (
              status_of-put t.name m res.status s.statuses,
              status_in-put t.name m res s.results,
              c.same m,
            )
            refl;
      kept =
          all-set_phase (promised steps statuses (is_over s || more)) s.threads i
            (finishing progress ready) t e
            (all-promised-put steps t.name res.status s.statuses (is_over s) more s.threads set
              c.kept)
            (ready_children-all_ready steps statuses (children steps t.name));
      found = c.found;
    })

step_result-fine :
    (over : Bool) (name : String) (o : Outcome)
    → let v = (step_result name o).status in
      (is_unset v ≡ false) × (is_fine (over || (is_failed v || is_canceled v)) v ≡ true)
step_result-fine over name (succeeded r) = (refl, refl)
step_result-fine over name (failed r) = (refl, ground arith)
step_result-fine over name (canceled r) = (refl, ground arith)

promise :
    (steps : List Step) (s : State) (i : ℕ) (t : Thread)
    → get_elem? s.threads i ≡ some t
    → Clean steps s
    → promised steps s.statuses (is_over s) t ≡ true
promise steps s i t e c =
    all-get_elem? (promised steps s.statuses (is_over s)) s.threads i t e c.kept

turn_from-Clean :
    (steps : List Step) (s : State) (i : ℕ) (t : Thread) (p : Phase) (o : Outcome)
    → get_elem? s.threads i ≡ some t
    → t.phase ≡ p
    → promises steps s.statuses (is_over s) t.name p ≡ true
    → Clean steps s
    → Clean steps (turn_from steps s i t.name p o)
unfolding turn_from
turn_from-Clean steps s i t waiting o e q h c = elim (Bool-cases (ltb (holders s.threads) 8)) [
  | inl free ↦
      rw free (move-Clean steps s.statuses s.results (is_over s) s.threads s.scan i entered t e h c)
  | inr full ↦ rw full c
]
turn_from-Clean steps s i t entered o e q h c =
    move-Clean steps s.statuses s.results (is_over s) s.threads s.scan i _ t e
      (ground (arith, skip_is_over s.statuses (is_over s) (deps_by_name steps t.name) c.fine h)) c
turn_from-Clean steps s i t (decided true) o e q h c =
    store_result-Clean steps s i t (bare_result t.name StepStatus.skipped) e refl
      (ground (arith, h)) c
turn_from-Clean steps s i t (decided false) o e q h c = elim (Bool-cases s.ctx_done) [
  | inl stop ↦
      rw stop (store_result-Clean steps s i t (canceled_result t.name) e refl (ground arith) c)
  | inr go_on ↦
      rw go_on (move-Clean steps s.statuses s.results (is_over s) s.threads s.scan i _ t e refl c)
]
turn_from-Clean steps s i t (starting snapshot) o e q h c =
    move-Clean steps s.statuses s.results (is_over s) s.threads s.scan i running t e refl c
turn_from-Clean steps s i t running o e q h c =
    let f = step_result-fine (is_over s) t.name o in
    store_result-Clean steps s i t (step_result t.name o) e f.0 f.1 c
turn_from-Clean steps s i t (finishing snapshot ready) o e q h c =
    move-Clean steps s.statuses s.results (is_over s) s.threads s.scan i (launching ready) t e h c
turn_from-Clean steps s i t (launching []) o e q h c =
    move-Clean steps s.statuses s.results (is_over s) s.threads s.scan i done t e refl c
turn_from-Clean steps s i t (launching (n ∷ ready)) o e q h c =
    let moved =
      move-Clean steps s.statuses s.results (is_over s) s.threads s.scan i (launching ready) t e
        (ground (arith, h)) c in
    record {
      fine = c.fine;
      same = c.same;
      kept =
          all-snoc (promised steps s.statuses (is_over s)) (set_phase s.threads i (launching ready))
            (record { name = n; phase = waiting }) moved.kept (ground (arith, h));
      found = c.found;
    }
turn_from-Clean steps s i t done o e q h c = c

scan_from-Clean :
    (steps : List Step) (carried : String → Bool) (s : State) (todo : List Step)
    → s.scan ≡ todo
    → Clean steps s
    → Clean steps (scan_from carried s todo)
unfolding scan_from
scan_from-Clean steps carried s [] e c = c
scan_from-Clean steps carried s (x ∷ rest) e c =
    let f : AreFound steps (x ∷ rest) = rw e at c.found in
    let passed : Clean steps (record s { scan = rest }) = record {
      fine = c.fine;
      same = c.same;
      kept = c.kept;
      found = f.1;
    } in
    elim (Bool-cases (carried x.name)) [
      | inl old ↦ rw old passed
      | inr new ↦ elim (Bool-cases (all_set s.statuses x.depends_on)) [
        | inr waits ↦ rw (new, waits) passed
        | inl there ↦
            rw (new, there)
              (record {
                fine = c.fine;
                same = c.same;
                kept =
                    all-snoc (promised steps s.statuses (is_over s)) s.threads
                      (record { name = x.name; phase = waiting }) c.kept (rw f.0.1 there);
                found = f.1;
              })
      ]
    ]

step-Clean :
    (steps : List Step) (carried : String → Bool) (s : State) (e : Event)
    → Clean steps s
    → Clean steps (step steps carried s e)
unfolding step
step-Clean steps carried s scan c = scan_from-Clean steps carried s s.scan refl c
step-Clean steps carried s cancel c = record {
  fine = c.fine;
  same = c.same;
  kept = c.kept;
  found = c.found;
}
step-Clean steps carried s (turn i o) c = elim (Option-cases (get_elem? s.threads i)) [
  | inl e ↦ rw (e, step) c
  | inr (t, e) ↦
      rw (e, step) (turn_from-Clean steps s i t t.phase o e refl (promise steps s i t e c) c)
]

run-Clean :
    (steps : List Step) (carried : String → Bool) (s : State) (es : List Event)
    → Clean steps s
    → Clean steps (run steps carried s es)
unfolding run
run-Clean steps carried s [] c = c
run-Clean steps carried s (e ∷ es) c =
    run-Clean steps carried (step steps carried s e) es (step-Clean steps carried s e c)

-- Every result that is carried over counts as a success.
abbrev pub only_successes : Dict StepResult → Bool
only_successes [] = true
only_successes ((n, res) ∷ carry) = is_success (carried_status res) && only_successes carry

only_successes-get :
    (carry : Dict StepResult) (n : String) (res : StepResult)
    → only_successes carry ≡ true
    → get n carry ≡ some res
    → is_success (carried_status res) ≡ true
unfolding get
only_successes-get [] n res o e = cc
only_successes-get ((k, r) ∷ carry) n res o e = elim (Bool-cases (str_eq k n)) [
  | inl own ↦
      let h : some r ≡ some res = rw (own, get) at e in
      let same : r.status ≡ res.status =
        ap (λ v. elim v [ none ↦ StepStatus.unset | some x ↦ x.status ]) h in
      let good : is_success (carried_status r) ≡ true = ground arith in
      ap (λ v. is_success (if is_unset v then StepStatus.success else v)) (sym same) ∙ good
  | inr other ↦ only_successes-get carry n res (ground arith) (rw (other, get) at e)
]

carry_over-Clean :
    (steps : List Step) (carry : Dict StepResult) (order : List String) (s : State)
    → only_successes carry ≡ true
    → s.threads ≡ []
    → Clean steps s
    → Clean steps (carry_over carry order s)
unfolding carry_over
carry_over-Clean steps carry [] s o z c = c
carry_over-Clean steps carry (n ∷ order) s o z c = elim (Option-cases (get n carry)) [
  | inl e ↦ rw (e, carry_over) (carry_over-Clean steps carry order s o z c)
  | inr (res, e) ↦
      let v = carried_status res in
      let good = only_successes-get carry n res o e in
      let res' : StepResult = record res { name = n; status = v } in
      let next : State = record s {
        statuses = put n v s.statuses;
        results = put n res' s.results;
        progress = put n res' s.progress;
      } in
      rw (e, carry_over)
        (carry_over-Clean steps carry order next o z (record {
          fine = λ m. rw (status_of-put n m v s.statuses) (ground (arith, c.fine m, good));
          same = λ m.
              rw (status_of-put n m v s.statuses, status_in-put n m res' s.results, c.same m) refl;
          kept = rw z refl;
          found = c.found;
        }))
]

flags-carry_over :
    (carry : Dict StepResult) (order : List String) (s : State)
    → is_over (carry_over carry order s) ≡ is_over s
unfolding carry_over
flags-carry_over carry [] s = refl
flags-carry_over carry (n ∷ order) s = elim (Option-cases (get n carry)) [
  | inl e ↦ rw (e, carry_over) (flags-carry_over carry order s)
  | inr (res, e) ↦ rw (e, carry_over) (flags-carry_over carry order _)
]

start-Clean :
    (steps : List Step) (order : List String) (carry : Dict StepResult)
    → nodup (step_names steps) ≡ true
    → only_successes carry ≡ true
    → Clean steps (start steps order carry)
unfolding start get_or
start-Clean steps order carry u o =
    let c =
      carry_over-Clean steps carry order (fresh steps order) o refl (record {
        fine = λ m. refl;
        same = λ m. refl;
        kept = refl;
        found = AreFound-self steps u;
      }) in
    record { fine = c.fine; same = c.same; kept = c.kept; found = c.found }

-- Let the names of the steps be distinct, `order` be what orderSteps returns, and what is carried
-- over be successes. Whatever the schedule: when the launching loop and all goroutines have ended,
-- with neither `failed` nor `canceled` set, the result of every step is a success.
pub quiet_all_success :
    (steps : List Step) (order : List String) (carry : Dict StepResult) (es : List Event)
    → nodup (step_names steps) ≡ true
    → order_steps steps ≡ ok order
    → only_successes carry ≡ true
    → let s = run steps (is_carried carry) (start steps order carry) es in
      is_quiet s ≡ true
      → is_over s ≡ false
      → (m : String) → is_known steps m ≡ true
      → is_success (status_in s.results m) ≡ true
quiet_all_success steps order carry es u ordered o q calm m e =
    let (known, ranked) = order_steps-IsRanked steps order u ordered in
    let same = (order_steps_sound steps order u ordered).1 in
    let set = quiet_all_set (position order) steps order carry es u known ranked same q m e in
    let s = run steps (is_carried carry) (start steps order carry) es in
    let c =
      run-Clean steps (is_carried carry) (start steps order carry) es
        (start-Clean steps order carry u o) in
    rw (c.same m) (ground (arith, c.fine m, set, calm))
