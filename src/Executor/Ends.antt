-- ===== src/Executor/Ends.antt =====
-- executeSteps leaves no step without a result.
use pici.Base.{
  ℕ, zero, suc, ◌≤◌, ◌<◌, String, ◌≡◌, refl, sym, inl, inr, Bool, true, false, not, ◌||◌, List, [],
  ◌∷◌, arith, eq_iff, ltb, str_eq, Bool-cases, Option-cases, get_elem?, all, All, Dict, get, put,
  count,
}
use pici.Config.{Step, step_names}
use pici.Steps.{is_known}
use pici.Records.{StepStatus, StepResult, is_unset}
use pici.Executor.{
  waiting, Thread, State, Event, scan, cancel, turn, status_of, deps_by_name, all_set, scan_from,
  step, run, carry_over, is_carried, start, all_done, is_quiet, carried_status,
}
use pici.Steps.Order.Edges.{nodup, known_iff_count}
use pici.Steps.Order.Complete.{IsRanked, all_known}
use pici.Executor.Slots.{threads-start}
use pici.Executor.Cover.{covered, settled, covered-snoc, status_of-put, AreFound, all-snoc}
use mathlib.Core.Path.{subst}
use pici.Executor.Finish.{Inv, turn_from-Inv}

or_true : (b : Bool) → (b || not false) ≡ true
or_true b = ground arith

module _ (steps : List Step) (carried : String → Bool) where
  scan_from-Inv :
      (s : State) (todo : List Step)
      → s.scan ≡ todo
      → Inv steps carried s
      → Inv steps carried (scan_from carried s todo)
  unfolding scan_from
  scan_from-Inv s [] q inv = inv
  scan_from-Inv s (x ∷ rest) q inv =
      let f : AreFound steps (x ∷ rest) = subst (AreFound steps) q inv.found in
      let c : (m : String)
          → count m (step_names (x ∷ rest)) ≡ 0
          → is_known steps m ≡ true
          → carried m ≡ false
          → (covered s.threads m || not (all_set s.statuses (deps_by_name steps m))) ≡ true =
        λ m h k u. inv.cover m (rw q h) k u in
      elim (Bool-cases (carried x.name)) [
        | inl old ↦ rw old (record {
          written = inv.written;
          kept = inv.kept;
          cover = λ m h k u. ground (arith, c m, eq_iff x.name m);
          found = f.1;
        })
        | inr new ↦ elim (Bool-cases (all_set s.statuses x.depends_on)) [
          | inl ready ↦
              rw (new, ready)
                (record {
                  written =
                      all-snoc (settled s.statuses) s.threads
                        (record { name = x.name; phase = waiting }) inv.written refl;
                  kept = inv.kept;
                  cover = λ m h k u. ground (
                    arith,
                    c m,
                    covered-snoc s.threads (record { name = x.name; phase = waiting }) m,
                  );
                  found = f.1;
                })
          | inr waits ↦
              rw (new, waits)
                (record {
                  written = inv.written;
                  kept = inv.kept;
                  cover = λ m h k u. elim (Bool-cases (str_eq x.name m)) [
                    | inl same ↦
                        subst
                          (λ n.
                            (covered s.threads n || not (all_set s.statuses (deps_by_name steps n)))
                            ≡ true)
                          ((eq_iff x.name m).0 same)
                          (rw (f.0.1, waits) (or_true (covered s.threads x.name)))
                    | inr other ↦ c m (ground arith) k u
                  ];
                  found = f.1;
                })
        ]
      ]

  step-Inv :
      (s : State) (e : Event) → Inv steps carried s → Inv steps carried (step steps carried s e)
  unfolding step
  step-Inv s scan inv = scan_from-Inv s s.scan refl inv
  step-Inv s cancel inv = inv
  step-Inv s (turn i o) inv = elim (Option-cases (get_elem? s.threads i)) [
    | inl e ↦ rw (e, step) inv
    | inr (t, e) ↦ rw (e, step) (turn_from-Inv steps carried s i t t.phase o e refl inv)
  ]

  run-Inv :
      (es : List Event) (s : State)
      → Inv steps carried s
      → Inv steps carried (run steps carried s es)
  unfolding run
  run-Inv [] s inv = inv
  run-Inv (e ∷ es) s inv = run-Inv es (step steps carried s e) (step-Inv s e inv)

AreFound-cons :
    (s : Step) (steps todo : List Step)
    → is_known steps s.name ≡ false
    → AreFound steps todo
    → AreFound (s ∷ steps) todo
unfolding is_known deps_by_name
AreFound-cons s steps [] new f = tt
AreFound-cons s steps (x ∷ todo) new f =
    ((ground (arith, f.0), ground (arith, f.0)), AreFound-cons s steps todo new f.1)

pub AreFound-self : (steps : List Step) → nodup (step_names steps) ≡ true → AreFound steps steps
unfolding is_known deps_by_name
AreFound-self [] u = tt
AreFound-self (s ∷ steps) u =
    let new : is_known steps s.name ≡ false = ground (arith, known_iff_count steps s.name) in
    (
      (ground (arith, eq_iff s.name s.name), ground (arith, eq_iff s.name s.name)),
      AreFound-cons s steps steps new (AreFound-self steps (ground arith)),
    )

-- A quiet state has a status for what is covered.
covered-set :
    (statuses : Dict StepStatus) (ts : List Thread) (m : String)
    → all_done ts ≡ true
    → all (settled statuses) ts ≡ true
    → covered ts m ≡ true
    → is_unset (status_of statuses m) ≡ false
covered-set statuses [] m d h c = cc
covered-set statuses (t ∷ ts) m d h c = ground (arith, eq_iff t.name m, covered-set statuses ts m)

missing_dep :
    (statuses : Dict StepStatus) (ds : List String) (known : String → Bool) (rank : String → ℕ)
    (k : ℕ)
    → ((d : String) → rank d < k → known d ≡ true → is_unset (status_of statuses d) ≡ false)
    → All (λ d. rank d < k) ds
    → all known ds ≡ true
    → all_set statuses ds ≡ true
missing_dep statuses [] known rank k f h a = refl
missing_dep statuses (d ∷ ds) known rank k f h a =
    ground (arith, f d, missing_dep statuses ds known rank k f h.1, h.0)

deps_by_name-ranked :
    (rank : String → ℕ) (steps : List Step) (m : String)
    → IsRanked rank steps
    → All (λ d. rank d < rank m) (deps_by_name steps m)
unfolding deps_by_name
deps_by_name-ranked rank [] m h = tt
deps_by_name-ranked rank (s ∷ steps) m h = elim (Bool-cases (is_known steps m)) [
  | inl later ↦ rw (later, All) (deps_by_name-ranked rank steps m h.1)
  | inr last ↦ elim (Bool-cases (str_eq s.name m)) [
    | inl e ↦
        rw (last, e, All)
          (subst (λ n. All (λ d. rank d < rank n) s.depends_on) ((eq_iff s.name m).0 e) h.0)
    | inr e ↦ rw (last, e, All) tt
  ]
]

deps_by_name-known :
    (all_steps steps : List Step) (m : String)
    → all_known all_steps steps ≡ true
    → all (is_known all_steps) (deps_by_name steps m) ≡ true
unfolding deps_by_name
deps_by_name-known all_steps [] m h = refl
deps_by_name-known all_steps (s ∷ steps) m h = ground (arith, deps_by_name-known all_steps steps m)

All-weaken :
    (rank : String → ℕ) (j k : ℕ) (ds : List String)
    → j ≤ k
    → All (λ d. rank d < j) ds
    → All (λ d. rank d < k) ds
All-weaken rank j k [] le h = tt
All-weaken rank j k (d ∷ ds) le h = (omega arith, All-weaken rank j k ds le h.1)

is_quiet-parts : (s : State) → is_quiet s ≡ true → (s.scan ≡ []) × (all_done s.threads ≡ true)
is_quiet-parts s q = go s.scan refl
  where
    go : (todo : List Step) → s.scan ≡ todo → (s.scan ≡ []) × (all_done s.threads ≡ true)
    go [] e = (e, rw (e, is_quiet) at q)
    go (x ∷ todo) e = cc (rw (e, is_quiet) at q)

module _ (steps : List Step) (carried : String → Bool) (rank : String → ℕ)
    (known : all_known steps steps ≡ true) (ranked : IsRanked rank steps) where
  quiet-set :
      (s : State)
      → is_quiet s ≡ true
      → Inv steps carried s
      → (k : ℕ) (m : String) → rank m < k
      → is_known steps m ≡ true
      → is_unset (status_of s.statuses m) ≡ false
  quiet-set s q inv zero m h e = absurd (omega arith)
  quiet-set s q inv (suc k) m h e = elim (Bool-cases (carried m)) [
    | inl old ↦ inv.kept m old e
    | inr new ↦
        let (no_scan, ended) = is_quiet-parts s q in
        let there =
          missing_dep s.statuses (deps_by_name steps m) (is_known steps) rank k
            (λ d. quiet-set s q inv k d)
            (All-weaken rank (rank m) k (deps_by_name steps m) (omega arith)
              (deps_by_name-ranked rank steps m ranked))
            (deps_by_name-known steps steps m known) in
        covered-set s.statuses s.threads m ended inv.written
          (ground (arith, inv.cover m (rw no_scan refl) e new))
  ]

carried_status-set : (res : StepResult) → is_unset (carried_status res) ≡ false
carried_status-set res = ground arith

-- What is carried over has a status before the first goroutine starts.
carry_over-set :
    (carry : Dict StepResult) (order : List String) (s : State) (m : String)
    → is_carried carry m ≡ true
    → (ltb 0 (count m order) || not (is_unset (status_of s.statuses m))) ≡ true
    → is_unset (status_of (carry_over carry order s).statuses m) ≡ false
unfolding carry_over
carry_over-set carry [] s m c h = ground arith
carry_over-set carry (n ∷ order) s m c h = elim (Option-cases (get n carry)) [
  | inl e ↦ rw (e, carry_over) (carry_over-set carry order s m c (ground (arith, eq_iff n m)))
  | inr (res, e) ↦
      let v = carried_status res in
      rw (e, carry_over)
        (carry_over-set carry order
          (record s {
            statuses = put n v s.statuses;
            results = put n (record res { name = n; status = v }) s.results;
            progress = put n (record res { name = n; status = v }) s.progress;
          })
          m c (rw (status_of-put n m v s.statuses) (ground (arith, carried_status-set res))))
]

pub scan-carry_over :
    (carry : Dict StepResult) (order : List String) (s : State)
    → (carry_over carry order s).scan ≡ s.scan
unfolding carry_over
scan-carry_over carry [] s = refl
scan-carry_over carry (n ∷ order) s = elim (Option-cases (get n carry)) [
  | inl e ↦ rw (e, carry_over) (scan-carry_over carry order s)
  | inr (res, e) ↦ rw (e, carry_over) (scan-carry_over carry order _)
]

start-Inv :
    (steps : List Step) (order : List String) (carry : Dict StepResult)
    → nodup (step_names steps) ≡ true
    → ((m : String) → count m order ≡ count m (step_names steps))
    → Inv steps (is_carried carry) (start steps order carry)
start-Inv steps order carry u same =
    let todo : (start steps order carry).scan ≡ steps =
      unfold start in scan-carry_over carry order _ in
    record {
      written = rw threads-start refl;
      kept = λ m c k.
          unfold start in
          carry_over-set carry order _ m c (ground (arith, same m, known_iff_count steps m u));
      cover = λ m c k n. absurd (
          ground
            (arith, subst (λ l. count m (step_names l) ≡ 0) todo c, known_iff_count steps m u));
      found = subst (AreFound steps) (sym todo) (AreFound-self steps u);
    }

-- Let the names of the steps be distinct, the dependencies be steps and have no cycle, and `order`
-- hold each step once. Whatever the schedule, the outcomes, the cancellations and the results that
-- are carried over: when the launching loop and all goroutines have ended, every step has a status.
pub quiet_all_set :
    (rank : String → ℕ) (steps : List Step) (order : List String) (carry : Dict StepResult)
    (es : List Event)
    → nodup (step_names steps) ≡ true
    → all_known steps steps ≡ true
    → IsRanked rank steps
    → ((m : String) → count m order ≡ count m (step_names steps))
    → is_quiet (run steps (is_carried carry) (start steps order carry) es) ≡ true
    → (m : String) → is_known steps m ≡ true
    → is_unset (status_of (run steps (is_carried carry) (start steps order carry) es).statuses m)
      ≡ false
quiet_all_set rank steps order carry es u known ranked same q m e =
    quiet-set steps (is_carried carry) rank known ranked
      (run steps (is_carried carry) (start steps order carry) es) q
      (run-Inv steps (is_carried carry) es (start steps order carry)
        (start-Inv steps order carry u same))
      (suc (rank m)) m (omega arith) e
