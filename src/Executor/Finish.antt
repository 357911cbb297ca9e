-- ===== src/Executor/Finish.antt =====
-- The invariant by which executeSteps leaves no step without a result, and one turn of a goroutine.
use pici.Base.{
  ℕ, String, ◌≡◌, refl, inl, inr, Bool, true, false, not, ◌||◌, some, List, [], ◌∷◌, ◌++◌, arith,
  eq_iff, ltb, Bool-cases, get_elem?, all, Dict, put, count,
}
use pici.Config.{Step, step_names}
use pici.Steps.{is_known}
use pici.Records.{StepStatus, StepResult, bare_result, is_unset}
use pici.Executor.{
  Outcome, succeeded, failed, canceled, step_result, canceled_result, Progress, Phase, waiting,
  entered, decided, starting, running, finishing, launching, done, Thread, State, status_of,
  deps_by_name, children, all_set, ready_children, holders, set_phase, store_result, turn_from,
}
use pici.Executor.Cover.{
  pledged, covered, is_written, settled, covered-set_phase, covered-set_phase-pledged, covered-snoc,
  all-set_phase, all-snoc, all-get_elem?, status_of-put, all-settled-put, all_set-put,
  count-children, count-ready_children, AreFound,
}

module _ (steps : List Step) (carried : String → Bool) where
  -- A step that the launching loop has passed has a goroutine or waits for a dependency.
  pub record InvOf (statuses : Dict StepStatus) (threads : List Thread) (todo : List Step)
      : Type 0 where
    pub written : all (settled statuses) threads ≡ true
    pub kept :
        (m : String)
        → carried m ≡ true
        → is_known steps m ≡ true
        → is_unset (status_of statuses m) ≡ false
    pub cover :
        (m : String)
        → count m (step_names todo) ≡ 0
        → is_known steps m ≡ true
        → carried m ≡ false
        → (covered threads m || not (all_set statuses (deps_by_name steps m))) ≡ true
    pub found : AreFound steps todo

  abbrev pub Inv : State → Type 0
  Inv s = InvOf s.statuses s.threads s.scan

  -- A goroutine that moves on, without writing, keeps the invariant if it keeps its promises.
  move-Inv :
      (statuses : Dict StepStatus) (threads : List Thread) (todo : List Step) (i : ℕ) (p : Phase)
      (t : Thread)
      → get_elem? threads i ≡ some t
      → is_written p ≡ is_written t.phase
      → pledged p ≡ pledged t.phase
      → InvOf statuses threads todo
      → InvOf statuses (set_phase threads i p) todo
  move-Inv statuses threads todo i p t e w pl inv = record {
    written =
        all-set_phase (settled statuses) threads i p t e inv.written
          (rw w (all-get_elem? (settled statuses) threads i t e inv.written));
    kept = inv.kept;
    cover = λ m c k u. ground (arith, inv.cover m c k u, covered-set_phase threads i p t m e, pl);
    found = inv.found;
  }

  -- A goroutine that launches the first step of its list.
  launch_first-Inv :
      (statuses : Dict StepStatus) (threads : List Thread) (todo : List Step) (i : ℕ) (t : Thread)
      (c : String) (ready : List String)
      → get_elem? threads i ≡ some t
      → t.phase ≡ launching (c ∷ ready)
      → InvOf statuses threads todo
      → InvOf statuses
          (set_phase threads i (launching ready) ++ record { name = c; phase = waiting } ∷ [])
          todo
  launch_first-Inv statuses threads todo i t c ready e q inv =
      let moved = set_phase threads i (launching ready) in
      let new : Thread = record { name = c; phase = waiting } in
      record {
        written =
            all-snoc (settled statuses) moved new
              (all-set_phase (settled statuses) threads i (launching ready) t e inv.written
                (ground (arith, all-get_elem? (settled statuses) threads i t e inv.written)))
              refl;
        kept = inv.kept;
        cover = λ m known k u. ground (
          arith,
          inv.cover m known k u,
          covered-set_phase threads i (launching ready) t m e,
          covered-snoc moved new m,
        );
        found = inv.found;
      }

  write_covers :
      (statuses : Dict StepStatus) (threads : List Thread) (i : ℕ) (t : Thread) (v : StepStatus)
      (snapshot : Progress) (m : String)
      → get_elem? threads i ≡ some t
      → pledged t.phase ≡ []
      → is_known steps m ≡ true
      → (covered threads m || not (all_set statuses (deps_by_name steps m))) ≡ true
      → let statuses' = put t.name v statuses in
        let p = finishing snapshot (ready_children steps statuses' (children steps t.name)) in
        (covered (set_phase threads i p) m || not (all_set statuses' (deps_by_name steps m))) ≡ true
  write_covers statuses threads i t v snapshot m e pl k h =
      let statuses' = put t.name v statuses in
      let ready = ready_children steps statuses' (children steps t.name) in
      let p = finishing snapshot ready in
      elim (Bool-cases (all_set statuses' (deps_by_name steps m))) [
        | inr waits ↦ rw waits (ground arith)
        | inl all_there ↦ elim (Bool-cases (ltb 0 (count t.name (deps_by_name steps m)))) [
          | inl child ↦
              let promised =
                count-ready_children steps statuses' (children steps t.name) m
                  (count-children steps t.name m k child) all_there in
              rw (covered-set_phase-pledged threads i p t m e promised) refl
          | inr other ↦
              let same = all_set-put t.name v statuses (deps_by_name steps m) (ground arith) in
              ground (arith, same, covered-set_phase threads i p t m e, pl)
        ]
      ]

  store_result-Inv :
      (s : State) (i : ℕ) (t : Thread) (res : StepResult)
      → get_elem? s.threads i ≡ some t
      → pledged t.phase ≡ []
      → is_unset res.status ≡ false
      → Inv s
      → Inv (store_result steps s i t.name res)
  unfolding store_result
  store_result-Inv s i t res e pl h inv =
      let statuses' = put t.name res.status s.statuses in
      let ready = ready_children steps statuses' (children steps t.name) in
      let progress = put t.name res s.progress in
      record {
        written =
            all-set_phase (settled statuses') s.threads i (finishing progress ready) t e
              (all-settled-put t.name res.status s.statuses s.threads h inv.written)
              (rw (status_of-put t.name t.name res.status s.statuses)
                (ground (arith, eq_iff t.name t.name)));
        kept = λ m c k.
            rw (status_of-put t.name m res.status s.statuses) (ground (arith, inv.kept m c k));
        cover = λ m c k u.
            write_covers s.statuses s.threads i t res.status progress m e pl k (inv.cover m c k u);
        found = inv.found;
      }

  step_result_set : (name : String) (o : Outcome) → is_unset (step_result name o).status ≡ false
  step_result_set name (succeeded r) = refl
  step_result_set name (failed r) = refl
  step_result_set name (canceled r) = refl

  pub turn_from-Inv :
      (s : State) (i : ℕ) (t : Thread) (p : Phase) (o : Outcome)
      → get_elem? s.threads i ≡ some t
      → t.phase ≡ p
      → Inv s
      → Inv (turn_from steps s i t.name p o)
  unfolding turn_from
  turn_from-Inv s i t waiting o e q inv = elim (Bool-cases (ltb (holders s.threads) 8)) [
    | inl free ↦ rw free (move-Inv s.statuses s.threads s.scan i entered t e (rw q) (rw q) inv)
    | inr full ↦ rw full inv
  ]
  turn_from-Inv s i t entered o e q inv =
      move-Inv s.statuses s.threads s.scan i _ t e (rw q) (rw q) inv
  turn_from-Inv s i t (decided true) o e q inv =
      store_result-Inv s i t (bare_result t.name StepStatus.skipped) e (rw q) refl inv
  turn_from-Inv s i t (decided false) o e q inv = elim (Bool-cases s.ctx_done) [
    | inl stop ↦ rw stop (store_result-Inv s i t (canceled_result t.name) e (rw q) refl inv)
    | inr go_on ↦ rw go_on (move-Inv s.statuses s.threads s.scan i _ t e (rw q) (rw q) inv)
  ]
  turn_from-Inv s i t (starting snapshot) o e q inv =
      move-Inv s.statuses s.threads s.scan i running t e (rw q) (rw q) inv
  turn_from-Inv s i t running o e q inv =
      store_result-Inv s i t (step_result t.name o) e (rw q) (step_result_set t.name o) inv
  turn_from-Inv s i t (finishing snapshot ready) o e q inv =
      move-Inv s.statuses s.threads s.scan i (launching ready) t e (rw q) (rw q) inv
  turn_from-Inv s i t (launching []) o e q inv =
      move-Inv s.statuses s.threads s.scan i done t e (rw q) (rw q) inv
  turn_from-Inv s i t (launching (c ∷ ready)) o e q inv =
      launch_first-Inv s.statuses s.threads s.scan i t c ready e q inv
  turn_from-Inv s i t done o e q inv = inv
