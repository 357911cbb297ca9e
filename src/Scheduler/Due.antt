-- ===== src/Scheduler/Due.antt =====
-- What is still due after a tick.
use pici.Base.{
  ℕ, ◌≤◌, ◌<◌, String, ◌≡◌, refl, sym, ◌∙◌, inl, inr, Bool, true, false, not, ◌&&◌, ◌||◌, Option,
  none, some, List, [], ◌∷◌, ◌++◌, arith, eq_iff, leb, ◌==◌, str_eq, ◌⊎◌, Bool-cases, Option-cases,
  any, all, update,
}
use mathlib.Core.Path.{subst}
use mathlib.Core.Option.{some-injective}
use pici.Records.{Project}
use pici.Schedules.{Schedule, CronParser, next_run, is_key, upsert_row, list_due_schedules}
use pici.Scheduler.{Clockwork, rescheduled, tick_row, tick_each, tick}

abbrev is_due : ℕ → Schedule → Bool
is_due now r = leb r.next_run_at now

abbrev pub has_key_of : Schedule → Schedule → Bool
has_key_of s r = is_key s.project_id s.workflow r

-- Whether there is a time to run at.
abbrev pub is_time : Option ℕ → Bool
is_time none = false
is_time (some t) = not (t == 0)

abbrev pub is_started_for : Clockwork → Schedule → Option Project → Bool
is_started_for c s none = false
is_started_for c s (some project) = c.trigger project s.workflow project.default_branch

-- Whether the schedule's project is there, its run is queued, and it has a next time.
abbrev pub is_started : Clockwork → Schedule → Bool
is_started c s =
    is_started_for c s (c.get_project s.project_id)
    && is_time (next_run c.parser s.cron_expr (c.clock s.project_id s.workflow))

-- A row that is not due, or one of `todo` has its key, or `b` holds of its key.
abbrev settled : ℕ → List Schedule → (String → String → Bool) → Schedule → Bool
settled now todo b r =
    not (is_due now r) || (any (λ s. has_key_of s r) todo || b r.project_id r.workflow)

settled-update :
    (now : ℕ) (s : Schedule) (t : ℕ) (todo : List Schedule) (b : String → String → Bool)
    (rows : List Schedule)
    → now < t
    → all (settled now (s ∷ todo) b) rows ≡ true
    → all (settled now todo b) (
        update
          (is_key s.project_id s.workflow)
          (λ r. record r { cron_expr = s.cron_expr; next_run_at = t })
          rows)
      ≡ true
settled-update now s t todo b [] l h = refl
settled-update now s t todo b (r ∷ rows) l h = elim (Bool-cases (has_key_of s r)) [
  | inl e ↦ rw e (ground (arith, settled-update now s t todo b rows l, l))
  | inr e ↦ rw e (ground (arith, settled-update now s t todo b rows l, e))
]

settled-snoc :
    (now : ℕ) (s : Schedule) (t : ℕ) (todo : List Schedule) (b : String → String → Bool)
    (rows : List Schedule)
    → now < t
    → any (is_key s.project_id s.workflow) rows ≡ false
    → all (settled now (s ∷ todo) b) rows ≡ true
    → all (settled now todo b) (rows ++ record s { next_run_at = t } ∷ []) ≡ true
settled-snoc now s t todo b [] l n h = ground (arith, l)
settled-snoc now s t todo b (r ∷ rows) l n h = ground (arith, settled-snoc now s t todo b rows l)

settled-upsert_row :
    (now : ℕ) (s : Schedule) (t : ℕ) (todo : List Schedule) (b : String → String → Bool)
    (rows : List Schedule)
    → now < t
    → all (settled now (s ∷ todo) b) rows ≡ true
    → all (settled now todo b) (upsert_row rows (record s { next_run_at = t })) ≡ true
unfolding upsert_row
settled-upsert_row now s t todo b rows l h =
    elim (Bool-cases (any (is_key s.project_id s.workflow) rows)) [
      | inl e ↦ rw e (settled-update now s t todo b rows l h)
      | inr e ↦ rw e (settled-snoc now s t todo b rows l e h)
    ]

all-weaken :
    (p q : Schedule → Bool) (rows : List Schedule)
    → ((r : Schedule) → p r ≡ true → q r ≡ true)
    → all p rows ≡ true
    → all q rows ≡ true
all-weaken p q [] f h = refl
all-weaken p q (r ∷ rows) f h = ground (arith, f r, all-weaken p q rows f)

-- The keys of `b`, and that of `s` unless its run has been started.
abbrev with_key : (String → String → Bool) → Schedule → (started : Bool) → String → String → Bool
with_key b s started p w = b p w || ((str_eq p s.project_id && str_eq w s.workflow) && not started)

-- The clock does not run backwards during a tick that began at `now`.
abbrev pub IsAfter : Clockwork → ℕ → Type 0
IsAfter c now = (p w : String) → now ≤ c.clock p w

-- What robfig/cron documents of Next: a time that is later than the one it is given, or the zero time.
abbrev pub IsAhead : CronParser → Type 0
IsAhead parser =
    (expr : String) (sched : ℕ → ℕ) (from : ℕ)
    → parser expr ≡ some sched
    → (sched from ≡ 0) ⊎ (from < sched from)

next_run-ahead :
    (parser : CronParser) (expr : String) (now moment t : ℕ)
    → IsAhead parser
    → now ≤ moment
    → next_run parser expr moment ≡ some t
    → (t ≡ 0) ⊎ (now < t)
unfolding next_run
next_run-ahead parser expr now moment t l after h = elim (Option-cases (parser expr)) [
  | inl n ↦ let h' : none ≡ some t = rw (n, next_run) at h in absurd (ground arith)
  | inr (sched, n) ↦
      let h' : some (sched moment) ≡ some t = rw (n, next_run) at h in
      let same = some-injective (sched moment) t h' in
      elim (l expr sched moment n) [
        | inl zero_time ↦ inl (sym same ∙ zero_time)
        | inr later ↦ inr (omega (arith, same, later, after))
      ]
]

unstarted-settled :
    (now : ℕ) (s : Schedule) (todo : List Schedule) (b : String → String → Bool) (r : Schedule)
    → settled now (s ∷ todo) b r ≡ true
    → settled now todo (with_key b s false) r ≡ true
unstarted-settled now s todo b r h = ground arith

started-settled :
    (now : ℕ) (s : Schedule) (todo : List Schedule) (b : String → String → Bool) (r : Schedule)
    → settled now todo b r ≡ true
    → settled now todo (with_key b s true) r ≡ true
started-settled now s todo b r h = ground arith

excused-update :
    (now : ℕ) (s : Schedule) (t : ℕ) (todo : List Schedule) (b : String → String → Bool)
    (rows : List Schedule)
    → all (settled now (s ∷ todo) b) rows ≡ true
    → all (settled now todo (with_key b s false)) (
        update
          (is_key s.project_id s.workflow)
          (λ r. record r { cron_expr = s.cron_expr; next_run_at = t })
          rows)
      ≡ true
excused-update now s t todo b [] h = refl
excused-update now s t todo b (r ∷ rows) h = elim (Bool-cases (has_key_of s r)) [
  | inl e ↦ rw e (ground (arith, excused-update now s t todo b rows, e))
  | inr e ↦ rw e (ground (arith, excused-update now s t todo b rows, e))
]

excused-snoc :
    (now : ℕ) (s : Schedule) (t : ℕ) (todo : List Schedule) (b : String → String → Bool)
    (rows : List Schedule)
    → all (settled now (s ∷ todo) b) rows ≡ true
    → all (settled now todo (with_key b s false)) (rows ++ record s { next_run_at = t } ∷ []) ≡ true
excused-snoc now s t todo b [] h =
    ground (arith, eq_iff s.project_id s.project_id, eq_iff s.workflow s.workflow)
excused-snoc now s t todo b (r ∷ rows) h = ground (arith, excused-snoc now s t todo b rows)

excused-upsert_row :
    (now : ℕ) (s : Schedule) (t : ℕ) (todo : List Schedule) (b : String → String → Bool)
    (rows : List Schedule)
    → all (settled now (s ∷ todo) b) rows ≡ true
    → all (settled now todo (with_key b s false)) (upsert_row rows (record s { next_run_at = t }))
      ≡ true
unfolding upsert_row
excused-upsert_row now s t todo b rows h =
    elim (Bool-cases (any (is_key s.project_id s.workflow) rows)) [
      | inl e ↦ rw e (excused-update now s t todo b rows h)
      | inr e ↦ rw e (excused-snoc now s t todo b rows h)
    ]

timed-settled :
    (now : ℕ) (s : Schedule) (todo : List Schedule) (b : String → String → Bool)
    (rows : List Schedule) (t : ℕ)
    → (t ≡ 0) ⊎ (now < t)
    → all (settled now (s ∷ todo) b) rows ≡ true
    → all
        (settled now todo (with_key b s (is_time (some t))))
        (upsert_row rows (record s { next_run_at = t }))
      ≡ true
timed-settled now s todo b rows t (inl zero_time) h =
    let untimed : is_time (some t) ≡ false = ground (arith, zero_time) in
    rw untimed (excused-upsert_row now s t todo b rows h)
timed-settled now s todo b rows t (inr l) h =
    let timed : is_time (some t) ≡ true = ground (arith, l) in
    rw timed (
      all-weaken (settled now todo b) (settled now todo (with_key b s true))
        (upsert_row rows (record s { next_run_at = t })) (started-settled now s todo b)
        (settled-upsert_row now s t todo b rows l h))

rescheduled-settled :
    (now : ℕ) (s : Schedule) (todo : List Schedule) (b : String → String → Bool)
    (rows : List Schedule) (o : Option ℕ)
    → ((t : ℕ) → o ≡ some t → (t ≡ 0) ⊎ (now < t))
    → all (settled now (s ∷ todo) b) rows ≡ true
    → all (settled now todo (with_key b s (is_time o))) (rescheduled rows s o) ≡ true
rescheduled-settled now s todo b rows none l h =
    all-weaken _ (settled now todo (with_key b s false)) rows (unstarted-settled now s todo b) h
rescheduled-settled now s todo b rows (some t) l h = timed-settled now s todo b rows t (l t refl) h

tick_row-settled :
    (c : Clockwork) (now : ℕ) (s : Schedule) (todo : List Schedule) (b : String → String → Bool)
    (rows : List Schedule) (o : Option Project)
    → IsAhead c.parser
    → IsAfter c now
    → all (settled now (s ∷ todo) b) rows ≡ true
    → all
        (settled now todo (
          with_key b s (
            is_started_for c s o
            && is_time (next_run c.parser s.cron_expr (c.clock s.project_id s.workflow)))))
        (tick_row c rows s o)
      ≡ true
tick_row-settled c now s todo b rows none l k h =
    all-weaken _ (settled now todo (with_key b s false)) rows (unstarted-settled now s todo b) h
tick_row-settled c now s todo b rows (some project) l k h =
    elim (Bool-cases (c.trigger project s.workflow project.default_branch)) [
      | inl e ↦ rw e (
          rescheduled-settled now s todo b rows
            (next_run c.parser s.cron_expr (c.clock s.project_id s.workflow))
            (λ t.
              next_run-ahead c.parser s.cron_expr now (c.clock s.project_id s.workflow) t l
                (k s.project_id s.workflow))
            h)
      | inr e ↦ rw e (
          all-weaken _ (settled now todo (with_key b s false)) rows (unstarted-settled now s todo b)
            h)
    ]

-- A row that is not due, or whose key is that of a schedule that could not be started.
abbrev pub held : Clockwork → ℕ → List Schedule → (String → String → Bool) → Schedule → Bool
held c now due b r =
    not (is_due now r)
    || (any (λ s. has_key_of s r && not (is_started c s)) due || b r.project_id r.workflow)

tick_each-held :
    (c : Clockwork) (now : ℕ) (due : List Schedule) (b : String → String → Bool)
    (rows : List Schedule)
    → IsAhead c.parser
    → IsAfter c now
    → all (settled now due b) rows ≡ true
    → all (held c now due b) (tick_each c rows due).0 ≡ true
unfolding tick_each
tick_each-held c now [] b rows l k h = h
tick_each-held c now (s ∷ due) b rows l k h =
    let project = c.get_project s.project_id in
    let b' = with_key b s (is_started c s) in
    all-weaken (held c now due b') (held c now (s ∷ due) b)
      (tick_each c (tick_row c rows s project) due).0 (λ r e. ground arith)
      (tick_each-held c now due b' (tick_row c rows s project) l k
        (tick_row-settled c now s due b rows project l k h))

settled_self :
    (now : ℕ) (rows : List Schedule)
    → all (settled now (list_due_schedules rows now) (λ p w. false)) rows ≡ true
unfolding list_due_schedules
settled_self now [] = refl
settled_self now (r ∷ rows) = elim (Bool-cases (is_due now r)) [
  | inl e ↦
      let first : list_due_schedules (r ∷ rows) now ≡ r ∷ list_due_schedules rows now = rw e refl in
      let rest =
        all-weaken (settled now (list_due_schedules rows now) (λ p w. false))
          (settled now (r ∷ list_due_schedules rows now) (λ p w. false)) rows (λ x h. ground arith)
          (settled_self now rows) in
      subst (λ due. all (settled now due (λ p w. false)) (r ∷ rows) ≡ true) (sym first)
        (ground (arith, eq_iff r.project_id r.project_id, eq_iff r.workflow r.workflow, rest))
  | inr e ↦
      let later : list_due_schedules (r ∷ rows) now ≡ list_due_schedules rows now = rw e refl in
      subst (λ due. all (settled now due (λ p w. false)) (r ∷ rows) ≡ true) (sym later)
        (ground (arith, settled_self now rows))
]

-- Let the Next of a cron schedule give times that are later, or the zero time where there is none, and
-- the clock not run backwards. What
-- is still due after a tick are only schedules of a project and workflow that the tick could not start
-- or that have no next time: the project is missing, the run was not queued, the expression is
-- malformed, or no time meets it.
pub tick-held :
    (c : Clockwork) (now : ℕ) (rows : List Schedule)
    → IsAhead c.parser
    → IsAfter c now
    → all
        (λ r.
          not (leb r.next_run_at now)
          || any (λ s. has_key_of s r && not (is_started c s)) (list_due_schedules rows now))
        (tick c now rows).0
      ≡ true
unfolding tick
tick-held c now rows l k =
    all-weaken (held c now (list_due_schedules rows now) (λ p w. false)) _ (tick c now rows).0
      (λ r e. ground arith)
      (tick_each-held c now (list_due_schedules rows now) (λ p w. false) rows l k
        (settled_self now rows))
