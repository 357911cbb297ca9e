-- ===== src/Executor/Cover.antt =====
-- Bookkeeping of executeSteps: which steps have a goroutine, are promised one, or have a status.
use pici.Base.{
  ℕ, zero, suc, String, ◌≡◌, refl, Bool, true, false, not, ◌&&◌, ◌||◌, some, List, [], ◌∷◌, ◌++◌,
  arith, eq_iff, ltb, ◌==◌, str_eq, if◌then◌else◌, get_elem?, any, all, All, Dict, put, get_or-put,
  count, count-append,
}
use pici.Config.{Step}
use pici.Steps.{is_known}
use pici.Records.{StepStatus, is_unset}
use pici.Executor.{
  Phase, finishing, launching, done, Thread, status_of, deps_by_name, children_among, children,
  all_set, ready_children, set_phase,
}

-- The steps that a goroutine has still to launch.
abbrev pub pledged : Phase → List String
pledged (finishing snapshot ready) = ready
pledged (launching ready) = ready
pledged _ = []

abbrev pub owes : Thread → String → Bool
owes t m = str_eq t.name m || ltb 0 (count m (pledged t.phase))

-- A goroutine for the step was launched, or one has it on its list.
abbrev pub covered : List Thread → String → Bool
covered ts m = any (λ t. owes t m) ts

-- Whether the result of the goroutine is written.
abbrev pub is_written : Phase → Bool
is_written (finishing snapshot ready) = true
is_written (launching ready) = true
is_written done = true
is_written _ = false

abbrev pub settled : Dict StepStatus → Thread → Bool
settled statuses t = not (is_written t.phase) || not (is_unset (status_of statuses t.name))

pub covered-set_phase :
    (ts : List Thread) (i : ℕ) (p : Phase) (t : Thread) (m : String)
    → get_elem? ts i ≡ some t
    → covered ts m ≡ true
    → (covered (set_phase ts i p) m
        || (ltb 0 (count m (pledged t.phase)) && (count m (pledged p) == 0)))
      ≡ true
covered-set_phase [] i p t m e h = cc
covered-set_phase (u ∷ ts) zero p t m e h = ground arith
covered-set_phase (u ∷ ts) (suc i) p t m e h = ground (arith, covered-set_phase ts i p t m e)

pub covered-set_phase-pledged :
    (ts : List Thread) (i : ℕ) (p : Phase) (t : Thread) (m : String)
    → get_elem? ts i ≡ some t
    → ltb 0 (count m (pledged p)) ≡ true
    → covered (set_phase ts i p) m ≡ true
covered-set_phase-pledged [] i p t m e h = cc
covered-set_phase-pledged (u ∷ ts) zero p t m e h = ground arith
covered-set_phase-pledged (u ∷ ts) (suc i) p t m e h =
    ground (arith, covered-set_phase-pledged ts i p t m e h)

pub covered-snoc :
    (ts : List Thread) (t : Thread) (m : String)
    → covered (ts ++ t ∷ []) m ≡ (covered ts m || owes t m)
covered-snoc [] t m = ground arith
covered-snoc (u ∷ ts) t m = ground (arith, covered-snoc ts t m)

pub all-set_phase :
    (P : Thread → Bool) (ts : List Thread) (i : ℕ) (p : Phase) (t : Thread)
    → get_elem? ts i ≡ some t
    → all P ts ≡ true
    → P (record { name = t.name; phase = p }) ≡ true
    → all P (set_phase ts i p) ≡ true
all-set_phase P [] i p t e h k = cc
all-set_phase P (u ∷ ts) zero p t e h k = ground arith
all-set_phase P (u ∷ ts) (suc i) p t e h k = ground (arith, all-set_phase P ts i p t e)

pub all-snoc :
    (P : Thread → Bool) (ts : List Thread) (t : Thread)
    → all P ts ≡ true
    → P t ≡ true
    → all P (ts ++ t ∷ []) ≡ true
all-snoc P [] t h k = ground arith
all-snoc P (u ∷ ts) t h k = ground (arith, all-snoc P ts t)

pub all-get_elem? :
    (P : Thread → Bool) (ts : List Thread) (i : ℕ) (t : Thread)
    → get_elem? ts i ≡ some t
    → all P ts ≡ true
    → P t ≡ true
all-get_elem? P [] i t e h = cc
all-get_elem? P (u ∷ ts) zero t e h = ground arith
all-get_elem? P (u ∷ ts) (suc i) t e h = ground (arith, all-get_elem? P ts i t e)

-- A write sets a status and unsets none.
pub status_of-put :
    (name m : String) (v : StepStatus) (statuses : Dict StepStatus)
    → status_of (put name v statuses) m ≡ (if str_eq name m then v else status_of statuses m)
status_of-put name m v statuses = get_or-put name m StepStatus.unset v statuses

and_true : (a b : Bool) → (a && b) ≡ true → (a ≡ true) × (b ≡ true)
and_true a b h = ground arith

true_and : (a b : Bool) → a ≡ true → b ≡ true → (a && b) ≡ true
true_and a b h k = ground arith

set_after_put :
    (v : StepStatus) (b written : Bool) (old : StepStatus)
    → is_unset v ≡ false
    → (not written || not (is_unset old)) ≡ true
    → (not written || not (is_unset (if b then v else old))) ≡ true
set_after_put v true false old h k = refl
set_after_put v true true old h k = rw h
set_after_put v false written old h k = k

pub settled-put :
    (name : String) (v : StepStatus) (statuses : Dict StepStatus) (t : Thread)
    → is_unset v ≡ false
    → settled statuses t ≡ true
    → settled (put name v statuses) t ≡ true
settled-put name v statuses t h k =
    rw (status_of-put name t.name v statuses)
      (set_after_put v (str_eq name t.name) (is_written t.phase) (status_of statuses t.name) h k)

pub all-settled-put :
    (name : String) (v : StepStatus) (statuses : Dict StepStatus) (ts : List Thread)
    → is_unset v ≡ false
    → all (settled statuses) ts ≡ true
    → all (settled (put name v statuses)) ts ≡ true
all-settled-put name v statuses [] h k = refl
all-settled-put name v statuses (t ∷ ts) h k =
    let (head, tail) = and_true (settled statuses t) _ k in
    true_and _ _ (settled-put name v statuses t h head) (all-settled-put name v statuses ts h tail)

pub all_set-put :
    (name : String) (v : StepStatus) (statuses : Dict StepStatus) (ds : List String)
    → count name ds ≡ 0
    → all_set (put name v statuses) ds ≡ all_set statuses ds
all_set-put name v statuses [] h = refl
all_set-put name v statuses (d ∷ ds) h = ground (
  arith,
  status_of-put name d v statuses,
  eq_iff name d,
  eq_iff d name,
  all_set-put name v statuses ds,
)

count-children_among :
    (d name : String) (es : List String) (m : String)
    → count m (children_among d name es) ≡ (if str_eq name m then count d es else 0)
count-children_among d name [] m = ground arith
count-children_among d name (e ∷ es) m = ground (arith, count-children_among d name es m)

-- A step stands among the children of each of its dependencies.
pub count-children :
    (steps : List Step) (d m : String)
    → is_known steps m ≡ true
    → ltb 0 (count d (deps_by_name steps m)) ≡ true
    → ltb 0 (count m (children steps d)) ≡ true
unfolding is_known deps_by_name children
count-children [] d m k h = cc
count-children (s ∷ steps) d m k h = ground (
  arith,
  count-append m (children_among d s.name s.depends_on) (children steps d),
  count-children_among d s.name s.depends_on m,
  count-children steps d m,
)

pub count-ready_children :
    (steps : List Step) (statuses : Dict StepStatus) (cs : List String) (m : String)
    → ltb 0 (count m cs) ≡ true
    → all_set statuses (deps_by_name steps m) ≡ true
    → ltb 0 (count m (ready_children steps statuses cs)) ≡ true
unfolding ready_children
count-ready_children steps statuses [] m h k = cc
count-ready_children steps statuses (c ∷ cs) m h k =
    ground (arith, eq_iff c m, count-ready_children steps statuses cs m)

-- Each step of the list is found by its name.
abbrev pub AreFound : List Step → List Step → Type 0
AreFound steps todo =
    All (λ x. (is_known steps x.name ≡ true) × (deps_by_name steps x.name ≡ x.depends_on)) todo
