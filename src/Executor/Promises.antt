-- ===== src/Executor/Promises.antt =====
-- What the goroutines of executeSteps rely on.
use pici.Base.{
  String, ◌≡◌, refl, inl, inr, Bool, true, false, not, ◌||◌, List, [], ◌∷◌, arith, Bool-cases, all,
  Dict, put,
}
use pici.Config.{Step}
use pici.Records.{StepStatus, is_unset, is_success}
use pici.Executor.{
  Phase, waiting, entered, decided, starting, running, finishing, launching, done, Thread, State,
  status_of, deps_by_name, all_set, all_success, ready_children,
}
use pici.Executor.Cover.{status_of-put}

-- Whether the run has already failed or been canceled.
abbrev pub is_over : State → Bool
is_over s = s.failed || s.canceled

abbrev pub all_ready : List Step → Dict StepStatus → List String → Bool
all_ready steps statuses cs = all (λ c. all_set statuses (deps_by_name steps c)) cs

-- What a goroutine may rely on: its dependencies have a status until it decides, it only skips in a
-- run that is over, and the steps that it launches are ready.
abbrev pub promises : List Step → Dict StepStatus → Bool → String → Phase → Bool
promises steps statuses over name waiting = all_set statuses (deps_by_name steps name)
promises steps statuses over name entered = all_set statuses (deps_by_name steps name)
promises steps statuses over name (decided skip) = not skip || over
promises steps statuses over name (starting snapshot) = true
promises steps statuses over name running = true
promises steps statuses over name (finishing snapshot ready) = all_ready steps statuses ready
promises steps statuses over name (launching ready) = all_ready steps statuses ready
promises steps statuses over name done = true

abbrev pub promised : List Step → Dict StepStatus → Bool → Thread → Bool
promised steps statuses over t = promises steps statuses over t.name t.phase

pub all_set-put_set :
    (n : String) (v : StepStatus) (statuses : Dict StepStatus) (ds : List String)
    → is_unset v ≡ false
    → all_set statuses ds ≡ true
    → all_set (put n v statuses) ds ≡ true
all_set-put_set n v statuses [] h a = refl
all_set-put_set n v statuses (d ∷ ds) h a =
    rw (status_of-put n d v statuses) (ground (arith, all_set-put_set n v statuses ds))

all_ready-put :
    (steps : List Step) (n : String) (v : StepStatus) (statuses : Dict StepStatus)
    (cs : List String)
    → is_unset v ≡ false
    → all_ready steps statuses cs ≡ true
    → all_ready steps (put n v statuses) cs ≡ true
all_ready-put steps n v statuses [] h a = refl
all_ready-put steps n v statuses (c ∷ cs) h a = ground (
  arith,
  all_set-put_set n v statuses (deps_by_name steps c),
  all_ready-put steps n v statuses cs,
)

pub promises-put :
    (steps : List Step) (n : String) (v : StepStatus) (statuses : Dict StepStatus)
    (over more : Bool) (name : String) (p : Phase)
    → is_unset v ≡ false
    → promises steps statuses over name p ≡ true
    → promises steps (put n v statuses) (over || more) name p ≡ true
promises-put steps n v statuses over more name waiting h a =
    all_set-put_set n v statuses (deps_by_name steps name) h a
promises-put steps n v statuses over more name entered h a =
    all_set-put_set n v statuses (deps_by_name steps name) h a
promises-put steps n v statuses over more name (decided skip) h a = ground arith
promises-put steps n v statuses over more name (starting snapshot) h a = refl
promises-put steps n v statuses over more name running h a = refl
promises-put steps n v statuses over more name (finishing snapshot ready) h a =
    all_ready-put steps n v statuses ready h a
promises-put steps n v statuses over more name (launching ready) h a =
    all_ready-put steps n v statuses ready h a
promises-put steps n v statuses over more name done h a = refl

pub all-promised-put :
    (steps : List Step) (n : String) (v : StepStatus) (statuses : Dict StepStatus)
    (over more : Bool) (ts : List Thread)
    → is_unset v ≡ false
    → all (promised steps statuses over) ts ≡ true
    → all (promised steps (put n v statuses) (over || more)) ts ≡ true
all-promised-put steps n v statuses over more [] h a = refl
all-promised-put steps n v statuses over more (t ∷ ts) h a =
    elim (Bool-cases (promised steps statuses over t)) [
      | inr no_promise ↦ absurd (cc (rw no_promise at a))
      | inl kept ↦
          rw (promises-put steps n v statuses over more t.name t.phase h kept)
            (all-promised-put steps n v statuses over more ts h (rw kept at a))
    ]

pub ready_children-all_ready :
    (steps : List Step) (statuses : Dict StepStatus) (cs : List String)
    → all_ready steps statuses (ready_children steps statuses cs) ≡ true
unfolding ready_children
ready_children-all_ready steps statuses [] = refl
ready_children-all_ready steps statuses (c ∷ cs) =
    elim (Bool-cases (all_set statuses (deps_by_name steps c))) [
      | inl y ↦ rw (y, y) (ready_children-all_ready steps statuses cs)
      | inr n ↦ rw n (ready_children-all_ready steps statuses cs)
    ]

-- A status that a run which is not over may show.
abbrev pub is_fine : Bool → StepStatus → Bool
is_fine over v = is_unset v || is_success v || over

pub skip_is_over :
    (statuses : Dict StepStatus) (over : Bool) (ds : List String)
    → ((m : String) → is_fine over (status_of statuses m) ≡ true)
    → all_set statuses ds ≡ true
    → (all_success statuses ds || over) ≡ true
skip_is_over statuses over [] f a = refl
skip_is_over statuses over (d ∷ ds) f a = ground (arith, f d, skip_is_over statuses over ds f)
