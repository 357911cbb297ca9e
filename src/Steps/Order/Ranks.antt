-- ===== src/Steps/Order/Ranks.antt =====
-- The order that orderSteps returns ranks the steps.
use pici.Base.{
  ℕ, ◌+◌, ◌≤◌, ◌<◌, String, ◌≡◌, sym, inl, inr, true, false, List, [], ◌∷◌, ◌++◌, arith, eq_iff,
  str_eq, if◌then◌else◌, Bool-cases, length, All, count, count-append,
}
use mathlib.Core.List.{append_assoc}
use pici.Config.{Step, step_names}
use pici.Steps.{is_known, find_step, ok, order_steps}
use pici.Steps.Order.Edges.{deps, nodup, count-le_one, known_iff_count}
use pici.Steps.Order.Rounds.{missing, IsOrdered}
use pici.Steps.Order.Complete.{all_known, IsRanked}
use pici.Steps.Order.Sound.{order_steps_sound}
use pici.Steps.Order.Unknown.{order_steps_unknown}

-- The place of a name in an order.
abbrev pub position : List String → String → ℕ
position [] n = 0
position (x ∷ xs) n = if str_eq x n then 0 else 1 + position xs n

missing-all : (seen ds : List String) → missing seen ds ≡ 0 → All (λ d. 0 < count d seen) ds
missing-all seen [] h = tt
missing-all seen (d ∷ ds) h = (ground arith, missing-all seen ds (ground arith))

position-lt :
    (seen xs : List String) (d : String) → 0 < count d seen → position (seen ++ xs) d < length seen
position-lt [] xs d h = absurd (omega arith)
position-lt (x ∷ seen) xs d h = ground (arith, position-lt seen xs d)

position-new :
    (seen xs : List String) (x : String)
    → count x seen ≡ 0
    → position (seen ++ x ∷ xs) x ≡ length seen
position-new [] xs x h = ground (arith, eq_iff x x)
position-new (y ∷ seen) xs x h = ground (arith, position-new seen xs x)

All-below :
    (seen xs ds : List String) (m : ℕ)
    → m ≡ length seen
    → All (λ d. 0 < count d seen) ds
    → All (λ d. position (seen ++ xs) d < m) ds
All-below seen xs [] m e h = tt
All-below seen xs (d ∷ ds) m e h =
    (omega (arith, position-lt seen xs d h.0), All-below seen xs ds m e h.1)

ordered-deps :
    (steps : List Step) (seen xs : List String) (m : String)
    → IsOrdered steps seen xs
    → count m (seen ++ xs) ≤ 1
    → 0 < count m xs
    → All (λ d. position (seen ++ xs) d < position (seen ++ xs) m) (deps steps m)
ordered-deps steps seen [] m o once h = absurd (omega arith)
ordered-deps steps seen (x ∷ xs) m o once h = elim (Bool-cases (str_eq x m)) [
  | inl own ↦
      let same = (eq_iff x m).0 own in
      let new : count x seen ≡ 0 = ground (arith, count-append m seen (x ∷ xs), same) in
      rw (sym same) (
        All-below seen (x ∷ xs) (deps steps x) (position (seen ++ x ∷ xs) x)
          (position-new seen xs x new) (missing-all seen (deps steps x) o.0))
  | inr other ↦ rw (append_assoc seen (x ∷ []) xs) at (
      ordered-deps steps (seen ++ x ∷ []) xs m o.1 (rw (append_assoc seen (x ∷ []) xs) once)
        (ground arith))
]

-- With distinct names, the step of a name is that step.
AreOwn : List Step → List Step → Type 0
AreOwn steps todo =
    All (λ s. (is_known steps s.name ≡ true) × (deps steps s.name ≡ s.depends_on)) todo

AreOwn-cons :
    (s : Step) (steps todo : List Step)
    → is_known steps s.name ≡ false
    → AreOwn steps todo
    → AreOwn (s ∷ steps) todo
unfolding AreOwn is_known deps find_step
AreOwn-cons s steps [] new f = tt
AreOwn-cons s steps (x ∷ todo) new f = (
  (ground (arith, f.0, eq_iff s.name x.name), ground (arith, f.0, eq_iff s.name x.name)),
  AreOwn-cons s steps todo new f.1,
)

AreOwn-self : (steps : List Step) → nodup (step_names steps) ≡ true → AreOwn steps steps
unfolding AreOwn is_known deps find_step
AreOwn-self [] u = tt
AreOwn-self (s ∷ steps) u =
    let new : is_known steps s.name ≡ false = ground (arith, known_iff_count steps s.name) in
    (
      (ground (arith, eq_iff s.name s.name), ground (arith, eq_iff s.name s.name)),
      AreOwn-cons s steps steps new (AreOwn-self steps (ground arith)),
    )

IsRanked-by :
    (steps todo : List Step) (order : List String)
    → AreOwn steps todo
    → ((m : String)
        → is_known steps m ≡ true
        → All (λ d. position order d < position order m) (deps steps m))
    → IsRanked (position order) todo
unfolding AreOwn
IsRanked-by steps [] order f h = tt
IsRanked-by steps (s ∷ todo) order f h =
    (rw f.0.1 at (h s.name f.0.0), IsRanked-by steps todo order f.1 h)

-- If orderSteps returns an order for steps with distinct names, every dependency is a step, and the
-- places in the order rank each step above its dependencies: there is no cycle.
pub order_steps-IsRanked :
    (steps : List Step) (order : List String)
    → nodup (step_names steps) ≡ true
    → order_steps steps ≡ ok order
    → (all_known steps steps ≡ true) × IsRanked (position order) steps
order_steps-IsRanked steps order u h =
    let (ordered, same) = order_steps_sound steps order u h in
    (
      elim (Bool-cases (all_known steps steps)) [
        | inl yes_known ↦ yes_known
        | inr lost ↦ let w = order_steps_unknown steps lost in cc (h, w.2)
      ],
      IsRanked-by steps steps order (AreOwn-self steps u) (λ m k.
          ordered-deps steps [] order m ordered
            (omega (arith, same m, count-le_one m (step_names steps) u))
            (ground (arith, same m, known_iff_count steps m, k))),
    )
