-- ===== src/Steps/Order/Rounds.antt =====
-- The rounds of orderSteps and their invariant.
use pici.Base.{
  ℕ, zero, suc, ◌+◌, ◌-◌, ◌≤◌, String, ◌≡◌, refl, ap, ◌∙◌, ◌&&◌, some, List, [], ◌∷◌, ◌++◌, arith,
  eq_iff, ltb, ◌==◌, str_eq, if◌then◌else◌, length, ℤ, pos, decrement, is_zero, Dict, put,
  get_or-put, count, count-append,
}
use pici.Config.{Step}
use pici.Steps.{is_known, degree, neighbours, relax, drain}
use mathlib.Core.List.{append-nil, append_assoc}
use mathlib.Core.Path.{subst}
use pici.Steps.Order.Edges.{deps, deps_of_unknown}

-- The inner loop subtracts from each degree the number of edges.
pub relax-degree :
    (ms : List String) (deg : Dict ℤ) (queue : List String) (m : String) (r : ℕ)
    → degree deg m ≡ pos r
    → count m ms ≤ r
    → degree (relax ms deg queue).0 m ≡ pos (r - count m ms)
unfolding relax
relax-degree [] deg queue m r e h = ground arith
relax-degree (k ∷ ms) deg queue m r e h =
    let deg' = put k (decrement (degree deg k)) deg in
    let queue' = if is_zero (degree deg' k) then queue ++ k ∷ [] else queue in
    ground (
      arith,
      relax-degree ms deg' queue' m (if str_eq k m then r - 1 else r),
      get_or-put k m (pos 0) (decrement (degree deg k)) deg,
      eq_iff k m,
    )

-- It queues a name once, if its degree falls to 0.
pub relax-queue :
    (ms : List String) (deg : Dict ℤ) (queue : List String) (m : String) (r : ℕ)
    → degree deg m ≡ pos r
    → count m ms ≤ r
    → count m (relax ms deg queue).1
      ≡ count m queue + (if ltb 0 r && (r == count m ms) then 1 else 0)
unfolding relax
relax-queue [] deg queue m r e h = ground arith
relax-queue (k ∷ ms) deg queue m r e h =
    let deg' = put k (decrement (degree deg k)) deg in
    let queue' = if is_zero (degree deg' k) then queue ++ k ∷ [] else queue in
    ground (
      arith,
      relax-queue ms deg' queue' m (if str_eq k m then r - 1 else r),
      get_or-put k m (pos 0) (decrement (degree deg k)) deg,
      get_or-put k k (pos 0) (decrement (degree deg k)) deg,
      count-append m queue (k ∷ []),
      eq_iff k k,
      eq_iff k m,
    )

-- How many entries of a list of dependencies are not in `done`.
abbrev pub missing : List String → List String → ℕ
missing done [] = 0
missing done (d ∷ ds) = (if count d done == 0 then 1 else 0) + missing done ds

pub missing-snoc :
    (done : List String) (n : String) (ds : List String)
    → count n done ≡ 0
    → missing (done ++ n ∷ []) ds + count n ds ≡ missing done ds
missing-snoc done n [] h = omega arith
missing-snoc done n (d ∷ ds) h =
    ground (arith, count-append d done (n ∷ []), eq_iff n d, eq_iff d n, missing-snoc done n ds)

pub missing-nil : (ds : List String) → missing [] ds ≡ length ds
missing-nil [] = refl
missing-nil (d ∷ ds) = omega (arith, missing-nil ds)

-- Each name of the list stands behind its dependencies, which are in `seen` or before it.
abbrev pub IsOrdered : List Step → List String → List String → Type 0
IsOrdered steps seen [] = Unit
IsOrdered steps seen (x ∷ xs) =
    (missing seen (deps steps x) ≡ 0) × IsOrdered steps (seen ++ x ∷ []) xs

IsOrdered-snoc :
    (steps : List Step) (seen xs : List String) (n : String)
    → IsOrdered steps seen xs
    → missing (seen ++ xs) (deps steps n) ≡ 0
    → IsOrdered steps seen (xs ++ n ∷ [])
IsOrdered-snoc steps seen [] n h e = (rw append-nil at e, tt)
IsOrdered-snoc steps seen (x ∷ xs) n h e =
    (h.0, IsOrdered-snoc steps (seen ++ x ∷ []) xs n h.1 (rw (append_assoc seen (x ∷ []) xs) e))

module _ (steps : List Step) (adj : Dict (List String)) where
  -- The state between two rounds. A name is placed, in the queue or in the order, exactly once it
  -- is a step whose dependencies are all in the order.
  pub record Inv (deg : Dict ℤ) (queue order : List String) : Type 0 where
    pub degrees : (m : String) → degree deg m ≡ pos (missing order (deps steps m))
    pub places :
        (m : String)
        → count m order + count m queue
          ≡ (if is_known steps m && (missing order (deps steps m) == 0) then 1 else 0)
    pub ordered : IsOrdered steps [] order

  module _ (edges : (n m : String) → count m (neighbours adj n) ≡ count n (deps steps m))
      (deg : Dict ℤ) (n : String) (queue order : List String)
      (inv : Inv deg (n ∷ queue) order) where
    fresh : count n order ≡ 0
    fresh = ground (arith, inv.places n, eq_iff n n)

    complete : missing order (deps steps n) ≡ 0
    complete = ground (arith, inv.places n, eq_iff n n)

    fits : (m : String) → count m (neighbours adj n) ≤ missing order (deps steps m)
    fits m = omega (arith, edges n m, missing-snoc order n (deps steps m) fresh)

    round-degrees :
        (m : String)
        → degree (relax (neighbours adj n) deg queue).0 m
          ≡ pos (missing (order ++ n ∷ []) (deps steps m))
    round-degrees m =
        relax-degree (neighbours adj n) deg queue m (missing order (deps steps m)) (inv.degrees m)
          (fits m)
        ∙ ap pos (omega (arith, edges n m, missing-snoc order n (deps steps m) fresh))

    round-places :
        (m : String)
        → count m (order ++ n ∷ []) + count m (relax (neighbours adj n) deg queue).1
          ≡ (if is_known steps m && (missing (order ++ n ∷ []) (deps steps m) == 0) then 1 else 0)
    round-places m = ground (
      arith,
      inv.places m,
      edges n m,
      missing-snoc order n (deps steps m) fresh,
      relax-queue (neighbours adj n) deg queue m (missing order (deps steps m)) (inv.degrees m)
          (fits m),
      count-append m order (n ∷ []),
      deps_of_unknown steps m,
    )

    pub Inv-round : let r = relax (neighbours adj n) deg queue in Inv r.0 r.1 (order ++ n ∷ [])
    Inv-round = record {
      degrees = round-degrees;
      places = round-places;
      ordered = IsOrdered-snoc steps [] order n inv.ordered complete;
    }

  -- The loop ends in a state with an empty queue.
  pub Inv-drain :
      ((n m : String) → count m (neighbours adj n) ≡ count n (deps steps m))
      → (fuel : ℕ) (deg : Dict ℤ) (queue order final : List String) → Inv deg queue order
      → drain fuel adj deg queue order ≡ some final
      → (last : Dict ℤ) × Inv last [] final
  unfolding drain
  Inv-drain edges fuel deg [] order final inv e = (deg, subst (Inv deg []) (cc) inv)
  Inv-drain edges zero deg (n ∷ queue) order final inv e = cc
  Inv-drain edges (suc fuel) deg (n ∷ queue) order final inv e =
      let r = relax (neighbours adj n) deg queue in
      Inv-drain edges fuel r.0 r.1 (order ++ n ∷ []) final (Inv-round edges deg n queue order inv) e
