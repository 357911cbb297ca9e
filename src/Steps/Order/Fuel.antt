-- ===== src/Steps/Order/Fuel.antt =====
-- The loop of orderSteps ends: its queue is filled once for each step.
use pici.Base.{
  ℕ, zero, suc, ◌+◌, ◌*◌, ◌≤◌, String, ◌≡◌, refl, ◌≢◌, ◌⊎◌, inl, inr, Bool, true, false, ◌||◌,
  Option, none, some, List, [], ◌∷◌, ◌++◌, arith, eq_iff, str_eq, if◌then◌else◌, Bool-cases, length,
  length-append, ℤ, pos, negsuc, decrement, increment, is_zero, is_positive, Dict, get_or, put,
}
use pici.Config.{Step}
use pici.Steps.{
  OrderError, out_of_fuel, OrderResult, ok, err, Graph, is_known, degree, neighbours,
  add_dependencies, add_steps, initial_queue, relax, drain, checked, empty_graph, order_from,
  order_steps,
}

-- How many names have a positive degree.
abbrev pub open_entries : Dict ℤ → ℕ
open_entries [] = 0
open_entries ((k, v) ∷ m) = (if is_positive v then 1 else 0) + open_entries m

open_entries-put :
    (k : String) (m : Dict ℤ)
    → let m' = put k (decrement (degree m k)) m in
      open_entries m' + (if is_zero (degree m' k) then 1 else 0) ≤ open_entries m
unfolding put get_or
open_entries-put k [] = ground (arith, eq_iff k k)
open_entries-put k ((j, pos zero) ∷ m) = ground (arith, open_entries-put k m)
open_entries-put k ((j, pos (suc n)) ∷ m) = ground (arith, open_entries-put k m)
open_entries-put k ((j, negsuc n) ∷ m) = ground (arith, open_entries-put k m)

relax-le :
    (ms : List String) (m : Dict ℤ) (queue : List String)
    → let r = relax ms m queue in open_entries r.0 + length r.1 ≤ open_entries m + length queue
unfolding relax
relax-le [] m queue = omega arith
relax-le (k ∷ ms) m queue = ground (
  arith,
  open_entries-put k m,
  length-append queue (k ∷ []),
  relax-le ms (put k (decrement (degree m k)) m) (queue ++ k ∷ []),
  relax-le ms (put k (decrement (degree m k)) m) queue,
)

pub drain-ne-none :
    (fuel : ℕ) (adj : Dict (List String)) (m : Dict ℤ) (queue order : List String)
    → open_entries m + length queue ≤ fuel
    → drain fuel adj m queue order ≢ none
unfolding drain
drain-ne-none fuel adj m [] order h = λ e. cc
drain-ne-none zero adj m (n ∷ queue) order h = absurd (omega arith)
drain-ne-none (suc fuel) adj m (n ∷ queue) order h =
    let r = relax (neighbours adj n) m queue in
    drain-ne-none fuel adj r.0 r.1 (order ++ n ∷ [])
      (omega (arith, relax-le (neighbours adj n) m queue))

length-put-le : {V : Type 0} (k : String) (v : V) (m : Dict V) → length (put k v m) ≤ length m + 1
unfolding put
length-put-le k v [] = omega arith
length-put-le k v ((j, w) ∷ m) = ground (arith, length-put-le k v m)

abbrev has : {V : Type 0} → String → Dict V → Bool
has k [] = false
has k ((j, v) ∷ m) = str_eq j k || has k m

has-put : {V : Type 0} (k : String) (v : V) (m : Dict V) → has k (put k v m) ≡ true
unfolding put
has-put k v [] = ground (arith, eq_iff k k)
has-put k v ((j, w) ∷ m) = ground (arith, has-put k v m)

length-put_of_has :
    {V : Type 0} (k : String) (v : V) (m : Dict V) → has k m ≡ true → length (put k v m) ≡ length m
unfolding put
length-put_of_has k v [] h = cc
length-put_of_has k v ((j, w) ∷ m) h = ground (arith, length-put_of_has k v m)

pub open_entries-le : (m : Dict ℤ) → open_entries m ≤ length m
open_entries-le [] = omega arith
open_entries-le ((j, v) ∷ m) = ground (arith, open_entries-le m)

-- A graph that was built, or an error, has at most `n` entries.
abbrev pub AtMost : ℕ → OrderResult Graph → Type 0
AtMost n (ok g) = length g.in_degree ≤ n
AtMost n (err e) = (e ≢ out_of_fuel)

add_dependencies-AtMost :
    (steps : List Step) (name : String) (ds : List String) (g : Graph)
    → has name g.in_degree ≡ true
    → AtMost (length g.in_degree) (add_dependencies steps name ds g)
unfolding add_dependencies
add_dependencies-AtMost steps name [] g h = omega arith
add_dependencies-AtMost steps name (d ∷ ds) g h = elim (Bool-cases (is_known steps d)) [
  | inl e ↦
      let deg' = put name (increment (degree g.in_degree name)) g.in_degree in
      let ih =
        add_dependencies-AtMost steps name ds
          (record { in_degree = deg'; adj = put d (neighbours g.adj d ++ name ∷ []) g.adj })
          (has-put name _ g.in_degree) in
      rw e (rw (length-put_of_has name _ g.in_degree h) at ih)
  | inr e ↦ rw e (λ q. cc)
]

pub AtMost-cases :
    (n : ℕ) (r : OrderResult Graph)
    → AtMost n r
    → (((g : Graph) × (r ≡ ok g) × (length g.in_degree ≤ n))
        ⊎ ((e : OrderError) × (r ≡ err e) × (e ≢ out_of_fuel)))
AtMost-cases n (ok g) h = inl (g, refl, h)
AtMost-cases n (err e) h = inr (e, refl, h)

AtMost-le : {n k : ℕ} (r : OrderResult Graph) → AtMost n r → n ≤ k → AtMost k r
AtMost-le (ok g) h le = omega arith
AtMost-le (err e) h le = h

pub add_steps-AtMost :
    (all_steps steps : List Step) (g : Graph)
    → AtMost (length g.in_degree + length steps) (add_steps all_steps steps g)
unfolding add_steps
add_steps-AtMost all_steps [] g = omega arith
add_steps-AtMost all_steps (s ∷ steps) g =
    let m = put s.name (pos 0) g.in_degree in
    elim (AtMost-cases (length m)
      (add_dependencies all_steps s.name s.depends_on (record g { in_degree = m }))
      (add_dependencies-AtMost all_steps s.name s.depends_on (record g { in_degree = m })
        (has-put s.name (pos 0) g.in_degree))) [
          | inl (g', e, h) ↦
              rw (e, add_steps)
                (AtMost-le (add_steps all_steps steps g') (add_steps-AtMost all_steps steps g')
                  (omega (arith, length-put-le s.name (pos 0) g.in_degree)))
          | inr (x, e, h) ↦ rw (e, add_steps) h
        ]

pub length-initial_queue-le :
    (steps : List Step) (m : Dict ℤ) → length (initial_queue steps m) ≤ length steps
unfolding initial_queue
length-initial_queue-le [] m = omega arith
length-initial_queue-le (s ∷ steps) m = ground (arith, length-initial_queue-le steps m)

checked-ne-out_of_fuel :
    (steps : List Step) (r : Option (List String)) → r ≢ none → checked steps r ≢ err out_of_fuel
unfolding checked
checked-ne-out_of_fuel steps none h = absurd (h refl)
checked-ne-out_of_fuel steps (some order) h = ground arith

-- The fuel of the model suffices for every list of steps, names that occur twice included.
pub order_steps-ne-out_of_fuel : (steps : List Step) → order_steps steps ≢ err out_of_fuel
unfolding order_steps
order_steps-ne-out_of_fuel steps =
    elim (AtMost-cases (0 + length steps) (add_steps steps steps empty_graph)
      (add_steps-AtMost steps steps empty_graph)) [
        | inl (g, e, h) ↦
            rw (e, order_from)
              (checked-ne-out_of_fuel steps _ (
                drain-ne-none (2 * length steps) g.adj g.in_degree (initial_queue steps g.in_degree)
                  []
                  (omega (
                    arith,
                    open_entries-le g.in_degree,
                    length-initial_queue-le steps g.in_degree,
                  ))))
        | inr (x, e, h) ↦ rw (e, order_from) (λ q. h (cc))
      ]
