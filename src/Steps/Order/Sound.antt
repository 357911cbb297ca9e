-- ===== src/Steps/Order/Sound.antt =====
-- The order that orderSteps returns is a topological order of the steps.
use pici.Base.{
  ℕ, ◌*◌, ◌≤◌, String, ◌≡◌, refl, true, ◌&&◌, Option, none, some, List, [], ◌∷◌, arith, eq_iff,
  if◌then◌else◌, length, ℤ, pos, is_zero, Dict, get_or, count, count-eq_of_length,
}
use pici.Config.{Step, step_names}
use pici.Steps.{
  OrderResult, ok, err, Graph, is_known, degree, neighbours, add_steps, initial_queue, drain,
  checked, empty_graph, order_from, order_steps,
}
use pici.Steps.Order.Edges.{
  deps, nodup, known_iff_count, deps_of_unknown, add_steps-degree, add_steps-neighbours,
}
use pici.Steps.Order.Rounds.{missing-nil, IsOrdered, Inv, Inv-drain}

count-initial_queue :
    (steps : List Step) (deg : Dict ℤ) (m : String)
    → nodup (step_names steps) ≡ true
    → count m (initial_queue steps deg)
      ≡ (if is_known steps m && is_zero (degree deg m) then 1 else 0)
unfolding initial_queue is_known
count-initial_queue [] deg m u = refl
count-initial_queue (s ∷ steps) deg m u =
    ground (arith, count-initial_queue steps deg m, eq_iff s.name m, known_iff_count steps m)

module _ (steps : List Step) (unique : nodup (step_names steps) ≡ true) (g : Graph)
    (built : add_steps steps steps empty_graph ≡ ok g) where
  degrees : (m : String) → degree g.in_degree m ≡ pos (length (deps steps m))
  degrees m = ground (
    arith,
    add_steps-degree steps steps empty_graph g m unique built,
    deps_of_unknown steps m,
    start,
  )
    where
      start : degree empty_graph.in_degree m ≡ pos 0
      start = unfold get_or in refl

  edges : (n m : String) → count m (neighbours g.adj n) ≡ count n (deps steps m)
  edges n m = omega (arith, add_steps-neighbours steps steps empty_graph g n m unique built, start)
    where
      start : count m (neighbours empty_graph.adj n) ≡ 0
      start = unfold get_or in refl

  Inv-start : Inv steps g.adj g.in_degree (initial_queue steps g.in_degree) []
  Inv-start = record {
    degrees = λ m. ground (arith, degrees m, missing-nil (deps steps m));
    places = λ m. ground (
      arith,
      degrees m,
      missing-nil (deps steps m),
      count-initial_queue steps g.in_degree m unique,
    );
    ordered = tt;
  }

  pub Inv-final :
      (fuel : ℕ) (order : List String)
      → drain fuel g.adj g.in_degree (initial_queue steps g.in_degree) [] ≡ some order
      → (last : Dict ℤ) × Inv steps g.adj last [] order
  Inv-final fuel order =
      Inv-drain steps g.adj edges fuel g.in_degree (initial_queue steps g.in_degree) [] order
        Inv-start

checked-ok :
    (steps : List Step) (r : Option (List String)) (order : List String)
    → checked steps r ≡ ok order
    → (r ≡ some order) × (length order ≡ length steps)
unfolding checked
checked-ok steps none order e = cc
checked-ok steps (some found) order e = ground arith

pub length-step_names : (steps : List Step) → length (step_names steps) ≡ length steps
length-step_names [] = refl
length-step_names (s ∷ steps) = omega (arith, length-step_names steps)

order_from-ok :
    (steps : List Step) (r : OrderResult Graph) (order : List String)
    → order_from steps r ≡ ok order
    → (g : Graph) × (r ≡ ok g)
      × (drain (2 * length steps) g.adj g.in_degree (initial_queue steps g.in_degree) []
          ≡ some order)
      × (length order ≡ length steps)
unfolding order_from
order_from-ok steps (ok g) order e =
    let ran = drain (2 * length steps) g.adj g.in_degree (initial_queue steps g.in_degree) [] in
    let (found, len) = checked-ok steps ran order e in (g, refl, found, len)
order_from-ok steps (err x) order e = cc

-- If the names of the steps are distinct, an order that orderSteps returns holds each step exactly
-- as often as the workflow does, each behind all of its dependencies.
pub order_steps_sound :
    (steps : List Step) (order : List String)
    → nodup (step_names steps) ≡ true
    → order_steps steps ≡ ok order
    → IsOrdered steps [] order × ((m : String) → count m order ≡ count m (step_names steps))
order_steps_sound steps order unique e =
    let (g, built, ran, len) =
      order_from-ok steps (add_steps steps steps empty_graph) order (unfold order_steps in e) in
    let (last, inv) = Inv-final steps unique g built (2 * length steps) order ran in
    let once : (m : String) → count m order ≤ count m (step_names steps) =
      λ m. ground (arith, inv.places m, known_iff_count steps m unique) in
    (
      inv.ordered,
      count-eq_of_length order (step_names steps) once
          (omega (arith, len, length-step_names steps)),
    )
