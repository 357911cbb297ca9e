-- ===== src/Steps/Order/Complete.antt =====
-- A workflow without a cycle is ordered.
use pici.Base.{
  ℕ, zero, suc, ◌+◌, ◌*◌, ◌≤◌, ◌<◌, String, ◌≡◌, refl, ◌≢◌, inl, inr, Bool, true, none, some, List,
  [], ◌∷◌, ◌++◌, arith, eq_iff, str_eq, Bool-cases, Option-cases, length, all, All, ℤ, pos,
  increment, Dict, put, count, length-le_of_count,
}
use pici.Config.{Step, step_names}
use pici.Steps.{
  ok, Graph, is_known, degree, neighbours, add_dependencies, add_steps, initial_queue, drain,
  checked, empty_graph, order_from, order_steps,
}
use pici.Steps.Order.Fuel.{
  AtMost, add_steps-AtMost, drain-ne-none, open_entries-le, length-initial_queue-le,
}
use pici.Steps.Order.Edges.{deps, nodup, known_iff_count, add_steps-known}
use pici.Steps.Order.Rounds.{missing, Inv}
use mathlib.Core.Path.{subst}
use pici.Steps.Order.Sound.{Inv-final, length-step_names}

-- Every dependency is a step of the workflow.
abbrev pub all_known : List Step → List Step → Bool
all_known all_steps steps = all (λ s. all (is_known all_steps) s.depends_on) steps

-- `rank` puts every dependency below its step: the dependencies have no cycle.
abbrev pub IsRanked : (String → ℕ) → List Step → Type 0
IsRanked rank steps = All (λ s. All (λ d. rank d < rank s.name) s.depends_on) steps

pub add_dependencies_total :
    (steps : List Step) (name : String) (ds : List String) (g : Graph)
    → all (is_known steps) ds ≡ true
    → (g' : Graph) × (add_dependencies steps name ds g ≡ ok g')
unfolding add_dependencies
add_dependencies_total steps name [] g h = (g, refl)
add_dependencies_total steps name (d ∷ ds) g h =
    let next : Graph = record {
      in_degree = put name (increment (degree g.in_degree name)) g.in_degree;
      adj = put d (neighbours g.adj d ++ name ∷ []) g.adj;
    } in
    let (g', e) = add_dependencies_total steps name ds next (ground arith) in (g', ground arith)

add_steps_total :
    (all_steps steps : List Step) (g : Graph)
    → all_known all_steps steps ≡ true
    → (g' : Graph) × (add_steps all_steps steps g ≡ ok g')
unfolding add_steps
add_steps_total all_steps [] g h = (g, refl)
add_steps_total all_steps (s ∷ steps) g h =
    let (mid, e) =
      add_dependencies_total all_steps s.name s.depends_on
        (record g { in_degree = put s.name (pos 0) g.in_degree }) (ground arith) in
    let (g', e') = add_steps_total all_steps steps mid (ground arith) in (g', rw (e, add_steps) e')

deps-ranked :
    (rank : String → ℕ) (steps : List Step) (m : String)
    → IsRanked rank steps
    → All (λ d. rank d < rank m) (deps steps m)
unfolding deps
deps-ranked rank [] m h = tt
deps-ranked rank (s ∷ steps) m h = elim (Bool-cases (str_eq s.name m)) [
  | inl e ↦
      rw (e, All) (subst (λ n. All (λ d. rank d < rank n) s.depends_on) ((eq_iff s.name m).0 e) h.0)
  | inr e ↦ rw (e, All) (deps-ranked rank steps m h.1)
]

-- Nothing is missing if every dependency is in the order.
missing-zero :
    (k : ℕ) (rank : String → ℕ) (known : String → Bool) (order ds : List String)
    → ((d : String) → rank d < k → known d ≡ true → count d order ≡ 1)
    → All (λ d. rank d < k) ds
    → all known ds ≡ true
    → missing order ds ≡ 0
missing-zero k rank known order [] f h a = refl
missing-zero k rank known order (d ∷ ds) f h a =
    ground (arith, f d, missing-zero k rank known order ds f h.1, h.0)

All-weaken :
    (rank : String → ℕ) (j k : ℕ) (ds : List String)
    → j ≤ k
    → All (λ d. rank d < j) ds
    → All (λ d. rank d < k) ds
All-weaken rank j k [] le h = tt
All-weaken rank j k (d ∷ ds) le h = (omega arith, All-weaken rank j k ds le h.1)

-- By induction on the rank every step is in the final order.
placed :
    (rank : String → ℕ) (steps : List Step) (adj : Dict (List String)) (last : Dict ℤ)
    (order : List String)
    → IsRanked rank steps
    → ((m : String) → all (is_known steps) (deps steps m) ≡ true)
    → Inv steps adj last [] order
    → (k : ℕ) (m : String) → rank m < k
    → is_known steps m ≡ true
    → count m order ≡ 1
placed rank steps adj last order ranked known inv zero m h e = absurd (omega arith)
placed rank steps adj last order ranked known inv (suc k) m h e =
    let none_missing =
      missing-zero k rank (is_known steps) order (deps steps m)
        (λ d. placed rank steps adj last order ranked known inv k d)
        (All-weaken rank (rank m) k (deps steps m) (omega arith) (deps-ranked rank steps m ranked))
        (known m) in
    ground (arith, inv.places m)

drain_total :
    (steps : List Step) (g : Graph)
    → add_steps steps steps empty_graph ≡ ok g
    → drain (2 * length steps) g.adj g.in_degree (initial_queue steps g.in_degree) [] ≢ none
drain_total steps g built =
    let few : AtMost (0 + length steps) (ok g) =
      subst (AtMost (0 + length steps)) built (add_steps-AtMost steps steps empty_graph) in
    drain-ne-none (2 * length steps) g.adj g.in_degree (initial_queue steps g.in_degree) []
      (omega (arith, few, open_entries-le g.in_degree, length-initial_queue-le steps g.in_degree))

order_steps-of_drain :
    (steps : List Step) (g : Graph) (order : List String)
    → add_steps steps steps empty_graph ≡ ok g
    → drain (2 * length steps) g.adj g.in_degree (initial_queue steps g.in_degree) [] ≡ some order
    → length order ≡ length steps
    → order_steps steps ≡ ok order
unfolding order_steps
order_steps-of_drain steps g order built ran len =
    rw (built, order_from) (rw (ran, checked) (ground arith))

length-eq_of_count :
    (xs ys : List String) → ((a : String) → count a xs ≡ count a ys) → length xs ≡ length ys
length-eq_of_count xs ys h = omega (
  arith,
  length-le_of_count xs ys (λ a. omega (arith, h a)),
  length-le_of_count ys xs (λ a. omega (arith, h a)),
)

-- A workflow whose steps have distinct names, whose dependencies are all steps of it and have no
-- cycle is ordered: orderSteps reports no error.
pub order_steps_complete :
    (rank : String → ℕ) (steps : List Step)
    → nodup (step_names steps) ≡ true
    → all_known steps steps ≡ true
    → IsRanked rank steps
    → (order : List String) × (order_steps steps ≡ ok order)
order_steps_complete rank steps unique known ranked =
    let (g, built) = add_steps_total steps steps empty_graph known in
    let ran = drain (2 * length steps) g.adj g.in_degree (initial_queue steps g.in_degree) [] in
    elim (Option-cases ran) [
      | inl e ↦ absurd (drain_total steps g built e)
      | inr (order, e) ↦
          let (last, inv) = Inv-final steps unique g built (2 * length steps) order e in
          let same : (m : String) → count m order ≡ count m (step_names steps) = λ m. ground (
            arith,
            inv.places m,
            known_iff_count steps m unique,
            placed rank steps g.adj last order ranked
                (λ d. add_steps-known steps steps empty_graph g d built) inv (suc (rank m)) m,
          ) in
          (
            order,
            order_steps-of_drain steps g order built e (
                omega (
                  arith,
                  length-step_names steps,
                  length-eq_of_count order (step_names steps) same,
                )),
          )
    ]
