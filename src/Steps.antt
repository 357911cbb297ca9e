-- ===== src/Steps.antt =====
-- internal/ci/step.go: the order of a workflow's steps.
pub mod Order
use pici.Base.{
  ℕ, zero, suc, ◌+◌, ◌-◌, ◌*◌, ◌≤◌, ◌<◌, String, ◌≡◌, refl, sym, ap, ◌∙◌, ◌≢◌, ◌↔◌, ◌⊎◌, inl, inr,
  Bool, true, false, not, ◌&&◌, ◌||◌, Option, none, some, List, [], ◌∷◌, ◌++◌, map, arith, eq_iff,
  ltb, leb, ◌==◌, str_eq, if◌then◌else◌, ==_iff, Bool-cases, Option-cases, length, get_elem?, any,
  all, drop, take, All, length-append, Text, codes, has_prefix, contains, ℤ, pos, negsuc, decrement,
  increment, is_zero, is_negative, is_positive, Dict, get, get_or, put, get_or-put, get-put, count,
  count-append, length-le_of_count, count-eq_of_length,
}
use pici.Config.{Step, empty_step, step_names}

pub data OrderError : Type 0 where
  unknown_dependency : (step dependency : String) → OrderError
  cycle : OrderError
  -- not an error of the program: the model's fuel is used up
  out_of_fuel : OrderError

pub data OrderResult (A : Type 0) : Type 0 where
  ok : A → OrderResult A
  err : OrderError → OrderResult A

pub record Graph : Type 0 where
  pub in_degree : Dict ℤ
  pub adj : Dict (List String)

-- names[d]
unfoldable pub is_known : List Step → String → Bool
is_known steps d = any (λ s. str_eq s.name d) steps

abbrev pub degree : Dict ℤ → String → ℤ
degree in_degree m = get_or m (pos 0) in_degree

abbrev pub neighbours : Dict (List String) → String → List String
neighbours adj n = get_or n [] adj

-- The inner loop over `s.DependsOn`.
unfoldable pub add_dependencies : List Step → String → List String → Graph → OrderResult Graph
add_dependencies steps name [] g = ok g
add_dependencies steps name (d ∷ ds) g =
    let g' : Graph = record {
      in_degree = put name (increment (degree g.in_degree name)) g.in_degree;
      adj = put d (neighbours g.adj d ++ name ∷ []) g.adj;
    } in
    let rest = add_dependencies steps name ds g' in
    if is_known steps d then rest else err (unknown_dependency name d)

-- The loop over the steps that fills `inDegree` and `adj`; `all_steps` is the whole list.
unfoldable pub add_steps : List Step → List Step → Graph → OrderResult Graph
unfolding add_dependencies
add_steps all_steps [] g = ok g
add_steps all_steps (s ∷ steps) g =
    elim (add_dependencies all_steps s.name s.depends_on
      (record g { in_degree = put s.name (pos 0) g.in_degree })) [
        | ok g' ↦ add_steps all_steps steps g'
        | err e ↦ err e
      ]

-- The queue that the loop starts from.
unfoldable pub initial_queue : List Step → Dict ℤ → List String
initial_queue [] in_degree = []
initial_queue (s ∷ steps) in_degree =
    let rest = initial_queue steps in_degree in
    if is_zero (degree in_degree s.name) then s.name ∷ rest else rest

-- `for _, m := range adj[n]`: the new degrees and the new queue.
unfoldable pub relax : List String → Dict ℤ → List String → Dict ℤ × List String
relax [] in_degree queue = (in_degree, queue)
relax (m ∷ ms) in_degree queue =
    let in_degree' = put m (decrement (degree in_degree m)) in_degree in
    relax ms in_degree' (if is_zero (degree in_degree' m) then queue ++ m ∷ [] else queue)

-- `for len(queue) > 0`, with a bound on its rounds.
unfoldable pub drain :
    ℕ → Dict (List String) → Dict ℤ → List String → List String → Option (List String)
unfolding relax
drain fuel adj in_degree [] order = some order
drain zero adj in_degree (n ∷ queue) order = none
drain (suc fuel) adj in_degree (n ∷ queue) order =
    let (in_degree', queue') = relax (neighbours adj n) in_degree queue in
    drain fuel adj in_degree' queue' (order ++ n ∷ [])

-- The comparison of `len(order)` with `len(steps)`.
unfoldable pub checked : List Step → Option (List String) → OrderResult (List String)
checked steps none = err out_of_fuel
checked steps (some order) = if length order == length steps then ok order else err cycle

abbrev pub empty_graph : Graph
empty_graph = record { in_degree = []; adj = [] }

unfoldable pub order_from : List Step → OrderResult Graph → OrderResult (List String)
unfolding initial_queue drain checked
order_from steps (err e) = err e
order_from steps (ok g) =
    checked steps (drain (2 * length steps) g.adj g.in_degree (initial_queue steps g.in_degree) [])

-- orderSteps
unfoldable pub order_steps : List Step → OrderResult (List String)
unfolding is_known add_steps order_from
order_steps steps = order_from steps (add_steps steps steps empty_graph)

-- findStep
unfoldable pub find_step : List Step → String → Step
find_step [] name = empty_step
find_step (s ∷ steps) name = if str_eq s.name name then s else find_step steps name
