-- ===== src/Steps/Order/Unknown.antt =====
-- A dependency that no step has is reported.
use pici.Base.{
  String, ◌≡◌, refl, inl, inr, Bool, true, false, ◌&&◌, List, [], ◌∷◌, ◌++◌, arith, eq_iff, ltb,
  str_eq, Bool-cases, any, all, pos, increment, put, count,
}
use pici.Config.{Step}
use pici.Steps.{
  unknown_dependency, err, Graph, is_known, degree, neighbours, add_dependencies, add_steps,
  empty_graph, order_from, order_steps,
}
use pici.Steps.Order.Complete.{all_known, add_dependencies_total}

-- Some step of that name lists the dependency.
abbrev pub lists : List Step → String → String → Bool
lists steps name d = any (λ t. str_eq t.name name && ltb 0 (count d t.depends_on)) steps

add_dependencies-unknown :
    (steps : List Step) (name : String) (ds : List String) (g : Graph)
    → all (is_known steps) ds ≡ false
    → (d : String) × (add_dependencies steps name ds g ≡ err (unknown_dependency name d))
      × (is_known steps d ≡ false)
      × (ltb 0 (count d ds) ≡ true)
unfolding add_dependencies
add_dependencies-unknown steps name [] g h = cc
add_dependencies-unknown steps name (d ∷ ds) g h = elim (Bool-cases (is_known steps d)) [
  | inl e ↦
      let (d', found, unknown, listed) =
        add_dependencies-unknown steps name ds
          (record {
            in_degree = put name (increment (degree g.in_degree name)) g.in_degree;
            adj = put d (neighbours g.adj d ++ name ∷ []) g.adj;
          })
          (ground arith) in
      (d', ground arith, unknown, ground arith)
  | inr e ↦ (d, ground arith, e, ground (arith, eq_iff d d))
]

add_steps-unknown :
    (all_steps steps : List Step) (g : Graph)
    → all_known all_steps steps ≡ false
    → (name d : String) × (add_steps all_steps steps g ≡ err (unknown_dependency name d))
      × (is_known all_steps d ≡ false)
      × (lists steps name d ≡ true)
unfolding add_steps
add_steps-unknown all_steps [] g h = cc
add_steps-unknown all_steps (s ∷ steps) g h =
    let start : Graph = record g { in_degree = put s.name (pos 0) g.in_degree } in
    elim (Bool-cases (all (is_known all_steps) s.depends_on)) [
      | inl e ↦
          let (mid, built) = add_dependencies_total all_steps s.name s.depends_on start e in
          let (name, d, err_eq, unknown, listed) =
            add_steps-unknown all_steps steps mid (ground arith) in
          (name, d, rw (built, add_steps) err_eq, unknown, ground arith)
      | inr e ↦
          let (d, err_eq, unknown, listed) =
            add_dependencies-unknown all_steps s.name s.depends_on start e in
          (s.name, d, rw (err_eq, add_steps) refl, unknown, ground (arith, eq_iff s.name s.name))
    ]

-- If some step depends on a name that no step has, orderSteps reports such a step and such a
-- dependency of it, whatever else is wrong with the workflow.
pub order_steps_unknown :
    (steps : List Step)
    → all_known steps steps ≡ false
    → (name d : String) × (order_steps steps ≡ err (unknown_dependency name d))
      × (is_known steps d ≡ false)
      × (lists steps name d ≡ true)
unfolding order_steps
order_steps_unknown steps h =
    let (name, d, e, unknown, listed) = add_steps-unknown steps steps empty_graph h in
    (name, d, rw (e, order_from) refl, unknown, listed)
