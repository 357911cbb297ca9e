-- ===== src/Steps/Order/Edges.antt =====
-- The graph that orderSteps builds: its degrees and edges are the dependencies of the steps.
use pici.Base.{
  ℕ, suc, ◌+◌, ◌≤◌, String, ◌≡◌, refl, ◌⊎◌, inl, inr, Bool, true, false, ◌&&◌, List, [], ◌∷◌, ◌++◌,
  arith, eq_iff, ◌==◌, str_eq, if◌then◌else◌, length, all, pos, increment, put, get_or-put, count,
  count-append,
}
use pici.Config.{Step, step_names}
use pici.Steps.{
  OrderError, OrderResult, ok, err, Graph, is_known, degree, neighbours, add_dependencies,
  add_steps, find_step,
}

-- The dependencies of a name: none, if no step has it.
unfoldable pub deps : List Step → String → List String
unfolding find_step
deps steps m = (find_step steps m).depends_on

-- No name occurs twice.
abbrev pub nodup : List String → Bool
nodup [] = true
nodup (x ∷ xs) = count x xs == 0 && nodup xs

pub count-le_one : (a : String) (xs : List String) → nodup xs ≡ true → count a xs ≤ 1
count-le_one a [] h = omega arith
count-le_one a (x ∷ xs) h = ground (arith, eq_iff x a, count-le_one a xs)

pub known_iff_count :
    (steps : List Step) (m : String)
    → nodup (step_names steps) ≡ true
    → count m (step_names steps) ≡ (if is_known steps m then 1 else 0)
unfolding is_known
known_iff_count [] m h = refl
known_iff_count (s ∷ steps) m h = ground (arith, eq_iff s.name m, known_iff_count steps m)

pub deps_of_unknown :
    (steps : List Step) (m : String) → is_known steps m ≡ false → deps steps m ≡ []
unfolding deps is_known
deps_of_unknown [] m h = refl
deps_of_unknown (s ∷ steps) m h = ground (arith, deps_of_unknown steps m)

add_dependencies-degree :
    (steps : List Step) (name : String) (ds : List String) (g g' : Graph) (k : ℕ) (m : String)
    → add_dependencies steps name ds g ≡ ok g'
    → degree g.in_degree name ≡ pos k
    → degree g'.in_degree m ≡ (if str_eq name m then pos (k + length ds) else degree g.in_degree m)
unfolding add_dependencies
add_dependencies-degree steps name [] g g' k m e h = ground (arith, eq_iff name m)
add_dependencies-degree steps name (d ∷ ds) g g' k m e h =
    let next : Graph = record {
      in_degree = put name (increment (degree g.in_degree name)) g.in_degree;
      adj = put d (neighbours g.adj d ++ name ∷ []) g.adj;
    } in
    ground (
      arith,
      add_dependencies-degree steps name ds next g' (suc k) m,
      get_or-put name m (pos 0) (increment (degree g.in_degree name)) g.in_degree,
      get_or-put name name (pos 0) (increment (degree g.in_degree name)) g.in_degree,
      eq_iff name name,
    )

add_dependencies-neighbours :
    (steps : List Step) (name : String) (ds : List String) (g g' : Graph) (n m : String)
    → add_dependencies steps name ds g ≡ ok g'
    → count m (neighbours g'.adj n)
      ≡ count m (neighbours g.adj n) + (if str_eq name m then count n ds else 0)
unfolding add_dependencies
add_dependencies-neighbours steps name [] g g' n m e = ground arith
add_dependencies-neighbours steps name (d ∷ ds) g g' n m e =
    let next : Graph = record {
      in_degree = put name (increment (degree g.in_degree name)) g.in_degree;
      adj = put d (neighbours g.adj d ++ name ∷ []) g.adj;
    } in
    ground (
      arith,
      add_dependencies-neighbours steps name ds next g' n m,
      get_or-put d n [] (neighbours g.adj d ++ name ∷ []) g.adj,
      count-append m (neighbours g.adj d) (name ∷ []),
      eq_iff d n,
    )

-- A graph is built only if every dependency is known.
add_dependencies-known :
    (steps : List Step) (name : String) (ds : List String) (g g' : Graph)
    → add_dependencies steps name ds g ≡ ok g'
    → all (is_known steps) ds ≡ true
unfolding add_dependencies
add_dependencies-known steps name [] g g' e = refl
add_dependencies-known steps name (d ∷ ds) g g' e =
    let next : Graph = record {
      in_degree = put name (increment (degree g.in_degree name)) g.in_degree;
      adj = put d (neighbours g.adj d ++ name ∷ []) g.adj;
    } in
    ground (arith, add_dependencies-known steps name ds next g')

pub OrderResult-cases :
    {A : Type 0} (r : OrderResult A) → (((a : A) × (r ≡ ok a)) ⊎ ((e : OrderError) × (r ≡ err e)))
OrderResult-cases (ok a) = inl (a, refl)
OrderResult-cases (err e) = inr (e, refl)

-- One step of the loop that succeeds.
pub add_steps-cons :
    (all_steps : List Step) (s : Step) (steps : List Step) (g g' : Graph)
    → add_steps all_steps (s ∷ steps) g ≡ ok g'
    → (mid : Graph) × (add_dependencies all_steps s.name s.depends_on
          (record g { in_degree = put s.name (pos 0) g.in_degree })
        ≡ ok mid)
      × (add_steps all_steps steps mid ≡ ok g')
unfolding add_steps
add_steps-cons all_steps s steps g g' h =
    let start : Graph = record g { in_degree = put s.name (pos 0) g.in_degree } in
    elim (OrderResult-cases (add_dependencies all_steps s.name s.depends_on start)) [
      | inl (mid, e) ↦ (mid, e, rw (e, add_steps) at h)
      | inr (x, e) ↦ ground arith
    ]

pub add_steps-degree :
    (all_steps steps : List Step) (g g' : Graph) (m : String)
    → nodup (step_names steps) ≡ true
    → add_steps all_steps steps g ≡ ok g'
    → degree g'.in_degree m
      ≡ (if is_known steps m then pos (length (deps steps m)) else degree g.in_degree m)
unfolding is_known deps
add_steps-degree all_steps [] g g' m u h = unfold add_steps in ground arith
add_steps-degree all_steps (s ∷ steps) g g' m u h =
    let start : Graph = record g { in_degree = put s.name (pos 0) g.in_degree } in
    let (mid, built, rest) = add_steps-cons all_steps s steps g g' h in
    ground (
      arith,
      add_steps-degree all_steps steps mid g' m,
      add_dependencies-degree all_steps s.name s.depends_on start mid 0 m,
      get_or-put s.name m (pos 0) (pos 0) g.in_degree,
      get_or-put s.name s.name (pos 0) (pos 0) g.in_degree,
      eq_iff s.name s.name,
      eq_iff s.name m,
      known_iff_count steps m,
    )

pub add_steps-neighbours :
    (all_steps steps : List Step) (g g' : Graph) (n m : String)
    → nodup (step_names steps) ≡ true
    → add_steps all_steps steps g ≡ ok g'
    → count m (neighbours g'.adj n) ≡ count m (neighbours g.adj n) + count n (deps steps m)
unfolding deps
add_steps-neighbours all_steps [] g g' n m u h = unfold add_steps in ground arith
add_steps-neighbours all_steps (s ∷ steps) g g' n m u h =
    let start : Graph = record g { in_degree = put s.name (pos 0) g.in_degree } in
    let (mid, built, rest) = add_steps-cons all_steps s steps g g' h in
    ground (
      arith,
      add_steps-neighbours all_steps steps mid g' n m,
      add_dependencies-neighbours all_steps s.name s.depends_on start mid n m,
      eq_iff s.name m,
      known_iff_count steps m,
      deps_of_unknown steps m,
    )

pub add_steps-known :
    (all_steps steps : List Step) (g g' : Graph) (m : String)
    → add_steps all_steps steps g ≡ ok g'
    → all (is_known all_steps) (deps steps m) ≡ true
unfolding deps
add_steps-known all_steps [] g g' m h = refl
add_steps-known all_steps (s ∷ steps) g g' m h =
    let start : Graph = record g { in_degree = put s.name (pos 0) g.in_degree } in
    let (mid, built, rest) = add_steps-cons all_steps s steps g g' h in
    ground (
      arith,
      add_dependencies-known all_steps s.name s.depends_on start mid,
      add_steps-known all_steps steps mid g' m,
    )
