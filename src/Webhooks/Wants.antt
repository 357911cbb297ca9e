-- ===== src/Webhooks/Wants.antt =====
-- What the documentation of triggers asks of an event, written down by itself, and that the code decides
-- so.
use pici.Base.{
  String, ◌≡◌, refl, ◌∙◌, ◌⊎◌, inl, inr, Bool, true, false, not, ◌&&◌, ◌||◌, Option, none, some,
  List, [], ◌∷◌, arith, str_eq, if◌then◌else◌, Option-cases, any, Text,
}
use pici.Config.{Config, RefFilter, On}
use pici.Config.Parse.{Parsed, ParseError, ok, err, parse}
use pici.Config.Triggers.{
  matches_any, matches_paths, matches_ref, matches_push, matches_pull_request,
}
use pici.Webhooks.{Env, EventKind, push, pull_request, runs_workflow}

abbrev is_hit : Option Bool → Bool
is_hit none = false
is_hit (some b) = b

-- Some pattern matches; a malformed one does not.
abbrev pub hits : (String → String → Option Bool) → List String → String → Bool
hits glob patterns s = any (λ p. is_hit (glob p s)) patterns

abbrev pub has_none : List String → Bool
has_none [] = true
has_none (x ∷ xs) = false

-- `paths` and `paths_ignore`: unless no file is known, some file is in `paths`, if that is set, and
-- none is in `paths_ignore`.
abbrev pub passes_paths : (String → String → Option Bool) → Config → List String → Bool
passes_paths glob cfg changed =
    has_none changed
    || ((has_none cfg.paths || any (hits glob cfg.paths) changed)
        && not (any (hits glob cfg.paths_ignore) changed))

-- Without filters every ref passes; else a tag passes by `tags` alone, and a branch by `branches`.
abbrev pub passes_ref : (String → String → Option Bool) → RefFilter → String → Bool → Bool
passes_ref glob filter ref is_tag =
    (has_none filter.tags && has_none filter.branches)
    || hits glob (if is_tag then filter.tags else filter.branches) ref

abbrev pub asks_push : (String → String → Option Bool) → String → String → Bool → Option On → Bool
asks_push glob default_branch ref is_tag none = str_eq ref default_branch && not is_tag
asks_push glob default_branch ref is_tag (some on) = elim on.push [
  | none ↦ false
  | some filter ↦ passes_ref glob filter ref is_tag
]

abbrev pub asks_pull_request : (String → String → Option Bool) → String → String → Option On → Bool
asks_pull_request glob default_branch base none = str_eq base default_branch
asks_pull_request glob default_branch base (some on) = elim on.pull_request [
  | none ↦ false
  | some filter ↦ has_none filter.branches || hits glob filter.branches base
]

-- Whether a workflow with this configuration is to run on the event.
abbrev pub wants : Env → EventKind → (ref base_branch : String) → List String → Bool → Config → Bool
wants env push ref base_branch changed is_tag cfg =
    passes_paths env.glob cfg changed && asks_push env.glob env.default_branch ref is_tag cfg.on
wants env pull_request ref base_branch changed is_tag cfg =
    passes_paths env.glob cfg changed
    && asks_pull_request env.glob env.default_branch base_branch cfg.on

-- The workflow's ci.yml can be read, is accepted, and wants the event.
abbrev pub Runs :
    Env → EventKind → (ref base_branch : String) → List String → Bool → String → Type 0
Runs env event ref base_branch changed is_tag wf =
    (content : Text) × (env.read_file wf ≡ some content)
    × ((cfg : Config) × (parse env.unmarshal_root env.unmarshal_config content ≡ ok cfg)
        × (wants env event ref base_branch changed is_tag cfg ≡ true))

matches_any-hits :
    (glob : String → String → Option Bool) (patterns : List String) (s : String)
    → matches_any glob patterns s ≡ hits glob patterns s
unfolding matches_any
matches_any-hits glob [] s = refl
matches_any-hits glob (p ∷ patterns) s = ground (arith, matches_any-hits glob patterns s)

any_matches-hits :
    (glob : String → String → Option Bool) (patterns files : List String)
    → any (λ f. matches_any glob patterns f) files ≡ any (hits glob patterns) files
any_matches-hits glob patterns [] = refl
any_matches-hits glob patterns (f ∷ files) =
    ground (arith, matches_any-hits glob patterns f, any_matches-hits glob patterns files)

matches_paths-passes :
    (glob : String → String → Option Bool) (cfg : Config) (changed : List String)
    → matches_paths glob cfg.paths cfg.paths_ignore changed ≡ passes_paths glob cfg changed
unfolding matches_paths
matches_paths-passes glob cfg changed =
    ground (
      arith,
      any_matches-hits glob cfg.paths changed,
      any_matches-hits glob cfg.paths_ignore changed,
    )

matches_ref-passes :
    (glob : String → String → Option Bool) (f : RefFilter) (ref : String) (is_tag : Bool)
    → matches_ref glob f.tags f.branches ref is_tag ≡ passes_ref glob f ref is_tag
unfolding matches_ref
matches_ref-passes glob f ref is_tag =
    ground (arith, matches_any-hits glob f.tags ref, matches_any-hits glob f.branches ref)

decides :
    (env : Env) (event : EventKind) (ref base_branch : String) (changed : List String)
    (is_tag : Bool) (cfg : Config)
    → (elim event [
      | push ↦ matches_push env.glob cfg env.default_branch ref is_tag changed
      | pull_request ↦ matches_pull_request env.glob cfg env.default_branch base_branch changed
    ])
      ≡ wants env event ref base_branch changed is_tag cfg
unfolding matches_push matches_pull_request
decides env push ref base_branch changed is_tag cfg =
    let paths = matches_paths-passes env.glob cfg changed in
    elim (Option-cases cfg.on) [
      | inl n ↦ ground (arith, n, paths)
      | inr (on, e) ↦ elim (Option-cases on.push) [
        | inl n ↦ ground (arith, e, n, paths)
        | inr (f, n) ↦ ground (arith, e, n, paths, matches_ref-passes env.glob f ref is_tag)
      ]
    ]
decides env pull_request ref base_branch changed is_tag cfg =
    let paths = matches_paths-passes env.glob cfg changed in
    elim (Option-cases cfg.on) [
      | inl n ↦ ground (arith, n, paths)
      | inr (on, e) ↦ elim (Option-cases on.pull_request) [
        | inl n ↦ ground (arith, e, n, paths)
        | inr (f, n) ↦ ground (arith, e, n, paths, matches_any-hits env.glob f.branches base_branch)
      ]
    ]

Parsed-cases :
    (p : Parsed Config) → ((e : ParseError) × (p ≡ err e)) ⊎ ((cfg : Config) × (p ≡ ok cfg))
Parsed-cases (err e) = inl (e, refl)
Parsed-cases (ok cfg) = inr (cfg, refl)

pub runs_workflow_sound :
    (env : Env) (event : EventKind) (ref base_branch : String) (changed : List String)
    (is_tag : Bool) (wf : String)
    → runs_workflow env event ref base_branch changed is_tag wf ≡ true
    → Runs env event ref base_branch changed is_tag wf
unfolding runs_workflow
runs_workflow_sound env event ref base_branch changed is_tag wf h =
    elim (Option-cases (env.read_file wf)) [
      | inl n ↦ let h' : false ≡ true = rw (n, runs_workflow) at h in cc
      | inr (content, e) ↦
          elim (Parsed-cases (parse env.unmarshal_root env.unmarshal_config content)) [
            | inl (bad, q) ↦ let h' : false ≡ true = rw (e, q, runs_workflow) at h in cc
            | inr (cfg, q) ↦ (
              content,
              e,
              (
                cfg,
                q,
                rw (decides env event ref base_branch changed is_tag cfg) at
                    (rw (e, q, runs_workflow) at h),
              ),
            )
          ]
    ]

pub runs_workflow_complete :
    (env : Env) (event : EventKind) (ref base_branch : String) (changed : List String)
    (is_tag : Bool) (wf : String)
    → Runs env event ref base_branch changed is_tag wf
    → runs_workflow env event ref base_branch changed is_tag wf ≡ true
unfolding runs_workflow
runs_workflow_complete env event ref base_branch changed is_tag wf (content, e, (cfg, q, w)) =
    rw (e, q, runs_workflow) (decides env event ref base_branch changed is_tag cfg ∙ w)
