-- ===== src/Config/Triggers.antt =====
-- internal/ci/paths.go and internal/ci/schedule.go: which events run a workflow.
use pici.Base.{
  String, Bool, true, false, not, ◌&&◌, ◌||◌, Option, none, some, List, [], ◌∷◌, str_eq,
  if◌then◌else◌, any,
}
use pici.Config.{Config}

-- doublestar.Match, pattern first: `none` is a malformed pattern.
module _ (glob : String → String → Option Bool) where
  unfoldable pub matches_any : List String → String → Bool
  matches_any [] s = false
  matches_any (p ∷ patterns) s = elim (glob p s) [
    | none ↦ matches_any patterns s
    | some hit ↦ if hit then true else matches_any patterns s
  ]

  -- slices.ContainsFunc over the changed files
  abbrev any_matches : List String → List String → Bool
  any_matches patterns files = any (λ f. matches_any patterns f) files

  abbrev is_empty : {A : Type 0} → List A → Bool
  is_empty [] = true
  is_empty (x ∷ xs) = false

  -- MatchesPaths
  unfoldable pub matches_paths : List String → List String → List String → Bool
  unfolding matches_any
  matches_paths paths ignore files =
      if is_empty files
      then true
      else if not (is_empty paths) && not (any_matches paths files)
      then false
      else not (any_matches ignore files)

  -- MatchesRef
  unfoldable pub matches_ref : List String → List String → String → Bool → Bool
  unfolding matches_any
  matches_ref tags branches ref is_tag =
      if is_empty tags && is_empty branches
      then true
      else if is_tag
      then matches_any tags ref
      else matches_any branches ref

  -- Config.MatchesPush
  unfoldable pub matches_push : Config → String → String → Bool → List String → Bool
  unfolding matches_ref matches_paths
  matches_push cfg default_branch ref is_tag changed = elim cfg.on [
    | none ↦
        (not is_tag && str_eq ref default_branch)
        && matches_paths cfg.paths cfg.paths_ignore changed
    | some on ↦ elim on.push [
      | none ↦ false
      | some push ↦
          matches_ref push.tags push.branches ref is_tag
          && matches_paths cfg.paths cfg.paths_ignore changed
    ]
  ]

  -- Config.MatchesPullRequest
  unfoldable pub matches_pull_request : Config → String → String → List String → Bool
  unfolding matches_any matches_paths
  matches_pull_request cfg default_branch base changed = elim cfg.on [
    | none ↦ str_eq base default_branch && matches_paths cfg.paths cfg.paths_ignore changed
    | some on ↦ elim on.pull_request [
      | none ↦ false
      | some pr ↦
          (is_empty pr.branches || matches_any pr.branches base)
          && matches_paths cfg.paths cfg.paths_ignore changed
    ]
  ]

  -- Config.MatchesManual
  unfoldable pub matches_manual : Config → String → Bool → Bool
  unfolding matches_ref
  matches_manual cfg ref is_tag = elim cfg.on [
    | none ↦ true
    | some on ↦ elim on.manual [
      | none ↦ true
      | some manual ↦ matches_ref manual.tags manual.branches ref is_tag
    ]
  ]

-- Config.EffectiveSchedule
unfoldable pub effective_schedule : Config → String
effective_schedule cfg = elim cfg.on [ none ↦ "" | some on ↦ on.schedule ]
