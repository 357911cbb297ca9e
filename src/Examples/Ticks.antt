-- ===== src/Examples/Ticks.antt =====
-- Two schedules, of which one has lost its project.
use pici.Base.{
  ◌≡◌, true, not, ◌&&◌, ◌||◌, none, some, [], ◌∷◌, arith, leb, str_eq, if◌then◌else◌, any, all, ℕ,
  zero, ◌+◌, ◌<◌, inl, inr, sym, ap, refl, Bool-cases,
}
use mathlib.Core.Path.{subst}
use mathlib.Core.Option.{some-injective}
use pici.Records.{Provider, AuthType, Project}
use pici.Schedules.{Schedule, list_due_schedules, upsert_row}
use pici.Scheduler.{Clockwork, tick}
use pici.Scheduler.Due.{has_key_of, is_started, IsAhead, IsAfter, tick-held}

abbrev project : Project
project = record {
  id = "p";
  name = "demo";
  repo_url = "https://example.com/demo";
  provider = Provider.generic;
  auth_type = AuthType.none;
  auth_user = "";
  auth_secret = "";
  webhook_secret = "s3cret";
  default_branch = "main";
}

-- The project "q" is gone.
abbrev clockwork : Clockwork
clockwork = record {
  get_project = λ id. if str_eq id "p" then some project else none;
  trigger = λ found workflow ref. true;
  clock = λ p w. 151;
  parser = λ expr. if str_eq expr "0 0 30 2 *" then some (λ from. 0) else some (λ from. from + 50);
}

abbrev nightly : Schedule
nightly = record { project_id = "p"; workflow = "ci"; cron_expr = "0 3 * * *"; next_run_at = 100 }

abbrev lost : Schedule
lost = record nightly { project_id = "q" }

clockwork-IsAfter : IsAfter clockwork 150
clockwork-IsAfter p w = omega arith

clockwork-IsAhead : IsAhead clockwork.parser
clockwork-IsAhead expr sched from e = elim (Bool-cases (str_eq expr "0 0 30 2 *")) [
  | inl never ↦
      let e' : some (λ (n : ℕ). zero) ≡ some sched = rw never at e in
      inl (ap (λ f. f from) (sym (some-injective (λ (n : ℕ). zero) sched e')))
  | inr often ↦
      let e' : some (λ n. n + 50) ≡ some sched = rw often at e in
      inr
        (subst (λ (f : ℕ → ℕ). from < f from) (some-injective (λ n. n + 50) sched e') (omega arith))
]

-- 30 February never comes: the schedule is started, and is due again at once.
abbrev never : Schedule
never = record nightly { cron_expr = "0 0 30 2 *" }

never_stays_due : tick clockwork 150 (never ∷ []) ≡ (
  record never { next_run_at = 0 } ∷ [],
  record { project_id = "p"; workflow = "ci"; ref = "main" } ∷ [],
)
unfolding tick list_due_schedules upsert_row
never_stays_due = refl

tick-held_example :
    all
      (λ r.
        not (leb r.next_run_at 150)
        || any
            (λ s. has_key_of s r && not (is_started clockwork s))
            (list_due_schedules (nightly ∷ lost ∷ []) 150))
      (tick clockwork 150 (nightly ∷ lost ∷ [])).0
    ≡ true
tick-held_example =
    tick-held clockwork 150 (nightly ∷ lost ∷ []) clockwork-IsAhead clockwork-IsAfter
