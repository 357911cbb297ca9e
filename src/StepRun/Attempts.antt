-- ===== src/StepRun/Attempts.antt =====
-- The loop of runStep.
use pici.Base.{ℕ, suc, ◌≤◌, ◌<◌, ◌≡◌, Bool, true, false, not, ◌||◌, ℤ, pos, negsuc}
use pici.Records.{is_success}
use pici.Config.{Step}
use pici.StepRun.{StepExec, World, Lib, StepRun, run_step_once}

-- Attempt `k` ends in a result that runStep tries to improve.
abbrev pub goes_on : Lib → World → StepExec → Step → ℕ → Bool
goes_on lib world se step k =
    not (is_success (run_step_once lib world se step k).status || world.stopped k)

-- The run made the attempts from `first` on, `last` at the most, and stopped at the first that
-- succeeded or met a canceled context; its result is that attempt's, and the artifacts are
-- collected after a success.
pub record IsFirst (lib : Lib) (world : World) (se : StepExec) (step : Step) (first last : ℕ)
    (r : StepRun) : Type 0 where
  pub lower : first ≤ r.attempts
  pub upper : r.attempts ≤ last
  pub result : r.result ≡ run_step_once lib world se step r.attempts
  pub earlier : (k : ℕ) → first ≤ k → k < r.attempts → goes_on lib world se step k ≡ true
  pub final : r.attempts < last → goes_on lib world se step r.attempts ≡ false
  pub collected : r.collected ≡ is_success r.result.status

abbrev attempts_after : ℤ → ℕ
attempts_after retry = elim retry [ pos n ↦ suc n | negsuc n ↦ 0 ]
