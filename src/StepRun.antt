-- ===== src/StepRun.antt =====
-- internal/ci/step.go: a step and its attempts.
pub mod Attempts
use pici.Base.{
  ℕ, zero, suc, ◌+◌, ◌-◌, ◌*◌, ◌≤◌, ◌<◌, String, ◌≡◌, refl, sym, ap, ◌∙◌, ◌≢◌, ◌↔◌, ◌⊎◌, inl, inr,
  Bool, true, false, not, ◌&&◌, ◌||◌, Option, none, some, List, [], ◌∷◌, ◌++◌, map, arith, eq_iff,
  ltb, leb, ◌==◌, str_eq, if◌then◌else◌, ==_iff, Bool-cases, Option-cases, length, get_elem?, any,
  all, drop, take, All, length-append, Text, codes, has_prefix, contains, ℤ, pos, negsuc, decrement,
  increment, is_zero, is_negative, is_positive, Dict, get, get_or, put, get_or-put, get-put, count,
  count-append, length-le_of_count, count-eq_of_length,
}
use Prim.Native.String.{◌++◌ as str_append}
use pici.Mask.{redact}
use pici.Records.{StepStatus, StepResult, is_success, bare_result}
use pici.Config.{Step}

-- stepExec, without the engine, and Runner.MountPath and Runner.DefaultStepTimeout.
pub record StepExec : Type 0 where
  pub image : String
  pub repo_dir : String
  pub wf_dir : String
  pub binds : List String
  pub env : List String
  pub docker_host : String
  pub secrets : List Text
  pub mount_path : String
  pub default_timeout : ℤ

-- docker.RunOptions
pub record RunOptions : Type 0 where
  pub image : String
  pub command : List String
  pub env : List String
  pub binds : List String
  pub working_dir : String
  pub timeout : ℤ

-- What attempt `n` of the step meets: the engine's exit code and error, whether the context is
-- canceled when the container has ended, and when runStep asks after that, and the clock.
pub record World : Type 0 where
  pub engine : RunOptions → ℕ → ℤ × Option String
  pub canceled : ℕ → Bool
  pub stopped : ℕ → Bool
  pub started : ℕ → ℕ
  pub finished : ℕ → ℕ

-- The functions of the standard library that the code calls: filepath.Join, Base, Ext,
-- strings.TrimSpace, Fields, ToLower, and the first line of a file, or the error of os.Open.
pub record Lib : Type 0 where
  pub join : List String → String
  pub base : String → String
  pub ext : String → String
  pub trim_space : String → String
  pub fields : String → List String
  pub to_lower : String → String
  pub first_line : String → String ⊎ String
  pub exit_text : ℤ → String

-- strings.CutPrefix(line, "#!")
abbrev pub cut_shebang : String → Option String
cut_shebang (String.◌∷◌ a (String.◌∷◌ b rest)) =
    if str_eq (String.◌∷◌ a (String.◌∷◌ b String.[])) "#!" then some rest else none
cut_shebang _ = none

-- The switch on the extension in interpreterCommand.
unfoldable pub interpreter_of : String → List String
interpreter_of ext =
    if str_eq ext ".sh"
    then "/bin/sh" ∷ []
    else if str_eq ext ".bash"
    then "/bin/bash" ∷ []
    else if str_eq ext ".py"
    then "python3" ∷ []
    else if str_eq ext ".js"
    then "node" ∷ []
    else if str_eq ext ".rb"
    then "ruby" ∷ []
    else if str_eq ext ".go"
    then "go" ∷ "run" ∷ []
    else "/bin/sh" ∷ []

-- interpreterCommand: `inl` is an error.
unfoldable pub interpreter_command : Lib → String → String → String ⊎ List String
unfolding interpreter_of
interpreter_command lib host_path container_path = elim (lib.first_line host_path) [
  | inl err ↦ inl err
  | inr line ↦
      let by_ext = interpreter_of (lib.to_lower (lib.ext host_path)) ++ container_path ∷ [] in
      elim (cut_shebang (lib.trim_space line)) [
        | none ↦ inr by_ext
        | some after ↦ elim (lib.fields after) [
          | [] ↦ inr by_ext
          | part ∷ parts ↦ inr ((part ∷ parts) ++ container_path ∷ [])
        ]
      ]
]

-- Runner.stepCommand; filepath.ToSlash changes nothing where the server runs.
unfoldable pub step_command : Lib → StepExec → Step → String ⊎ List String
unfolding interpreter_command
step_command lib se step =
    if not (str_eq step.run "")
    then inr ("sh" ∷ "-c" ∷ step.run ∷ [])
    else interpreter_command lib (lib.join (se.wf_dir ∷ step.script ∷ []))
        (lib.join (se.mount_path ∷ ".ci" ∷ lib.base se.wf_dir ∷ step.script ∷ []))

-- The entries `k=v` of a map; the order of a Go map is any order, here that of the list.
abbrev pub assignments : Dict String → List String
assignments [] = []
assignments ((k, v) ∷ env) = str_append k (str_append "=" v) ∷ assignments env

unfoldable pub step_env : StepExec → Step → List String
step_env se step =
    se.env
    ++ (if str_eq se.docker_host "" then [] else str_append "DOCKER_HOST=" se.docker_host ∷ [])
    ++ assignments step.env

abbrev pub step_timeout : StepExec → Step → ℤ
step_timeout se step = if is_positive step.timeout then step.timeout else se.default_timeout

-- The final switch of runStepOnce: the status and the error.
unfoldable pub judged : Lib → Bool → ℤ × Option String → StepStatus × String
judged lib true answer = (StepStatus.canceled, "canceled")
judged lib false (code, some err) = (StepStatus.failed, err)
judged lib false (code, none) =
    if is_zero code then (StepStatus.success, "") else (StepStatus.failed, lib.exit_text code)

abbrev pub run_options : StepExec → Step → List String → RunOptions
run_options se step cmd = record {
  image = se.image;
  command = cmd;
  env = step_env se step;
  binds = se.binds;
  working_dir = se.mount_path;
  timeout = step_timeout se step;
}

-- Runner.runStepOnce
unfoldable pub run_step_once : Lib → World → StepExec → Step → ℕ → StepResult
unfolding judged step_command step_env
run_step_once lib world se step attempt = elim (step_command lib se step) [
  | inl err ↦ record (bare_result step.name StepStatus.failed) {
    started_at = some (world.started attempt);
    finished_at = some (world.finished attempt);
    error = err;
  }
  | inr cmd ↦
      let answer = world.engine (run_options se step cmd) attempt in
      let verdict = judged lib (world.canceled attempt) answer in
      record {
        name = step.name;
        status = verdict.0;
        started_at = some (world.started attempt);
        finished_at = some (world.finished attempt);
        timeout = step_timeout se step;
        exit_code = answer.0;
        error = verdict.1;
        env = map (λ kv. redact (codes kv) se.secrets) (step_env se step);
      }
]

-- `attempts`, as far as the loop counts: a negative `retry` gives none.
abbrev pub attempts_of : Step → ℕ
attempts_of step = elim step.retry [ pos n ↦ suc n | negsuc n ↦ 0 ]

-- What runStep leaves: its result, how many attempts were made, and whether the artifacts were
-- collected.
pub record StepRun : Type 0 where
  pub result : StepResult
  pub attempts : ℕ
  pub collected : Bool

-- The loop of runStep: `left` attempts are left, of which `attempt` is the next.
unfoldable pub attempts_from : Lib → World → StepExec → Step → (left attempt : ℕ) → StepRun
attempts_from lib world se step zero attempt = record {
  result = record (bare_result step.name StepStatus.failed) {
    finished_at = some (world.finished attempt);
    error = "unreachable";
  };
  attempts = attempt - 1;
  collected = false;
}
attempts_from lib world se step (suc left) attempt =
    let res = run_step_once lib world se step attempt in
    let rest = attempts_from lib world se step left (attempt + 1) in
    if is_success res.status || (left == 0) || world.stopped attempt
    then record { result = res; attempts = attempt; collected = is_success res.status }
    else rest

-- Runner.runStep. `log_error` is the error of making or opening the log file.
unfoldable pub run_step : Lib → World → StepExec → Step → Option String → StepRun
unfolding attempts_from
run_step lib world se step log_error = elim log_error [
  | none ↦ attempts_from lib world se step (attempts_of step) 1
  | some err ↦ record {
    result = record (bare_result step.name StepStatus.failed) {
      finished_at = some (world.finished 0);
      error = err;
    };
    attempts = 0;
    collected = false;
  }
]
