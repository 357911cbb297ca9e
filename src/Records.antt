-- ===== src/Records.antt =====
-- internal/stores/enums.go and internal/stores/models.go: the records that the parts exchange.
use pici.Base.{ℕ, String, Bool, true, false, Option, List, [], Text, ℤ, pos}

-- `unset` is the empty string, the zero value of these string types.
pub data Status : Type 0 where
  unset pending running success failed canceled : Status

pub data Trigger : Type 0 where
  unset manual webhook cron rebuild retry : Trigger

pub data StepStatus : Type 0 where
  unset pending running success failed skipped canceled : StepStatus

pub data Source : Type 0 where
  unset git snapshot : Source

pub data Provider : Type 0 where
  unset github gitlab generic : Provider

pub data AuthType : Type 0 where
  unset none token ssh : AuthType

-- Times are Unix milliseconds, and ids are the texts of the UUIDs.
pub record StepResult : Type 0 where
  pub name : String
  pub status : StepStatus
  pub started_at : Option ℕ
  pub finished_at : Option ℕ
  pub timeout : ℤ
  pub exit_code : ℤ
  pub error : String
  pub env : List Text

pub record Project : Type 0 where
  pub id : String
  pub name : String
  pub repo_url : String
  pub provider : Provider
  pub auth_type : AuthType
  pub auth_user : String
  pub auth_secret : String
  pub webhook_secret : String
  pub default_branch : String

-- Without created_by_login and attempt_created_at, which are only shown.
pub record Execution : Type 0 where
  pub id : ℕ
  pub execution_id : ℕ
  pub attempt : ℕ
  pub attempts_count : ℕ
  pub project_id : String
  pub project : String
  pub workflow : String
  pub ref : String
  pub commit_sha : String
  pub status : Status
  pub trigger : Trigger
  pub source : Source
  pub steps : List StepResult
  pub error : String
  pub created_at : ℕ
  pub started_at : Option ℕ
  pub setup_finished_at : Option ℕ
  pub finished_at : Option ℕ
  pub claimed_by : String
  pub cancel_requested : Bool
  pub concurrency_group : String
  pub parent_id : Option ℕ
  pub previous_attempt_id : Option ℕ
  pub workspace_id : Option ℕ
  pub snapshot_id : Option String
  pub check_run_id : ℕ
  pub created_by : Option String

abbrev pub is_unset : StepStatus → Bool
is_unset StepStatus.unset = true
is_unset _ = false

abbrev pub is_success : StepStatus → Bool
is_success StepStatus.success = true
is_success _ = false

abbrev pub is_failed : StepStatus → Bool
is_failed StepStatus.failed = true
is_failed _ = false

abbrev pub is_skipped : StepStatus → Bool
is_skipped StepStatus.skipped = true
is_skipped _ = false

abbrev pub is_canceled : StepStatus → Bool
is_canceled StepStatus.canceled = true
is_canceled _ = false

-- A result with nothing but a name and a status.
abbrev pub bare_result : String → StepStatus → StepResult
bare_result name status = record {
  name = name;
  status = status;
  started_at = Option.none;
  finished_at = Option.none;
  timeout = pos 0;
  exit_code = pos 0;
  error = "";
  env = [];
}

abbrev pub is_pending : Status → Bool
is_pending Status.pending = true
is_pending _ = false

abbrev pub is_running : Status → Bool
is_running Status.running = true
is_running _ = false

abbrev pub is_retry : Trigger → Bool
is_retry Trigger.retry = true
is_retry _ = false

abbrev pub is_rebuild : Trigger → Bool
is_rebuild Trigger.rebuild = true
is_rebuild _ = false
