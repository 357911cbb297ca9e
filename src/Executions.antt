-- ===== src/Executions.antt =====
-- internal/app/executions/executions.go: what a user asks of the executions of a project.
pub mod Cancels
use pici.Base.{
  ℕ, zero, suc, ◌+◌, ◌-◌, ◌*◌, ◌≤◌, ◌<◌, String, ◌≡◌, refl, sym, ap, ◌∙◌, ◌≢◌, ◌↔◌, ◌⊎◌, inl, inr,
  Bool, true, false, not, ◌&&◌, ◌||◌, Option, none, some, List, [], ◌∷◌, ◌++◌, map, arith, eq_iff,
  ltb, leb, ◌==◌, str_eq, if◌then◌else◌, ==_iff, Bool-cases, Option-cases, length, get_elem?, any,
  all, drop, take, All, length-append, Text, codes, has_prefix, contains, ℤ, pos, negsuc, decrement,
  increment, is_zero, is_negative, is_positive, Dict, get, get_or, put, get_or-put, get-put, count,
  count-append, length-le_of_count, count-eq_of_length,
}
use pici.Records.{Status, Trigger, Source, Project, Execution}
use pici.Store.{
  Row, Db, is_at, update_where, find_where, raw_view, is_attempt_of, get_execution_attempt,
  set_cancel_requested, is_cancel_requested,
}
use pici.Runner.{QueueError, Queued, refused, queued, enqueue_git, enqueue_rebuild, enqueue_retry}

-- The errors of package app that these operations give. `other` passes on an error of the store.
pub data AppError : Type 0 where
  not_found invalid conflict workspace_gone not_retryable other : AppError

pub data Result (A : Type 0) : Type 0 where
  ok : A → Result A
  err : AppError → Result A

pub record View : Type 0 where
  pub execution : Execution
  pub attempts : List Execution
  pub latest : Bool

-- The rows of the list in the order of their attempts: ORDER BY attempt ASC.
unfoldable pub insert_attempt : Execution → List Execution → List Execution
insert_attempt e [] = e ∷ []
insert_attempt e (f ∷ es) =
    let rest = insert_attempt e es in if ltb f.attempt e.attempt then f ∷ rest else e ∷ f ∷ es

unfoldable pub attempts_among : List Row → String → ℕ → List Row → List Execution
unfolding insert_attempt raw_view
attempts_among all_rows pid eid [] = []
attempts_among all_rows pid eid (r ∷ rows) =
    let rest = attempts_among all_rows pid eid rows in
    if is_attempt_of pid eid r then insert_attempt (raw_view all_rows r) rest else rest

-- ListAttempts of the store
unfoldable pub list_attempts : Db → String → ℕ → List Execution
unfolding attempts_among
list_attempts db pid eid = attempts_among db.rows pid eid db.rows

-- Module.attempt
unfoldable pub attempt_at : Db → String → ℕ → ℕ → Result Execution
attempt_at db pid eid attempt = elim (get_execution_attempt db pid eid attempt) [
  | none ↦ err not_found
  | some e ↦ ok e
]

-- Module.Get
unfoldable pub get_view : Db → String → ℕ → ℕ → Result View
unfolding attempt_at list_attempts
get_view db pid eid attempt = elim (attempt_at db pid eid attempt) [
  | err e ↦ err e
  | ok e ↦ ok (record {
    execution = e;
    attempts = list_attempts db pid e.execution_id;
    latest = e.attempt == e.attempts_count;
  })
]

-- A queued execution as these operations return it.
unfoldable pub returned : Queued → Result (Db × Execution)
returned (queued db e) = ok (db, e)
returned (refused e) = err other

-- Module.Create. `trim` is strings.TrimSpace.
unfoldable pub create :
    (String → String)
    → Db
    → Project
    → (workflow ref : String) → ℕ
    → Option String
    → Result (Db × Execution)
unfolding returned
create trim db project workflow ref now created_by =
    if str_eq (trim workflow) ""
    then err invalid
    else returned (
        enqueue_git db project (trim workflow)
          (if str_eq (trim ref) "" then project.default_branch else trim ref) "" Trigger.manual now
          created_by)

-- Module.Cancel. The second part of the result is the key that Runner.Cancel is called with.
unfoldable pub cancel : Db → String → ℕ → Result (Db × (String × ℕ))
unfolding attempt_at
cancel db pid eid = elim (attempt_at db pid eid 0) [
  | err e ↦ err e
  | ok e ↦ ok (set_cancel_requested db pid e.id, (pid, e.id))
]

abbrev pub is_snapshot : Source → Bool
is_snapshot Source.snapshot = true
is_snapshot _ = false

-- Module.Rebuild
unfoldable pub rebuild : Db → Project → ℕ → ℕ → Option String → Result (Db × Execution)
unfolding attempt_at returned
rebuild db project eid now created_by = elim (attempt_at db project.id eid 0) [
  | err e ↦ err e
  | ok previous ↦
      if is_snapshot previous.source
      then err conflict
      else returned (enqueue_rebuild db project previous now created_by)
]

-- The errors of EnqueueRetry as Module.Retry passes them on.
abbrev pub retry_failure : QueueError → AppError
retry_failure QueueError.not_found = other
retry_failure QueueError.not_created = other
retry_failure QueueError.not_latest = not_retryable
retry_failure QueueError.from_snapshot = not_retryable
retry_failure QueueError.not_failed = not_retryable
retry_failure QueueError.nothing_to_retry = not_retryable
retry_failure QueueError.busy = not_retryable
retry_failure QueueError.workspace_gone = workspace_gone

abbrev pub view_of : Db → Result View → Result (Db × Execution)
view_of db (ok v) = ok (db, v.execution)
view_of db (err e) = err e

-- Module.Retry
unfoldable pub retry :
    (String → ℕ → Bool)
    → Db
    → Project
    → (eid attempt now : ℕ) → Option String
    → Result (Db × Execution)
unfolding attempt_at get_view
retry has_dir db project eid attempt now created_by = elim (attempt_at db project.id eid attempt) [
  | err e ↦ err e
  | ok previous ↦ elim (enqueue_retry has_dir db project previous now created_by) [
    | refused e ↦ err (retry_failure e)
    | queued db' e ↦ view_of db' (get_view db' project.id eid 0)
  ]
]
