-- ===== src/Gc.antt =====
-- internal/gc/gc.go: which directories and sandboxes the collector removes.
pub mod Spares
use pici.Base.{
  ℕ, zero, suc, ◌+◌, ◌-◌, ◌*◌, ◌≤◌, ◌<◌, String, ◌≡◌, refl, sym, ap, ◌∙◌, ◌≢◌, ◌↔◌, ◌⊎◌, inl, inr,
  Bool, true, false, not, ◌&&◌, ◌||◌, Option, none, some, List, [], ◌∷◌, ◌++◌, map, arith, eq_iff,
  ltb, leb, ◌==◌, str_eq, if◌then◌else◌, ==_iff, Bool-cases, Option-cases, length, get_elem?, any,
  all, drop, take, All, length-append, Text, codes, has_prefix, contains, ℤ, pos, negsuc, decrement,
  increment, is_zero, is_negative, is_positive, Dict, get, get_or, put, get_or-put, get-put, count,
  count-append, length-le_of_count, count-eq_of_length,
}
use pici.Records.{Status, Execution, is_pending, is_running}
use pici.Store.{Row, Db, uses_workspace, count_where, get_attempt, workspace_retained}

-- os.DirEntry
pub record Entry : Type 0 where
  pub name : String
  pub is_dir : Bool

-- The directory of a project; `none` if it cannot be read.
pub record ProjectDir : Type 0 where
  pub name : String
  pub is_dir : Bool
  pub entries : Option (List Entry)

-- docker.SandboxRef
pub record SandboxRef : Type 0 where
  pub id : String
  pub project_id : String
  pub attempt : ℕ

-- uuid.Parse, strconv.ParseInt, olderThan for an entry of a project, and whether the store answers
-- WorkspaceRetained for a project and a workspace with an error.
pub record Disk : Type 0 where
  pub parse_uuid : String → Option String
  pub parse_int : String → Option ℕ
  pub older_than : String → String → Bool
  pub retained_fails : String → ℕ → Bool

-- Collector.expired
unfoldable pub expired : Db → String → ℕ → ℕ → Bool
expired db pid id cutoff = elim (get_attempt db pid id) [
  | none ↦ true
  | some e ↦
      if is_pending e.status || is_running e.status || is_unset_status e.status
      then false
      else elim e.finished_at [ none ↦ false | some t ↦ ltb t cutoff ]
]
  where
    is_unset_status : Status → Bool
    is_unset_status Status.unset = true
    is_unset_status _ = false

-- Whether cleanupWorkspaces leaves an entry of the directory of project `pid`, named `dir`.
unfoldable pub keeps_workspace : Disk → Db → (dir pid : String) → ℕ → Entry → Bool
keeps_workspace disk db dir pid cutoff e =
    if not e.is_dir
    then true
    else if str_eq e.name "_discovery"
    then not (disk.older_than dir e.name)
    else elim (disk.parse_int e.name) [
      | none ↦ false
      | some id ↦ not (disk.retained_fails pid id) && workspace_retained db pid id cutoff
    ]

-- Whether cleanupLogs leaves an entry of the directory of project `pid`.
unfoldable pub keeps_log : Disk → Db → (dir pid : String) → ℕ → Entry → Bool
unfolding expired
keeps_log disk db dir pid cutoff e =
    if not e.is_dir
    then true
    else elim (disk.parse_int e.name) [ none ↦ false | some id ↦ not (expired db pid id cutoff) ]

abbrev pub filter_entries : (Entry → Bool) → List Entry → List Entry
filter_entries p [] = []
filter_entries p (e ∷ es) = if p e then e ∷ filter_entries p es else filter_entries p es

-- The walk that cleanupWorkspaces and cleanupLogs share: what is left of a directory.
unfoldable pub clean_dir : Disk → ((dir pid : String) → Entry → Bool) → ProjectDir → ProjectDir
clean_dir disk keeps d = if not d.is_dir then d else elim (disk.parse_uuid d.name) [
  | none ↦ d
  | some pid ↦ elim d.entries [
    | none ↦ d
    | some es ↦ record d { entries = some (filter_entries (keeps d.name pid) es) }
  ]
]

-- Collector.cleanupWorkspaces
unfoldable pub cleanup_workspaces : Disk → Db → ℕ → List ProjectDir → List ProjectDir
unfolding clean_dir keeps_workspace
cleanup_workspaces disk db cutoff dirs =
    map (clean_dir disk (λ dir pid e. keeps_workspace disk db dir pid cutoff e)) dirs

-- Collector.cleanupLogs
unfoldable pub cleanup_logs : Disk → Db → ℕ → List ProjectDir → List ProjectDir
unfolding clean_dir keeps_log
cleanup_logs disk db cutoff dirs =
    map (clean_dir disk (λ dir pid e. keeps_log disk db dir pid cutoff e)) dirs

-- Collector.cleanupSandboxes: the sandboxes that are left, if removing one never fails.
unfoldable pub cleanup_sandboxes : Disk → Db → List SandboxRef → List SandboxRef
cleanup_sandboxes disk db [] = []
cleanup_sandboxes disk db (sb ∷ sandboxes) =
    let rest = cleanup_sandboxes disk db sandboxes in
    elim (disk.parse_uuid sb.project_id) [
      | none ↦ sb ∷ rest
      | some pid ↦ elim (get_attempt db pid sb.attempt) [
        | none ↦ rest
        | some e ↦ if is_running e.status then sb ∷ rest else rest
      ]
    ]
