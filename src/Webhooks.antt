-- ===== src/Webhooks.antt =====
-- internal/handlers/webhooks.go: which executions a push, pull request or merge request queues.
pub mod Wants
pub mod Selects
use pici.Base.{
  ℕ, zero, suc, ◌+◌, ◌-◌, ◌*◌, ◌≤◌, ◌<◌, String, ◌≡◌, refl, sym, ap, ◌∙◌, ◌≢◌, ◌↔◌, ◌⊎◌, inl, inr,
  Bool, true, false, not, ◌&&◌, ◌||◌, Option, none, some, List, [], ◌∷◌, ◌++◌, map, arith, eq_iff,
  ltb, leb, ◌==◌, str_eq, if◌then◌else◌, ==_iff, Bool-cases, Option-cases, length, get_elem?, any,
  all, drop, take, All, length-append, Text, codes, has_prefix, contains, ℤ, pos, negsuc, decrement,
  increment, is_zero, is_negative, is_positive, Dict, get, get_or, put, get_or-put, get-put, count,
  count-append, length-le_of_count, count-eq_of_length,
}
use Prim.Native.Char.{code}
use Prim.Native.String.{◌++◌ as str_append}
use pici.Records.{Trigger, Project, Execution}
use pici.Config.{Config}
use pici.Config.Parse.{Fields, Parsed, ok, err, parse}
use pici.Config.Triggers.{matches_push, matches_pull_request}
use pici.Store.{Db}
use pici.Runner.{Queued, refused, queued, enqueue_git}

abbrev pub zero_sha : String
zero_sha = "0000000000000000000000000000000000000000"

-- strings.CutPrefix, the prefix first.
unfoldable pub cut_prefix : String → String → Option String
cut_prefix String.[] s = some s
cut_prefix (String.◌∷◌ p ps) String.[] = none
cut_prefix (String.◌∷◌ p ps) (String.◌∷◌ c s) = if code p == code c then cut_prefix ps s else none

-- normalizeRef
unfoldable pub normalize_ref : String → String
unfolding cut_prefix
normalize_ref ref = elim (cut_prefix "refs/heads/" ref) [
  | some branch ↦ branch
  | none ↦ elim (cut_prefix "refs/tags/" ref) [ some tag ↦ tag | none ↦ ref ]
]

pub record Commit : Type 0 where
  pub added : List String
  pub modified : List String
  pub removed : List String

-- The parts of gh.PushEvent that are read.
pub record PushEvent : Type 0 where
  pub deleted : Bool
  pub after : String
  pub ref : String
  pub commits : List Commit

-- The parts of gh.PullRequestEvent that are read.
pub record PullRequestEvent : Type 0 where
  pub action : String
  pub number : ℕ
  pub head_repo : String
  pub head_sha : String
  pub base_repo : String
  pub base_ref : String

-- The parts of gl.MergeEvent that are read.
pub record MergeEvent : Type 0 where
  pub action : String
  pub iid : ℕ
  pub source_project_id : ℕ
  pub target_project_id : ℕ
  pub source_branch : String
  pub target_branch : String
  pub last_commit : String

-- The answers of the handlers.
pub data Response : Type 0 where
  pong ignored from_fork unauthorized bad_request server_error : Response
  accepted : List String → Response

pub data EventKind : Type 0 where
  push pull_request : EventKind

-- What the code takes from elsewhere: doublestar.Match, the two YAML decoders, the names of the
-- workflows that DiscoverProjectWorkflows finds at a ref, the contents of their ci.yml, the default
-- branch that Detect finds, the files of a pull or merge request, strconv.Itoa, and the clock.
pub record Env : Type 0 where
  pub glob : String → String → Option Bool
  pub unmarshal_root : Text → Option Fields
  pub unmarshal_config : Text → Parsed Config
  pub discover : String → Option (List String)
  pub read_file : String → Option Text
  pub default_branch : String
  pub list_files : ℕ → Option (List String)
  pub itoa : ℕ → String
  pub now : ℕ

-- The files of the commits of a push, in the order of `changed`.
unfoldable pub changed_files : List Commit → List String
changed_files [] = []
changed_files (c ∷ commits) = c.added ++ c.modified ++ c.removed ++ changed_files commits

-- Whether `trigger` runs a workflow.
unfoldable pub runs_workflow :
    Env → EventKind → (ref base_branch : String) → List String → Bool → String → Bool
runs_workflow env event ref base_branch changed is_tag wf = elim (env.read_file wf) [
  | none ↦ false
  | some content ↦ elim (parse env.unmarshal_root env.unmarshal_config content) [
    | err e ↦ false
    | ok cfg ↦ elim event [
      | push ↦ matches_push env.glob cfg env.default_branch ref is_tag changed
      | pull_request ↦ matches_pull_request env.glob cfg env.default_branch base_branch changed
    ]
  ]
]

abbrev pub queued_db : Db → Queued → Db
queued_db db (refused e) = db
queued_db db (queued db' e) = db'

abbrev pub is_queued : Queued → Bool
is_queued (refused e) = false
is_queued (queued db' e) = true

-- The loop of `trigger` over the workflows.
unfoldable pub trigger_each :
    Env
    → Db
    → Project
    → EventKind
    → (ref sha base_branch : String) → List String
    → Bool
    → List String
    → Db × List String
trigger_each env db project event ref sha base_branch changed is_tag [] = (db, [])
trigger_each env db project event ref sha base_branch changed is_tag (wf ∷ workflows) =
    let q = enqueue_git db project wf ref sha Trigger.webhook env.now none in
    let runs = runs_workflow env event ref base_branch changed is_tag wf in
    let db' = if runs then queued_db db q else db in
    let rest = trigger_each env db' project event ref sha base_branch changed is_tag workflows in
    (rest.0, if runs && is_queued q then wf ∷ rest.1 else rest.1)

-- WebhooksHandler.trigger
unfoldable pub trigger :
    Env
    → Db
    → Project
    → EventKind
    → (ref sha base_branch : String) → List String
    → Bool
    → Db × Response
unfolding trigger_each
trigger env db project event ref sha base_branch changed is_tag =
    elim (env.discover (if str_eq sha "" then ref else sha)) [
      | none ↦ (db, server_error)
      | some workflows ↦
          let r = trigger_each env db project event ref sha base_branch changed is_tag workflows in
          (r.0, accepted r.1)
    ]

-- WebhooksHandler.handlePush
unfoldable pub handle_push : Env → Db → Project → PushEvent → Db × Response
unfolding trigger
handle_push env db project payload =
    if payload.deleted || str_eq payload.after zero_sha
    then (db, ignored)
    else trigger env db project push (normalize_ref payload.ref) payload.after ""
        (changed_files payload.commits)
        (elim (cut_prefix "refs/tags/" payload.ref) [ none ↦ false | some rest ↦ true ])

abbrev pub files_of : Env → Project → ℕ → List String
files_of env project number =
    if str_eq project.auth_secret ""
    then []
    else elim (env.list_files number) [ none ↦ [] | some files ↦ files ]

-- WebhooksHandler.handlePullRequest
unfoldable pub handle_pull_request : Env → Db → Project → PullRequestEvent → Db × Response
unfolding trigger
handle_pull_request env db project payload =
    if not (
      str_eq payload.action "opened"
      || str_eq payload.action "synchronize"
      || str_eq payload.action "reopened")
    then (db, ignored)
    else if str_eq payload.head_repo "" || not (str_eq payload.head_repo payload.base_repo)
    then (db, from_fork)
    else trigger env db project pull_request
        (str_append "refs/pull/" (str_append (env.itoa payload.number) "/head")) payload.head_sha
        payload.base_ref (files_of env project payload.number) false

-- WebhooksHandler.handleMergeRequest
unfoldable pub handle_merge_request : Env → Db → Project → MergeEvent → Db × Response
unfolding trigger
handle_merge_request env db project payload =
    if not (
      str_eq payload.action "open"
      || str_eq payload.action "reopen"
      || str_eq payload.action "update")
    then (db, ignored)
    else if (payload.source_project_id == 0)
        || not (payload.source_project_id == payload.target_project_id)
    then (db, from_fork)
    else trigger env db project pull_request payload.source_branch payload.last_commit
        payload.target_branch (files_of env project payload.iid) false

-- WebhooksHandler.triggerPush
unfoldable pub trigger_push :
    Env → Db → Project → (ref after : String) → List String → Bool → Db × Response
unfolding trigger
trigger_push env db project ref after changed is_tag =
    if str_eq after zero_sha
    then (db, ignored)
    else trigger env db project push (normalize_ref ref) after "" changed is_tag

-- A body as gh.ParseWebHook reads it, by its type.
pub data GithubEvent : Type 0 where
  ping other malformed : GithubEvent
  push_event : PushEvent → GithubEvent
  pull_request_event : PullRequestEvent → GithubEvent

-- WebhooksHandler.GitHub, for a project that exists and a body that can be read. `signed` is the
-- answer of gh.ValidateSignature.
unfoldable pub github : Env → Db → Project → (signed : Bool) → GithubEvent → Db × Response
unfolding handle_push handle_pull_request
github env db project signed event =
    if not (str_eq project.webhook_secret "") && not signed
    then (db, unauthorized)
    else elim event [
      | ping ↦ (db, pong)
      | other ↦ (db, ignored)
      | malformed ↦ (db, bad_request)
      | push_event e ↦ handle_push env db project e
      | pull_request_event e ↦ handle_pull_request env db project e
    ]

-- A body as gl.ParseWebhook reads it, by its type. A TagEvent has the parts of a PushEvent that are
-- read.
pub data GitlabEvent : Type 0 where
  other malformed : GitlabEvent
  push_event tag_event : PushEvent → GitlabEvent
  merge_event : MergeEvent → GitlabEvent

-- WebhooksHandler.GitLab, for a project that exists and a body that can be read.
unfoldable pub gitlab : Env → Db → Project → (token : String) → GitlabEvent → Db × Response
unfolding trigger_push handle_merge_request changed_files
gitlab env db project token event =
    if not (str_eq project.webhook_secret "") && not (str_eq token project.webhook_secret)
    then (db, unauthorized)
    else elim event [
      | other ↦ (db, ignored)
      | malformed ↦ (db, bad_request)
      | push_event e ↦ trigger_push env db project e.ref e.after (changed_files e.commits) false
      | tag_event e ↦ trigger_push env db project e.ref e.after (changed_files e.commits) true
      | merge_event e ↦ handle_merge_request env db project e
    ]
