-- ===== src/Webhooks/Selects.antt =====
-- Which workflows a webhook queues.
use pici.Base.{
  ℕ, String, ◌≡◌, refl, sym, ap, ◌∙◌, inl, inr, Bool, true, false, not, ◌&&◌, ◌||◌, none, List, [],
  ◌∷◌, ◌++◌, arith, str_eq, Bool-cases,
}
use mathlib.Core.List.{append-nil, append_assoc}
use pici.Records.{Trigger, Project}
use pici.Store.{Row, Db}
use pici.Runner.{Queued, refused, queued, enqueue_git}
use pici.Runner.First.{IsOpen, IsRun, IsFirst, enqueue_git-IsFirst}
use pici.Webhooks.Wants.{Runs, runs_workflow_sound, runs_workflow_complete}
use pici.Webhooks.{
  Response, ignored, pong, bad_request, Env, EventKind, runs_workflow, queued_db, is_queued,
  trigger_each, handle_pull_request, github, GithubEvent, ping, other, malformed, push_event,
  pull_request_event, zero_sha, handle_push,
}

-- The members of a list with `P`, in their order, and no others.
pub data Selects (P : String → Type 0) : List String → List String → Type 0 where
  nothing_left : Selects P [] []
  taken :
      {w : String} {ws chosen : List String}
      → P w
      → Selects P ws chosen
      → Selects P (w ∷ ws) (w ∷ chosen)
  left_out :
      {w : String} {ws chosen : List String}
      → ¬ P w
      → Selects P ws chosen
      → Selects P (w ∷ ws) chosen

-- Rows that are a pending run each, of the workflows in their order.
abbrev pub Queues : Project → (ref sha : String) → ℕ → List String → List Row → Type 0
Queues project ref sha now [] [] = Unit {0}
Queues project ref sha now [] (r ∷ rows) = ⊥
Queues project ref sha now (wf ∷ workflows) [] = ⊥
Queues project ref sha now (wf ∷ workflows) (r ∷ rows) =
    IsRun project wf ref sha Trigger.webhook now none r × Queues project ref sha now workflows rows

step_queued :
    (pid : String) (P : Row → Type 0) (db : Db) (q : Queued)
    → IsFirst pid P db q
    → IsOpen pid (queued_db db q)
      × ((r : Row) × ((queued_db db q).rows ≡ db.rows ++ r ∷ []) × P r × (is_queued q ≡ true))
unfolding IsFirst
step_queued pid P db (refused err) empty = elim empty [ ]
step_queued pid P db (queued db' e) (o, f) = (o, (f.0, f.1, f.2, refl))

-- Let the project exist, and its sequence have given out the ids in the table. Of the workflows at a
-- ref, an event queues exactly those whose ci.yml can be read, is accepted and wants the event by its
-- triggers and path filters, in their order: these are named in the answer, and the table gets one row
-- more for each of them, a pending run of that workflow at the ref and commit of the event.
pub trigger_each-selected :
    (env : Env) (workflows : List String) (db : Db) (project : Project) (event : EventKind)
    (ref sha base_branch : String) (changed : List String) (is_tag : Bool)
    → IsOpen project.id db
    → let r = trigger_each env db project event ref sha base_branch changed is_tag workflows in
      Selects (Runs env event ref base_branch changed is_tag) workflows r.1
      × ((new : List Row) × (r.0.rows ≡ db.rows ++ new) × Queues project ref sha env.now r.1 new)
unfolding trigger_each
trigger_each-selected env [] db project event ref sha base_branch changed is_tag o =
    (nothing_left, ([], sym (append-nil db.rows), tt))
trigger_each-selected env (wf ∷ workflows) db project event ref sha base_branch changed is_tag o =
    elim (Bool-cases (runs_workflow env event ref base_branch changed is_tag wf)) [
      | inl runs ↦
          let q = enqueue_git db project wf ref sha Trigger.webhook env.now none in
          let (open_still, (r, one, run, done)) =
            step_queued project.id (IsRun project wf ref sha Trigger.webhook env.now none) db q
              (enqueue_git-IsFirst db project wf ref sha Trigger.webhook env.now none o) in
          let (chosen, (new, rows, queues)) =
            trigger_each-selected env workflows (queued_db db q) project event ref sha base_branch
              changed is_tag open_still in
          rw (runs, done)
            (
              taken (runs_workflow_sound env event ref base_branch changed is_tag wf runs) chosen,
              (
                r ∷ new,
                rows ∙ ap (λ xs. xs ++ new) one ∙ append_assoc db.rows (r ∷ []) new,
                (run, queues),
              ),
            )
      | inr skips ↦
          let (chosen, more) =
            trigger_each-selected env workflows db project event ref sha base_branch changed is_tag
              o in
          rw skips (
            left_out
                (λ wanted.
                  let runs =
                    runs_workflow_complete env event ref base_branch changed is_tag wf wanted in
                  cc)
                chosen,
            more,
          )
    ]

-- A push that deletes nothing, or a pull request from the repository itself.
abbrev pub runs_code : GithubEvent → Bool
runs_code ping = false
runs_code other = false
runs_code malformed = false
runs_code (push_event e) = not e.deleted && not (str_eq e.after zero_sha)
runs_code (pull_request_event e) = not (str_eq e.head_repo "") && str_eq e.head_repo e.base_repo

abbrev handle_event : Env → Db → Project → GithubEvent → Db × Response
handle_event env db project event = elim event [
  | ping ↦ (db, pong)
  | other ↦ (db, ignored)
  | malformed ↦ (db, bad_request)
  | push_event e ↦ handle_push env db project e
  | pull_request_event e ↦ handle_pull_request env db project e
]

event-unchanged :
    (env : Env) (db : Db) (project : Project) (event : GithubEvent)
    → runs_code event ≡ false
    → (handle_event env db project event).0 ≡ db
event-unchanged env db project ping h = refl
event-unchanged env db project other h = refl
event-unchanged env db project malformed h = refl
event-unchanged env db project (push_event e) h =
    let nothing : (e.deleted || str_eq e.after zero_sha) ≡ true = ground (arith, h) in
    unfold handle_push in rw nothing refl
event-unchanged env db project (pull_request_event e) h =
    let fork : (str_eq e.head_repo "" || not (str_eq e.head_repo e.base_repo)) ≡ true =
      ground (arith, h) in
    unfold handle_pull_request in
    elim (Bool-cases (
      not (
        str_eq e.action "opened" || str_eq e.action "synchronize" || str_eq e.action "reopened"))) [
          | inl out ↦ rw out refl
          | inr into ↦ rw (into, fork) refl
        ]

-- Whether a delivery to the GitHub webhook may run code: it is signed or the project has no secret,
-- and it is a push that deletes nothing or a pull request from the repository itself.
abbrev pub may_run : Project → Bool → GithubEvent → Bool
may_run project signed event = (str_eq project.webhook_secret "" || signed) && runs_code event

-- A delivery to the GitHub webhook leaves the table of executions as it is if the project has a secret
-- and the delivery is not signed with it; and so does, signed or not, one that is malformed, a ping or
-- of another type, the push that deletes a ref, and the event of a pull request whose head is not a
-- branch of the repository itself.
pub github-unchanged :
    (env : Env) (db : Db) (project : Project) (signed : Bool) (event : GithubEvent)
    → may_run project signed event ≡ false
    → (github env db project signed event).0 ≡ db
unfolding github handle_push handle_pull_request
github-unchanged env db project signed event h =
    elim (Bool-cases (not (str_eq project.webhook_secret "") && not signed)) [
      | inl bad ↦ rw bad refl
      | inr good ↦ rw good (event-unchanged env db project event (ground (arith, good, h)))
    ]
