-- ===== src/Run/Underway.antt =====
-- What the stages of a run keep.
use pici.Base.{
  ℕ, ◌+◌, String, ◌≡◌, refl, ◌∙◌, ◌⊎◌, inl, inr, Bool, true, false, not, ◌&&◌, ◌||◌, Option, none,
  some, List, [], ◌∷◌, ◌++◌, arith, str_eq, if◌then◌else◌, any, Text, Dict,
}
use pici.Records.{StepResult, Execution, is_retry}
use pici.Config.{Config}
use pici.Config.Parse.{Parsed, ok, err, parse}
use pici.Config.Triggers.{effective_schedule}
use pici.Steps.{OrderResult, order_steps}
use pici.Steps
use pici.Executor.{Progress}
use pici.Store.{Db, is_at, update_execution, cancel_running_in_group}
use pici.Store.Keys.{any_at-update_where}
use pici.Run.{
  Outside, Effect, synced_schedule, started, built, pushed, sandbox_created, client_opened,
  client_closed, sandbox_removed, finished, removed_snapshot, RunState, Stage, next, stop, ◌>>=◌,
  check, saved, did, is_snapshot, prepare_source, read_workflow, is_refused, with_config,
  with_content, planned, planned_as, plan_steps, plan_schedule, join_group, plan,
  workflow_needs_sandbox, push_image, build_image, results_in, persist_updates,
}

abbrev pub is_report : Effect → Bool
is_report (finished _ _) = true
is_report _ = false

abbrev pub is_sandbox_start : Effect → Bool
is_sandbox_start sandbox_created = true
is_sandbox_start _ = false

abbrev pub is_sandbox_stop : Effect → Bool
is_sandbox_stop sandbox_removed = true
is_sandbox_stop _ = false

abbrev pub is_client_start : Effect → Bool
is_client_start client_opened = true
is_client_start _ = false

abbrev pub is_client_stop : Effect → Bool
is_client_stop client_closed = true
is_client_stop _ = false

abbrev pub is_removal : Effect → Bool
is_removal (removed_snapshot _) = true
is_removal _ = false

abbrev pub tally : (Effect → Bool) → List Effect → ℕ
tally p [] = 0
tally p (e ∷ es) = (if p e then 1 else 0) + tally p es

pub tally-snoc :
    (p : Effect → Bool) (es : List Effect) (e : Effect)
    → tally p (es ++ e ∷ []) ≡ tally p es + (if p e then 1 else 0)
tally-snoc p [] e = ground arith
tally-snoc p (d ∷ es) e = ground (arith, tally-snoc p es e)

-- What a run leaves alone of its execution.
abbrev pub IsSame : Execution → Execution → Type 0
IsSame e f =
    (e.project_id ≡ f.project_id)
    × (e.id ≡ f.id)
    × (e.source ≡ f.source)
    × (e.snapshot_id ≡ f.snapshot_id)

-- The execution `exec` with its row in the table, in the middle of its run.
pub record IsUnderway (db : Db) (exec : Execution) (st : RunState) : Type 0 where
  pub same : IsSame st.exec exec
  pub row :
      any (is_at exec.project_id exec.id) st.db.rows ≡ any (is_at exec.project_id exec.id) db.rows
  pub unreported : tally is_report st.effects ≡ 0
  pub unopened : tally is_sandbox_start st.effects ≡ 0
  pub unclosed : tally is_sandbox_stop st.effects ≡ 0
  pub undialed : tally is_client_start st.effects ≡ 0
  pub unhung : tally is_client_stop st.effects ≡ 0
  pub unremoved : tally is_removal st.effects ≡ 0

pub any_at-update_execution :
    (pid : String) (id : ℕ) (db : Db) (e : Execution)
    → any (is_at pid id) (update_execution db e).rows ≡ any (is_at pid id) db.rows
unfolding update_execution
any_at-update_execution pid id db e =
    any_at-update_where (is_at e.project_id e.id) _ pid id db.rows (λ r. (refl, refl))

any_at-cancel_running :
    (pid : String) (id : ℕ) (db : Db) (p group : String) (exclude : ℕ)
    → any (is_at pid id) (cancel_running_in_group db p group exclude).rows
      ≡ any (is_at pid id) db.rows
unfolding cancel_running_in_group
any_at-cancel_running pid id db p group exclude =
    any_at-update_where _ _ pid id db.rows (λ r. (refl, refl))

pub any_at-persist_updates :
    (pid : String) (id : ℕ) (base : Execution) (updates : List Progress) (db : Db)
    → any (is_at pid id) (persist_updates base updates db).rows ≡ any (is_at pid id) db.rows
unfolding persist_updates
any_at-persist_updates pid id base [] db = refl
any_at-persist_updates pid id base (p ∷ updates) db =
    any_at-persist_updates pid id base updates
      (update_execution db (record base { steps = results_in p }))
    ∙ any_at-update_execution pid id db (record base { steps = results_in p })

pub saved-IsUnderway :
    (db : Db) (exec : Execution) (st : RunState) (e : Execution)
    → IsSame e st.exec
    → IsUnderway db exec st
    → IsUnderway db exec (saved st e)
saved-IsUnderway db exec st e (p, i, s, a) u = record {
  same = (p ∙ u.same.0, i ∙ u.same.1, s ∙ u.same.2, a ∙ u.same.3);
  row = any_at-update_execution exec.project_id exec.id st.db e ∙ u.row;
  unreported = u.unreported;
  unopened = u.unopened;
  unclosed = u.unclosed;
  undialed = u.undialed;
  unhung = u.unhung;
  unremoved = u.unremoved;
}

-- An effect that is neither a report nor of the sandbox.
abbrev is_other : Effect → Bool
is_other e =
    not (is_report e)
    && (not (is_sandbox_start e) && (not (is_sandbox_stop e) && not (is_removal e)))
    && (not (is_client_start e) && not (is_client_stop e))

pub did-IsUnderway :
    (db : Db) (exec : Execution) (st : RunState) (e : Effect)
    → is_other e ≡ true
    → IsUnderway db exec st
    → IsUnderway db exec (did st e)
did-IsUnderway db exec st e o u = record {
  same = u.same;
  row = u.row;
  unreported = ground (arith, tally-snoc is_report st.effects e, u.unreported);
  unopened = ground (arith, tally-snoc is_sandbox_start st.effects e, u.unopened);
  unclosed = ground (arith, tally-snoc is_sandbox_stop st.effects e, u.unclosed);
  undialed = ground (arith, tally-snoc is_client_start st.effects e, u.undialed);
  unhung = ground (arith, tally-snoc is_client_stop st.effects e, u.unhung);
  unremoved = ground (arith, tally-snoc is_removal st.effects e, u.unremoved);
}

-- `P` of the state that a stage ends in.
unfoldable pub Holds : {A : Type 0} → (A → RunState) → (RunState → Type 0) → Stage A → Type 0
Holds f P (next a) = P (f a)
Holds f P (stop st message) = P st

abbrev pub self : RunState → RunState
self st = st

pub check-Holds :
    (P : RunState → Type 0) (st : RunState) (e : Option String) → P st → Holds self P (check st e)
unfolding Holds
check-Holds P st none p = p
check-Holds P st (some message) p = p

pub bind-Holds :
    {A B : Type 0} (f : A → RunState) (g : B → RunState) (P : RunState → Type 0) (m : Stage A)
    (k : A → Stage B)
    → Holds f P m
    → ((a : A) → P (f a) → Holds g P (k a))
    → Holds g P (m >>= k)
unfolding Holds
bind-Holds f g P (next a) k h after = after a h
bind-Holds f g P (stop st message) k h after = h

pub either : {A : Type 0} (P : A → Type 0) (c : Bool) (a b : A) → P a → P b → P (if c then a else b)
either P true a b p q = p
either P false a b p q = q

pub prepare-Holds :
    (P : RunState → Type 0) (out : Outside) (st : RunState)
    → P st
    → Holds self P (prepare_source out st)
unfolding prepare_source
prepare-Holds P out st p =
    either (Holds self P) (is_retry st.exec.trigger) _ _ (check-Holds P st _ p)
      (check-Holds P st _ p)

pub next-Holds : (P : RunState → Type 0) (st : RunState) → P st → Holds self P (next st)
unfolding Holds
next-Holds P st p = p

pub stop-Holds :
    (P : RunState → Type 0) (st : RunState) (message : String)
    → P st
    → Holds self P (stop st message)
unfolding Holds
stop-Holds P st message p = p

with_config-Holds :
    (P : RunState → Type 0) (out : Outside) (st : RunState) (c : Parsed Config)
    → P st
    → Holds (λ p. p.0) P (with_config out st c)
unfolding Holds
with_config-Holds P out st (err e) p = p
with_config-Holds P out st (ok cfg) p =
    either (Holds (λ q. q.0) P) (is_refused out st.exec cfg)
      (stop st (out.manual_text st.exec.workflow st.exec.ref)) (next (st, cfg)) p p

with_content-Holds :
    (P : RunState → Type 0) (out : Outside) (st : RunState) (content : String ⊎ Text)
    → P st
    → Holds (λ p. p.0) P (with_content out st content)
unfolding Holds
with_content-Holds P out st (inl message) p = p
with_content-Holds P out st (inr content) p =
    with_config-Holds P out st (parse out.unmarshal_root out.unmarshal_config content) p

pub read-Holds :
    (db : Db) (exec : Execution) (out : Outside) (st : RunState)
    → IsUnderway db exec st
    → Holds (λ p. p.0) (IsUnderway db exec) (read_workflow out st)
unfolding read_workflow
read-Holds db exec out st u =
    let e : Execution = record st.exec { commit_sha = out.head_sha } in
    with_content-Holds (IsUnderway db exec) out (saved st e) (out.read_config st.exec.workflow)
      (saved-IsUnderway db exec st e (refl, refl, refl, refl) u)

planned_as-IsUnderway :
    (db : Db) (exec : Execution) (carry : Dict StepResult) (st : RunState)
    (r : OrderResult (List String))
    → IsUnderway db exec st
    → IsUnderway db exec (planned_as carry st r)
planned_as-IsUnderway db exec carry st (Steps.err e) u = u
planned_as-IsUnderway db exec carry st (Steps.ok order) u =
    saved-IsUnderway db exec st (record st.exec { steps = planned carry order })
      (refl, refl, refl, refl) u

plan_steps-IsUnderway :
    (db : Db) (exec : Execution) (cfg : Config) (carry : Dict StepResult) (st : RunState)
    → IsUnderway db exec st
    → IsUnderway db exec (plan_steps cfg carry st)
unfolding plan_steps
plan_steps-IsUnderway db exec cfg carry st u =
    planned_as-IsUnderway db exec carry st (order_steps cfg.steps) u

plan_schedule-IsUnderway :
    (db : Db) (exec : Execution) (cfg : Config) (st : RunState)
    → IsUnderway db exec st
    → IsUnderway db exec (plan_schedule cfg st)
unfolding plan_schedule
plan_schedule-IsUnderway db exec cfg st u =
    either (IsUnderway db exec) (is_snapshot st.exec.source) _ _ u
      (did-IsUnderway db exec st (synced_schedule (effective_schedule cfg)) refl u)

join_group-IsUnderway :
    (db : Db) (exec : Execution) (cfg : Config) (st : RunState)
    → IsUnderway db exec st
    → IsUnderway db exec (join_group cfg st)
unfolding join_group
join_group-IsUnderway db exec cfg st u =
    let e : Execution = record st.exec { concurrency_group = cfg.concurrency } in
    let v = saved-IsUnderway db exec st e (refl, refl, refl, refl) u in
    either (IsUnderway db exec) (str_eq cfg.concurrency "") _ _ u (record {
      same = v.same;
      row =
          any_at-cancel_running exec.project_id exec.id (saved st e).db st.exec.project_id
            cfg.concurrency st.exec.id
          ∙ v.row;
      unreported = v.unreported;
      unopened = v.unopened;
      unclosed = v.unclosed;
      undialed = v.undialed;
      unhung = v.unhung;
      unremoved = v.unremoved;
    })

pub plan-IsUnderway :
    (db : Db) (exec : Execution) (cfg : Config) (carry : Dict StepResult) (st : RunState)
    → IsUnderway db exec st
    → IsUnderway db exec (plan cfg carry st)
unfolding plan
plan-IsUnderway db exec cfg carry st u =
    let st1 = plan_steps cfg carry st in
    let st2 = plan_schedule cfg st1 in
    let u1 = plan_steps-IsUnderway db exec cfg carry st u in
    let u2 = plan_schedule-IsUnderway db exec cfg st1 u1 in
    did-IsUnderway db exec (join_group cfg st2) started refl
      (join_group-IsUnderway db exec cfg st2 u2)

push-Holds :
    (db : Db) (exec : Execution) (out : Outside) (st : RunState)
    → IsUnderway db exec st
    → Holds self (IsUnderway db exec) (push_image out st)
push-Holds db exec out st u =
    let P = IsUnderway db exec in
    bind-Holds self self P (check st out.push) _ (check-Holds P st out.push u)
      (λ st2 u2. next-Holds P (did st2 pushed) (did-IsUnderway db exec st2 pushed refl u2))

pub build-Holds :
    (db : Db) (exec : Execution) (out : Outside) (cfg : Config) (st : RunState)
    → IsUnderway db exec st
    → Holds self (IsUnderway db exec) (build_image out cfg st)
unfolding build_image
build-Holds db exec out cfg st u =
    let P = IsUnderway db exec in
    let built_holds : (st1 : RunState)
        → P st1
        → Holds self P (
            if workflow_needs_sandbox cfg
            then push_image out (did st1 built)
            else next (did st1 built)) =
      λ st1 u1.
        let v = did-IsUnderway db exec st1 built refl u1 in
        either (Holds self P) (workflow_needs_sandbox cfg) (push_image out (did st1 built))
          (next (did st1 built)) (push-Holds db exec out (did st1 built) v)
          (next-Holds P (did st1 built) v) in
    either (Holds self P) (not (str_eq cfg.image "")) _ _ (next-Holds P st u) (
      either (Holds self P)
        (workflow_needs_sandbox cfg && not (out.has_registry || out.ensures_registry)) _ _
        (stop-Holds P st "docker sandbox unavailable: image registry is not configured" u)
        (bind-Holds self self P (check st out.build) _ (check-Holds P st out.build u) built_holds))
