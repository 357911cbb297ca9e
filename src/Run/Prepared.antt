-- ===== src/Run/Prepared.antt =====
-- The stages of a run up to the steps, put together.
use pici.Base.{
  ◌+◌, String, ◌≡◌, sym, ◌∙◌, inl, inr, Bool, true, false, not, ◌||◌, Option, none, some, arith,
  if◌then◌else◌, Bool-cases, any, Dict,
}
use pici.Records.{StepResult, Execution}
use pici.Config.{Config}
use pici.Store.{Db, is_at}
use pici.Run.{
  Outside, Effect, sandbox_created, client_opened, client_closed, sandbox_removed, RunState, Stage,
  next, stop, ◌>>=◌, check, did, prepare_source, read_workflow, carried, plan,
  workflow_needs_sandbox, build_image, pull_image, dial_sandbox, start_sandbox, set_up,
}
use pici.Run.Underway.{
  is_report, is_sandbox_start, is_sandbox_stop, is_client_start, is_client_stop, is_removal, tally,
  tally-snoc, IsSame, IsUnderway, Holds, self, check-Holds, prepare-Holds, read-Holds, either,
  plan-IsUnderway, build-Holds,
}

-- The state before the steps run: the sandbox runs, with a client, if the workflow needs one.
pub record IsReady (db : Db) (exec : Execution) (cfg : Config) (st : RunState) : Type 0 where
  pub same : IsSame st.exec exec
  pub row :
      any (is_at exec.project_id exec.id) st.db.rows ≡ any (is_at exec.project_id exec.id) db.rows
  pub unreported : tally is_report st.effects ≡ 0
  pub opened : tally is_sandbox_start st.effects ≡ (if workflow_needs_sandbox cfg then 1 else 0)
  pub unclosed : tally is_sandbox_stop st.effects ≡ 0
  pub dialed : tally is_client_start st.effects ≡ (if workflow_needs_sandbox cfg then 1 else 0)
  pub unhung : tally is_client_stop st.effects ≡ 0
  pub unremoved : tally is_removal st.effects ≡ 0

-- The state when a stage stops: what was opened for the sandbox is closed.
pub record IsStopped (db : Db) (exec : Execution) (st : RunState) : Type 0 where
  pub same : IsSame st.exec exec
  pub row :
      any (is_at exec.project_id exec.id) st.db.rows ≡ any (is_at exec.project_id exec.id) db.rows
  pub unreported : tally is_report st.effects ≡ 0
  pub sandboxes : tally is_sandbox_start st.effects ≡ tally is_sandbox_stop st.effects
  pub clients : tally is_client_start st.effects ≡ tally is_client_stop st.effects
  pub unremoved : tally is_removal st.effects ≡ 0

pub IsStopped-underway :
    (db : Db) (exec : Execution) (st : RunState) → IsUnderway db exec st → IsStopped db exec st
IsStopped-underway db exec st u = record {
  same = u.same;
  row = u.row;
  unreported = u.unreported;
  sandboxes = u.unopened ∙ sym u.unclosed;
  clients = u.undialed ∙ sym u.unhung;
  unremoved = u.unremoved;
}

-- A stage stops with nothing left open, or is ready.
unfoldable pub IsPrepared : Db → Execution → Stage (RunState × (Config × Dict StepResult)) → Type 0
IsPrepared db exec (next (st, (cfg, carry))) = IsReady db exec cfg st
IsPrepared db exec (stop st message) = IsStopped db exec st

unopened-IsReady :
    (db : Db) (exec : Execution) (cfg : Config) (st : RunState)
    → IsUnderway db exec st
    → workflow_needs_sandbox cfg ≡ false
    → IsReady db exec cfg st
unopened-IsReady db exec cfg st u e = record {
  same = u.same;
  row = u.row;
  unreported = u.unreported;
  opened = ground (arith, u.unopened);
  unclosed = u.unclosed;
  dialed = ground (arith, u.undialed);
  unhung = u.unhung;
  unremoved = u.unremoved;
}

-- A tally after the effects of a sandbox.
tally-did :
    (p : Effect → Bool) (st : RunState) (e : Effect)
    → tally p (did st e).effects ≡ tally p st.effects + (if p e then 1 else 0)
tally-did p st e = tally-snoc p st.effects e

created-removed :
    (db : Db) (exec : Execution) (st : RunState)
    → IsUnderway db exec st
    → IsStopped db exec (did (did st sandbox_created) sandbox_removed)
created-removed db exec st u =
    let st1 = did st sandbox_created in
    let after = λ (p : Effect → Bool). tally-did p st1 sandbox_removed in
    let before = λ (p : Effect → Bool). tally-did p st sandbox_created in
    record {
      same = u.same;
      row = u.row;
      unreported = after is_report ∙ ground (arith, before is_report, u.unreported);
      sandboxes = ground (
        arith,
        after is_sandbox_start,
        before is_sandbox_start,
        after is_sandbox_stop,
        before is_sandbox_stop,
        u.unopened,
        u.unclosed,
      );
      clients = ground (
        arith,
        after is_client_start,
        before is_client_start,
        after is_client_stop,
        before is_client_stop,
        u.undialed,
        u.unhung,
      );
      unremoved = after is_removal ∙ ground (arith, before is_removal, u.unremoved);
    }

opened-IsReady :
    (db : Db) (exec : Execution) (cfg : Config) (st : RunState)
    → IsUnderway db exec st
    → workflow_needs_sandbox cfg ≡ true
    → IsReady db exec cfg (did (did st sandbox_created) client_opened)
opened-IsReady db exec cfg st u e =
    let st1 = did st sandbox_created in
    let after = λ (p : Effect → Bool). tally-did p st1 client_opened in
    let before = λ (p : Effect → Bool). tally-did p st sandbox_created in
    record {
      same = u.same;
      row = u.row;
      unreported = after is_report ∙ ground (arith, before is_report, u.unreported);
      opened = ground (arith, after is_sandbox_start, before is_sandbox_start, u.unopened);
      unclosed = ground (arith, after is_sandbox_stop, before is_sandbox_stop, u.unclosed);
      dialed = ground (arith, after is_client_start, before is_client_start, u.undialed);
      unhung = ground (arith, after is_client_stop, before is_client_stop, u.unhung);
      unremoved = after is_removal ∙ ground (arith, before is_removal, u.unremoved);
    }

cleaned_up-IsStopped :
    (db : Db) (exec : Execution) (cfg : Config) (st : RunState)
    → workflow_needs_sandbox cfg ≡ true
    → IsReady db exec cfg st
    → IsStopped db exec (did (did st client_closed) sandbox_removed)
cleaned_up-IsStopped db exec cfg st e u =
    let st1 = did st client_closed in
    let after = λ (p : Effect → Bool). tally-did p st1 sandbox_removed in
    let before = λ (p : Effect → Bool). tally-did p st client_closed in
    record {
      same = u.same;
      row = u.row;
      unreported = after is_report ∙ ground (arith, before is_report, u.unreported);
      sandboxes = ground (
        arith,
        after is_sandbox_start,
        before is_sandbox_start,
        after is_sandbox_stop,
        before is_sandbox_stop,
        u.opened,
        u.unclosed,
      );
      clients = ground (
        arith,
        after is_client_start,
        before is_client_start,
        after is_client_stop,
        before is_client_stop,
        u.dialed,
        u.unhung,
      );
      unremoved = after is_removal ∙ ground (arith, before is_removal, u.unremoved);
    }

after :
    {A B : Type 0} (f : A → RunState) (P : RunState → Type 0) (Q : Stage B → Type 0) (m : Stage A)
    (k : A → Stage B)
    → Holds f P m
    → ((a : A) → P (f a) → Q (k a))
    → ((st : RunState) (message : String) → P st → Q (stop st message))
    → Q (m >>= k)
unfolding Holds
after f P Q (next a) k h go halt = go a h
after f P Q (stop st message) k h go halt = halt st message h

pull_image-IsPrepared :
    (db : Db) (exec : Execution) (cfg : Config) (carry : Dict StepResult) (st : RunState)
    (error : Option String)
    → workflow_needs_sandbox cfg ≡ true
    → IsReady db exec cfg st
    → IsPrepared db exec (pull_image st error >>= λ st4. next (st4, (cfg, carry)))
unfolding IsPrepared
pull_image-IsPrepared db exec cfg carry st none e u = u
pull_image-IsPrepared db exec cfg carry st (some message) e u =
    cleaned_up-IsStopped db exec cfg st e u

dial_sandbox-IsPrepared :
    (db : Db) (exec : Execution) (out : Outside) (cfg : Config) (carry : Dict StepResult)
    (st : RunState) (error : Option String)
    → workflow_needs_sandbox cfg ≡ true
    → IsUnderway db exec st
    → IsPrepared db exec
        (dial_sandbox out (did st sandbox_created) error >>= λ st4. next (st4, (cfg, carry)))
unfolding IsPrepared
dial_sandbox-IsPrepared db exec out cfg carry st (some message) e u = created-removed db exec st u
dial_sandbox-IsPrepared db exec out cfg carry st none e u =
    pull_image-IsPrepared db exec cfg carry (did (did st sandbox_created) client_opened) out.pull e
      (opened-IsReady db exec cfg st u e)

start_sandbox-IsPrepared :
    (db : Db) (exec : Execution) (out : Outside) (cfg : Config) (carry : Dict StepResult)
    (st : RunState)
    → IsUnderway db exec st
    → IsPrepared db exec (start_sandbox out cfg st >>= λ st4. next (st4, (cfg, carry)))
unfolding start_sandbox IsPrepared
start_sandbox-IsPrepared db exec out cfg carry st u =
    elim (Bool-cases (workflow_needs_sandbox cfg)) [
      | inl e ↦ rw e (
          either (λ s. IsPrepared db exec (s >>= λ st4. next (st4, (cfg, carry))))
            (not (out.has_registry || out.ensures_registry))
            (stop st "image registry is not running") _ (IsStopped-underway db exec st u)
            (after self (IsUnderway db exec)
              (λ s. IsPrepared db exec (s >>= λ st4. next (st4, (cfg, carry))))
              (check st out.create_sandbox)
              (λ st1. dial_sandbox out (did st1 sandbox_created) out.dial)
              (check-Holds (IsUnderway db exec) st out.create_sandbox u)
              (λ st1 u1. dial_sandbox-IsPrepared db exec out cfg carry st1 out.dial e u1)
              (λ st1 message u1. IsStopped-underway db exec st1 u1)))
      | inr e ↦ rw e (unopened-IsReady db exec cfg st u e)
    ]

pub set_up-IsPrepared :
    (db : Db) (exec : Execution) (out : Outside) (st : RunState)
    → IsUnderway db exec st
    → IsPrepared db exec (set_up out st)
unfolding set_up IsPrepared
set_up-IsPrepared db exec out st u =
    let P = IsUnderway db exec in
    after self P (IsPrepared db exec) _ _ (check-Holds P st _ u)
      (λ st0 u0.
        after self P (IsPrepared db exec) (prepare_source out st0) _ (prepare-Holds P out st0 u0)
          (λ st1 u1.
            after (λ p. p.0) P (IsPrepared db exec) (read_workflow out st1) _
              (read-Holds db exec out st1 u1)
              (λ (st2, cfg) u2.
                let st2' = plan cfg (carried st2) st2 in
                after self P (IsPrepared db exec) (build_image out cfg st2') _
                  (build-Holds db exec out cfg st2'
                    (plan-IsUnderway db exec cfg (carried st2) st2 u2))
                  (λ st3 u3. start_sandbox-IsPrepared db exec out cfg (carried st2) st3 u3)
                  (λ st3 message u3. IsStopped-underway db exec st3 u3))
              (λ st2 message u2. IsStopped-underway db exec st2 u2))
          (λ st1 message u1. IsStopped-underway db exec st1 u1))
      (λ st0 message u0. IsStopped-underway db exec st0 u0)
