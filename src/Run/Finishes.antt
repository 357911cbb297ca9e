-- ===== src/Run/Finishes.antt =====
-- Runner.finish: what it stores, reports and removes.
use pici.Base.{
  ℕ, ◌+◌, String, ◌≡◌, refl, sym, ap, ◌∙◌, inl, inr, Bool, true, false, not, ◌&&◌, Option, none,
  some, List, [], ◌∷◌, arith, if◌then◌else◌, Bool-cases, any,
}
use mathlib.Core.Path.{subst}
use pici.Records.{Status, StepResult, Execution, is_pending, is_running}
use pici.Store.{Row, Db, is_at, update_where, find_where, update_execution}
use pici.Store.Keys.{KeepsKey}
use pici.Run.{
  Effect, finished, removed_snapshot, RunState, saved, or_now, ended, reported, snapshot_of,
  drop_snapshot, finish,
}
use pici.Run.Underway.{
  is_report, is_sandbox_start, is_sandbox_stop, is_client_start, is_client_stop, is_removal, tally,
  tally-snoc, IsSame,
}

abbrev pub is_terminal : Status → Bool
is_terminal status = not (is_pending status) && not (is_running status)

abbrev pub is_some : {A : Type 0} → Option A → Bool
is_some none = false
is_some (some _) = true

abbrev pub stored_status : Db → String → ℕ → Option Status
stored_status db pid id = elim (find_where (is_at pid id) db.rows) [
  | none ↦ none
  | some r ↦ some r.status
]

find_where-update_where :
    (pid : String) (id : ℕ) (f : Row → Row) (status : Status) (rows : List Row)
    → KeepsKey f
    → ((r : Row) → (f r).status ≡ status)
    → (elim (find_where (is_at pid id) (update_where (is_at pid id) f rows)) [
      | none ↦ none
      | some r ↦ some r.status
    ])
      ≡ (if any (is_at pid id) rows then some status else none)
find_where-update_where pid id f status [] k s = refl
find_where-update_where pid id f status (r ∷ rows) k s = elim (Bool-cases (is_at pid id r)) [
  | inl e ↦ rw (e, (k r).0, (k r).1, e) (ap some (s r))
  | inr e ↦ rw (e, e) (find_where-update_where pid id f status rows k s)
]

-- What is left to do when a run ends.
pub record IsEnding (db : Db) (exec : Execution) (st : RunState) : Type 0 where
  pub same : IsSame st.exec exec
  pub row :
      any (is_at exec.project_id exec.id) st.db.rows ≡ any (is_at exec.project_id exec.id) db.rows
  pub unreported : tally is_report st.effects ≡ 0
  pub unremoved : tally is_removal st.effects ≡ 0

-- The effects `p` of the removal of a snapshot.
abbrev pub owed : (Effect → Bool) → Option String → ℕ
owed p none = 0
owed p (some snapshot) = if p (removed_snapshot snapshot) then 1 else 0

reported-exec :
    (logged : Bool) (st : RunState) (status : Status) (message : String)
    → ((reported logged st status message).exec ≡ st.exec)
      × ((reported logged st status message).db ≡ st.db)
reported-exec true st status message = (refl, refl)
reported-exec false st status message = (refl, refl)

drop_snapshot-exec :
    (st : RunState) (o : Option String)
    → ((drop_snapshot st o).exec ≡ st.exec) × ((drop_snapshot st o).db ≡ st.db)
drop_snapshot-exec st none = (refl, refl)
drop_snapshot-exec st (some snapshot) = (refl, refl)

reported-tally :
    (p : Effect → Bool) (logged : Bool) (st : RunState) (status : Status) (message : String)
    → tally p (reported logged st status message).effects
      ≡ tally p st.effects + (if logged && p (finished status message) then 1 else 0)
reported-tally p true st status message = tally-snoc p st.effects (finished status message)
reported-tally p false st status message = omega arith

drop_snapshot-tally :
    (p : Effect → Bool) (st : RunState) (o : Option String)
    → tally p (drop_snapshot st o).effects ≡ tally p st.effects + owed p o
drop_snapshot-tally p st none = omega arith
drop_snapshot-tally p st (some snapshot) = tally-snoc p st.effects (removed_snapshot snapshot)

pub finish-exec :
    (now : ℕ) (logged : Bool) (st : RunState) (status : Status) (steps : List StepResult)
    (message : String)
    → (finish now logged st status steps message).exec
      ≡ ended now logged st.exec status steps message
unfolding finish
finish-exec now logged st status steps message =
    let st1 = saved st (ended now logged st.exec status steps message) in
    (drop_snapshot-exec (reported logged st1 status message) (snapshot_of st.exec)).0
    ∙ (reported-exec logged st1 status message).0

finish-db :
    (now : ℕ) (logged : Bool) (st : RunState) (status : Status) (steps : List StepResult)
    (message : String)
    → (finish now logged st status steps message).db
      ≡ update_execution st.db (ended now logged st.exec status steps message)
unfolding finish
finish-db now logged st status steps message =
    let st1 = saved st (ended now logged st.exec status steps message) in
    (drop_snapshot-exec (reported logged st1 status message) (snapshot_of st.exec)).1
    ∙ (reported-exec logged st1 status message).1

pub finish-tally :
    (p : Effect → Bool) (now : ℕ) (logged : Bool) (st : RunState) (status : Status)
    (steps : List StepResult) (message : String)
    → tally p (finish now logged st status steps message).effects
      ≡ tally p st.effects
        + (if logged && p (finished status message) then 1 else 0)
        + owed p (snapshot_of st.exec)
unfolding finish
finish-tally p now logged st status steps message =
    let st1 = saved st (ended now logged st.exec status steps message) in
    drop_snapshot-tally p (reported logged st1 status message) (snapshot_of st.exec)
    ∙ ap (λ n. n + owed p (snapshot_of st.exec)) (reported-tally p logged st1 status message)

-- A run that has ended.
pub record IsEnded (db : Db) (exec : Execution) (logged : Bool) (st : RunState) : Type 0 where
  pub terminal : is_terminal st.exec.status ≡ true
  pub dated : is_some st.exec.finished_at ≡ true
  pub stored :
      stored_status st.db exec.project_id exec.id
      ≡ (if any (is_at exec.project_id exec.id) db.rows then some st.exec.status else none)
  pub reports : tally is_report st.effects ≡ (if logged then 1 else 0)
  pub removals : tally is_removal st.effects ≡ (if is_some (snapshot_of exec) then 1 else 0)

stored-own :
    (db : Db) (e : Execution)
    → stored_status (update_execution db e) e.project_id e.id
      ≡ (if any (is_at e.project_id e.id) db.rows then some e.status else none)
unfolding update_execution
stored-own db e =
    find_where-update_where e.project_id e.id _ e.status db.rows (λ r. (refl, refl)) (λ r. refl)

stored-update_execution :
    (pid : String) (id : ℕ) (db : Db) (e : Execution)
    → e.project_id ≡ pid
    → e.id ≡ id
    → stored_status (update_execution db e) pid id
      ≡ (if any (is_at pid id) db.rows then some e.status else none)
stored-update_execution pid id db e p i =
    subst
      (λ (q : String × ℕ).
        stored_status (update_execution db e) q.0 q.1
        ≡ (if any (is_at q.0 q.1) db.rows then some e.status else none))
      (λ j. (p j, i j)) (stored-own db e)

pub owed-count :
    (o : Option String)
    → (owed is_report o ≡ 0)
      × (owed is_removal o ≡ (if is_some o then 1 else 0))
      × (owed is_sandbox_start o ≡ 0)
      × (owed is_sandbox_stop o ≡ 0)
      × (owed is_client_start o ≡ 0)
      × (owed is_client_stop o ≡ 0)
owed-count none = (refl, refl, refl, refl, refl, refl)
owed-count (some snapshot) = (refl, refl, refl, refl, refl, refl)

is_some-or_now : (now : ℕ) (o : Option ℕ) → is_some (or_now now o) ≡ true
is_some-or_now now none = refl
is_some-or_now now (some t) = refl

pub finish-IsEnded :
    (db : Db) (exec : Execution) (now : ℕ) (logged : Bool) (st : RunState) (status : Status)
    (steps : List StepResult) (message : String)
    → IsEnding db exec st
    → is_terminal status ≡ true
    → IsEnded db exec logged (finish now logged st status steps message)
finish-IsEnded db exec now logged st status steps message u t =
    let f = finish now logged st status steps message in
    let e = finish-exec now logged st status steps message in
    let (p, i, s, a) = u.same in
    let o = owed-count (snapshot_of st.exec) in
    record {
      terminal = rw e t;
      dated = rw e (is_some-or_now now st.exec.finished_at);
      stored =
          rw (e, finish-db now logged st status steps message, sym u.row)
            (stored-update_execution exec.project_id exec.id st.db
              (ended now logged st.exec status steps message) p i);
      reports =
          rw (finish-tally is_report now logged st status steps message, u.unreported, o.0)
            (ground arith);
      removals =
          rw (finish-tally is_removal now logged st status steps message, u.unremoved, o.1, s, a)
            (ground arith);
    }
