-- ===== src/Runner/Retry.antt =====
-- EnqueueRetry: an attempt is retried once.
use pici.Base.{
  ℕ, ◌+◌, ◌≤◌, ◌<◌, String, ◌≡◌, refl, sym, ap, ◌∙◌, inl, inr, Bool, true, false, Option, none,
  some, List, [], ◌∷◌, ◌++◌, arith, eq_iff, ◌==◌, Bool-cases, Option-cases, any, get, get_or,
}
use pici.Records.{Project, Execution}
use pici.Store.{
  Row, Db, is_at, find_where, numbered, inserted, default_status, create_execution, raw_view,
  joined_view, is_attempt_of, is_conflict, latest_row, get_execution_attempt,
}
use pici.Store.Keys.{IsValid, get_or_of_get}
use pici.Runner.{
  QueueError, Queued, refused, queued, enqueue, next_attempt, retry_error, enqueue_retry,
}
use pici.Runner.Latest.{
  is_top, IsLatest, latest_row-snoc, find_where-append, is_numbered-le, Read, Read-latest, Read-row,
  is_attempt_of-eq,
}

abbrev queued_rows : Queued → List Row
queued_rows (refused err) = []
queued_rows (queued db e) = db.rows

-- The execution that `enqueue` gives to CreateExecution.
abbrev ready : Execution → Execution
ready e = record e { status = default_status e.status }

enqueued_rows :
    (db db' : Db) (exec e : Execution)
    → enqueue db exec ≡ queued db' e
    → (seq : ℕ) × (get exec.project_id db.seqs ≡ some seq)
      × (db'.rows ≡ db.rows ++ inserted (numbered (ready exec) (seq + 1)) ∷ [])
unfolding enqueue create_execution
enqueued_rows db db' exec e h = elim (Option-cases (get exec.project_id db.seqs)) [
  | inl n ↦
      let h' : refused QueueError.not_created ≡ queued db' e =
        rw (n, enqueue, create_execution) at h in
      ground arith
  | inr (seq, s) ↦
      elim (Bool-cases (any (is_conflict (inserted (numbered (ready exec) (seq + 1)))) db.rows)) [
        | inl taken ↦
            let h' : refused QueueError.not_created ≡ queued db' e =
              rw (s, taken, enqueue, create_execution) at h in
            ground arith
        | inr free ↦ (seq, s, sym (ap queued_rows (rw (s, free, enqueue, create_execution) at h)))
      ]
]

-- What EnqueueRetry has checked and done when it queues an execution.
record Accepted (has_dir : String → ℕ → Bool) (db db' : Db) (project : Project)
    (previous : Execution) : Type 0 where
  latest : Execution
  found : get_execution_attempt db project.id previous.execution_id 0 ≡ some latest
  allowed : retry_error has_dir db project previous latest ≡ none
  seq : ℕ
  known : get project.id db.seqs ≡ some seq
  now : ℕ
  created_by : Option String
  rows :
      db'.rows
      ≡ db.rows
        ++ inserted (numbered (ready (next_attempt project latest now created_by)) (seq + 1)) ∷ []

accepted :
    (has_dir : String → ℕ → Bool) (db db' : Db) (project : Project) (previous e : Execution)
    (now : ℕ) (created_by : Option String)
    → enqueue_retry has_dir db project previous now created_by ≡ queued db' e
    → Accepted has_dir db db' project previous
unfolding enqueue_retry
accepted has_dir db db' project previous e now created_by h =
    elim (Option-cases (get_execution_attempt db project.id previous.execution_id 0)) [
      | inl n ↦
          let h' : refused QueueError.not_found ≡ queued db' e = rw (n, enqueue_retry) at h in
          ground arith
      | inr (latest, s) ↦ elim (Option-cases (retry_error has_dir db project previous latest)) [
        | inl ok ↦
            let r =
              enqueued_rows db db' (next_attempt project latest now created_by) e
                (rw (s, ok, enqueue_retry) at h) in
            record {
              latest = latest;
              found = s;
              allowed = ok;
              seq = r.0;
              known = r.1;
              now = now;
              created_by = created_by;
              rows = r.2;
            }
        | inr (err, fails) ↦
            let h' : refused err ≡ queued db' e = rw (s, fails, enqueue_retry) at h in ground arith
      ]
    ]

retry_error-id :
    (has_dir : String → ℕ → Bool) (db : Db) (project : Project) (previous latest : Execution)
    → retry_error has_dir db project previous latest ≡ none
    → latest.id ≡ previous.id
unfolding retry_error
retry_error-id has_dir db project previous latest h = elim (Bool-cases (latest.id == previous.id)) [
  | inl e ↦ ground arith
  | inr n ↦ let h' : some QueueError.not_latest ≡ none = rw (n, retry_error) at h in ground arith
]

Read-snoc :
    (db db' : Db) (pid : String) (eid : ℕ) (latest : Execution) (new : Row)
    → Read db pid eid latest
    → db'.rows ≡ db.rows ++ new ∷ []
    → latest.attempt < new.attempt
    → is_attempt_of pid eid new ≡ true
    → (root : Row) × (get_execution_attempt db' pid eid 0 ≡ some (joined_view db'.rows root new))
unfolding get_execution_attempt
Read-snoc db db' pid eid latest new r rows lt own =
    let l = Read-row db pid eid latest r in
    let top : is_top pid eid r.row.attempt db.rows ≡ true = unfold IsLatest in l.1 in
    let found =
      latest_row-snoc pid eid r.row.attempt db.rows new top (omega (arith, lt, r.attempt)) own in
    let root = find_where-append (is_at pid eid) db.rows (new ∷ []) r.root r.at_root in
    (
      r.root,
      rw
          (
            ap (λ q. find_where (is_at pid eid) q) rows ∙ root,
            ap (latest_row pid eid) rows ∙ found,
            get_execution_attempt,
          )
          refl,
    )

Read-id_le :
    (db : Db) (pid : String) (eid : ℕ) (latest : Execution)
    → IsValid db
    → Read db pid eid latest
    → latest.id ≤ get_or pid 0 db.seqs
Read-id_le db pid eid latest v r =
    let l = Read-row db pid eid latest r in
    unfold IsLatest in
    let same = (is_attempt_of-eq pid eid r.row l.0).0 in
    let le : r.row.id ≤ get_or pid 0 db.seqs =
      rw same at (is_numbered-le db.seqs r.row.project_id r.row.id db.rows v.ids l.2) in
    omega (arith, le, r.same_id)

Read-execution_id :
    (db : Db) (pid : String) (eid : ℕ) (latest : Execution)
    → Read db pid eid latest
    → latest.execution_id ≡ eid
Read-execution_id db pid eid latest r =
    let l = Read-row db pid eid latest r in
    unfold IsLatest in r.same_execution ∙ (is_attempt_of-eq pid eid r.row l.0).1

-- The row of the attempt after `latest`.
abbrev next_row : Project → Execution → ℕ → ℕ → Option String → Row
next_row project latest now seq created_by =
    inserted (numbered (ready (next_attempt project latest now created_by)) (seq + 1))

next_row_lem :
    (project : Project) (latest : Execution) (now seq eid : ℕ) (created_by : Option String)
    → latest.execution_id ≡ eid
    → 1 ≤ eid
    → (latest.attempt < (next_row project latest now seq created_by).attempt)
      × (is_attempt_of project.id eid (next_row project latest now seq created_by) ≡ true)
unfolding inserted numbered
next_row_lem project latest now seq eid created_by same some_id =
    let other : (latest.execution_id == 0) ≡ false = ground arith in
    rw other (ground arith, ground (arith, eq_iff project.id project.id))

retry_error-not_latest :
    (has_dir : String → ℕ → Bool) (db : Db) (project : Project) (previous latest : Execution)
    → previous.id < latest.id
    → retry_error has_dir db project previous latest ≡ some QueueError.not_latest
unfolding retry_error
retry_error-not_latest has_dir db project previous latest lt =
    let other : (latest.id == previous.id) ≡ false = ground arith in rw (other, retry_error) refl

refused_again :
    (has_dir : String → ℕ → Bool) (db db' : Db) (project : Project) (previous latest : Execution)
    (now now' seq : ℕ) (created_by created_by' : Option String)
    → IsValid db
    → 1 ≤ previous.execution_id
    → get project.id db.seqs ≡ some seq
    → latest.id ≡ previous.id
    → Read db project.id previous.execution_id latest
    → db'.rows ≡ db.rows ++ next_row project latest now seq created_by ∷ []
    → enqueue_retry has_dir db' project previous now' created_by' ≡ refused QueueError.not_latest
unfolding enqueue_retry
refused_again has_dir db db' project previous latest now now' seq created_by created_by' v given
      known id r rows =
    let same = Read-execution_id db project.id previous.execution_id latest r in
    let next = next_row_lem project latest now seq previous.execution_id created_by same given in
    let new = next_row project latest now seq created_by in
    let again = Read-snoc db db' project.id previous.execution_id latest new r rows next.0 next.1 in
    let old = Read-id_le db project.id previous.execution_id latest v r in
    let reached = get_or_of_get project.id db.seqs seq known in
    let lt : previous.id < seq + 1 = omega (arith, old, reached, id) in
    rw
      (
        again.1,
        retry_error-not_latest has_dir db' project previous (joined_view db'.rows again.0 new)
            (unfold joined_view raw_view inserted numbered in lt),
        enqueue_retry,
      )
      refl

-- Once EnqueueRetry has queued the next attempt of an execution, EnqueueRetry of the same attempt is
-- refused with "only the latest attempt can be retried", in a valid table, for an execution with an
-- id.
pub enqueue_retry-once :
    (has_dir : String → ℕ → Bool) (db db' : Db) (project : Project) (previous e : Execution)
    (now now' : ℕ) (created_by created_by' : Option String)
    → IsValid db
    → 1 ≤ previous.execution_id
    → enqueue_retry has_dir db project previous now created_by ≡ queued db' e
    → enqueue_retry has_dir db' project previous now' created_by' ≡ refused QueueError.not_latest
enqueue_retry-once has_dir db db' project previous e now now' created_by created_by' v given h =
    let a = accepted has_dir db db' project previous e now created_by h in
    refused_again has_dir db db' project previous a.latest a.now now' a.seq a.created_by created_by'
      v given a.known (retry_error-id has_dir db project previous a.latest a.allowed)
      (Read-latest db project.id previous.execution_id a.latest a.found) a.rows
