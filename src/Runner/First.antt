-- ===== src/Runner/First.antt =====
-- A new execution is always queued.
use pici.Base.{
  ℕ, ◌+◌, ◌≤◌, ◌<◌, String, ◌≡◌, refl, inl, inr, Bool, true, false, ◌&&◌, Option, none, some, List,
  [], ◌∷◌, ◌++◌, arith, eq_iff, leb, ◌==◌, Option-cases, any, all, Dict, get, get_or, put,
  get_or-put, get-put,
}
use pici.Records.{Status, Trigger, Source, Project, Execution, is_pending}
use pici.Store.{
  Row, Db, numbered, inserted, default_status, default_trigger, create_execution, is_conflict,
}
use pici.Store.Keys.{get_or_of_get}
use pici.Runner.{Queued, refused, queued, enqueue, enqueue_git, git_execution}

-- The sequence of its project has reached the id and the execution id of every row.
abbrev pub is_counted : Dict ℕ → Row → Bool
is_counted seqs r =
    leb r.id (get_or r.project_id 0 seqs) && leb r.execution_id (get_or r.project_id 0 seqs)

abbrev pub is_known : String → Db → Bool
is_known pid db = elim (get pid db.seqs) [ none ↦ false | some seq ↦ true ]

-- A table in which a new execution of the project finds its place.
pub record IsOpen (pid : String) (db : Db) : Type 0 where
  pub known : is_known pid db ≡ true
  pub counted : all (is_counted db.seqs) db.rows ≡ true

free_place :
    (seqs : Dict ℕ) (new : Row) (rows : List Row)
    → all (is_counted seqs) rows ≡ true
    → get_or new.project_id 0 seqs < new.id
    → get_or new.project_id 0 seqs < new.execution_id
    → any (is_conflict new) rows ≡ false
free_place seqs new [] h i e = refl
free_place seqs new (r ∷ rows) h i e =
    ground (arith, eq_iff r.project_id new.project_id, free_place seqs new rows)

counted-snoc :
    (seqs : Dict ℕ) (rows : List Row) (r : Row) (seq : ℕ)
    → all (is_counted seqs) rows ≡ true
    → get_or r.project_id 0 seqs ≡ seq
    → r.id ≤ seq + 1
    → r.execution_id ≤ seq + 1
    → all (is_counted (put r.project_id (seq + 1) seqs)) (rows ++ r ∷ []) ≡ true
counted-snoc seqs [] r seq h s i e =
    ground (
      arith,
      get_or-put r.project_id r.project_id 0 (seq + 1) seqs,
      eq_iff r.project_id r.project_id,
    )
counted-snoc seqs (q ∷ rows) r seq h s i e = ground (
  arith,
  get_or-put r.project_id q.project_id 0 (seq + 1) seqs,
  eq_iff r.project_id q.project_id,
  counted-snoc seqs rows r seq,
)

-- A pending row with what the run of a git ref was asked for.
abbrev pub IsRun :
    Project → (workflow ref commit_sha : String) → Trigger → ℕ → Option String → Row → Type 0
IsRun project workflow ref commit_sha trigger now created_by r =
    (r.project_id ≡ project.id)
    × (r.workflow ≡ workflow)
    × (r.ref ≡ ref)
    × (r.commit_sha ≡ commit_sha)
    × (r.status ≡ Status.pending)
    × (r.trigger ≡ default_trigger trigger)
    × (r.source ≡ Source.git)
    × (r.created_at ≡ now)
    × (r.created_by ≡ created_by)

-- What a new execution of the project leads to: it is queued in one more row, with `P`, as its own
-- first attempt, and the table stays open.
unfoldable pub IsFirst : String → (Row → Type 0) → Db → Queued → Type 0
IsFirst pid P db (refused err) = ⊥
IsFirst pid P db (queued db' e) =
    IsOpen pid db'
    × ((r : Row) × (db'.rows ≡ db.rows ++ r ∷ [])
        × P r
        × (r.execution_id ≡ r.id)
        × (r.attempt ≡ 1)
        × (e.id ≡ r.id)
        × (e.execution_id ≡ r.id)
        × (e.attempt ≡ 1)
        × (is_pending e.status ≡ true))

abbrev ready : Execution → Execution
ready e = record e { status = default_status e.status }

first_numbered :
    (e : Execution) (id : ℕ)
    → e.execution_id ≡ 0
    → ((numbered (ready e) id).execution_id ≡ id) × ((numbered (ready e) id).attempt ≡ 1)
unfolding numbered
first_numbered e id first =
    let zero_id : (e.execution_id == 0) ≡ true = ground (arith, first) in
    (rw zero_id refl, rw zero_id refl)

abbrev first_row : Execution → ℕ → Row
first_row e id = inserted (numbered (ready e) id)

first_row-execution_id :
    (e : Execution) (id : ℕ) → e.execution_id ≡ 0 → (first_row e id).execution_id ≡ id
unfolding inserted
first_row-execution_id e id first = (first_numbered e id first).0

first_row-free :
    (db : Db) (e : Execution) (seq : ℕ)
    → IsOpen e.project_id db
    → e.execution_id ≡ 0
    → get e.project_id db.seqs ≡ some seq
    → any (is_conflict (first_row e (seq + 1))) db.rows ≡ false
first_row-free db e seq o first s =
    let reached = get_or_of_get e.project_id db.seqs seq s in
    let same = first_row-execution_id e (seq + 1) first in
    unfold inserted numbered in
    free_place db.seqs (first_row e (seq + 1)) db.rows o.counted (omega (arith, reached))
      (omega (arith, reached, same))

get-put_same : (k : String) (v : ℕ) (m : Dict ℕ) → get k (put k v m) ≡ some v
get-put_same k v m = ground (arith, get-put k k v m, eq_iff k k)

default-ready :
    (s : Status)
    → is_pending (default_status s) ≡ true
    → is_pending (default_status (default_status s)) ≡ true
default-ready Status.unset h = refl
default-ready Status.pending h = refl
default-ready Status.running h = h
default-ready Status.success h = h
default-ready Status.failed h = h
default-ready Status.canceled h = h

enqueue-IsFirst :
    (P : Row → Type 0) (db : Db) (e : Execution)
    → IsOpen e.project_id db
    → e.execution_id ≡ 0
    → is_pending (default_status e.status) ≡ true
    → ((id : ℕ) → P (first_row e id))
    → IsFirst e.project_id P db (enqueue db e)
unfolding enqueue create_execution IsFirst
enqueue-IsFirst P db e o first pending p = elim (Option-cases (get e.project_id db.seqs)) [
  | inl n ↦ let absent : false ≡ true = rw (n, is_known) at o.known in ground arith
  | inr (seq, s) ↦
      let reached = get_or_of_get e.project_id db.seqs seq s in
      let same = first_row-execution_id e (seq + 1) first in
      rw (s, first_row-free db e seq o first s, enqueue, create_execution)
        (
          record {
            known = rw (get-put_same e.project_id (seq + 1) db.seqs, is_known) refl;
            counted =
                unfold inserted numbered in
                counted-snoc db.seqs db.rows (first_row e (seq + 1)) seq o.counted reached
                  (omega arith) (omega (arith, same));
          },
          (
            first_row e (seq + 1),
            refl,
            p (seq + 1),
            unfold inserted numbered in same,
            unfold inserted numbered in (first_numbered e (seq + 1) first).1,
            unfold inserted numbered in refl,
            unfold inserted numbered in (first_numbered e (seq + 1) first).0,
            (first_numbered e (seq + 1) first).1,
            unfold numbered in default-ready e.status pending,
          ),
        )
]

pub enqueue_git-IsFirst :
    (db : Db) (project : Project) (workflow ref commit_sha : String) (trigger : Trigger) (now : ℕ)
    (created_by : Option String)
    → IsOpen project.id db
    → IsFirst project.id
        (IsRun project workflow ref commit_sha trigger now created_by)
        db
        (enqueue_git db project workflow ref commit_sha trigger now created_by)
unfolding enqueue_git
enqueue_git-IsFirst db project workflow ref commit_sha trigger now created_by o =
    enqueue-IsFirst (IsRun project workflow ref commit_sha trigger now created_by) db
      (git_execution project workflow ref commit_sha trigger now created_by) o refl refl
      (λ id. unfold inserted numbered in (refl, refl, refl, refl, refl, refl, refl, refl, refl))
