-- ===== src/Runner/Latest.antt =====
-- The latest attempt of an execution, as GetExecutionAttempt finds it.
use pici.Base.{
  ℕ, ◌≤◌, ◌<◌, String, ◌≡◌, refl, sym, ap, inl, inr, Bool, true, false, not, ◌||◌, Option, none,
  some, List, [], ◌∷◌, ◌++◌, arith, eq_iff, ltb, leb, if◌then◌else◌, Bool-cases, Option-cases, any,
  all, Dict, get_or,
}
use pici.Records.{Execution}
use pici.Store.{
  Row, Db, is_at, find_where, raw_view, joined_view, is_attempt_of, latest_row,
  get_execution_attempt,
}
use pici.Store.Keys.{is_numbered}

-- No attempt of the execution has a higher number than `top`.
abbrev pub is_top : String → ℕ → ℕ → List Row → Bool
is_top pid eid top rows = all (λ q. not (is_attempt_of pid eid q) || leb q.attempt top) rows

is_top_trans :
    (pid : String) (eid a b : ℕ) (rows : List Row)
    → a ≤ b
    → is_top pid eid a rows ≡ true
    → is_top pid eid b rows ≡ true
is_top_trans pid eid a b [] l h = refl
is_top_trans pid eid a b (r ∷ rows) l h = ground (arith, is_top_trans pid eid a b rows)

absent-is_top :
    (pid : String) (eid top : ℕ) (rows : List Row)
    → any (is_attempt_of pid eid) rows ≡ false
    → is_top pid eid top rows ≡ true
absent-is_top pid eid top [] h = refl
absent-is_top pid eid top (r ∷ rows) h = ground (arith, absent-is_top pid eid top rows)

-- What an answer of `latest_row` promises.
unfoldable pub IsLatest : String → ℕ → List Row → Option Row → Type 0
IsLatest pid eid rows none = any (is_attempt_of pid eid) rows ≡ false
IsLatest pid eid rows (some r) =
    (is_attempt_of pid eid r ≡ true)
    × (is_top pid eid r.attempt rows ≡ true)
    × (any (is_at r.project_id r.id) rows ≡ true)

is_at_self : (r : Row) → is_at r.project_id r.id r ≡ true
is_at_self r = ground (arith, eq_iff r.project_id r.project_id)

passed_over :
    (pid : String) (eid : ℕ) (q : Row) (rows : List Row) (o : Option Row)
    → is_attempt_of pid eid q ≡ false
    → IsLatest pid eid rows o
    → IsLatest pid eid (q ∷ rows) o
unfolding IsLatest
passed_over pid eid q rows none n h = ground (arith, n, h)
passed_over pid eid q rows (some r) n (a, t, m) = (a, ground (arith, n, t), ground (arith, m))

chosen :
    (pid : String) (eid : ℕ) (q : Row) (rows : List Row) (o : Option Row)
    → is_attempt_of pid eid q ≡ true
    → IsLatest pid eid rows o
    → IsLatest pid eid
        (q ∷ rows)
        (elim o [ none ↦ some q | some r' ↦ if ltb q.attempt r'.attempt then some r' else some q ])
unfolding IsLatest
chosen pid eid q rows none a h =
    (a, ground (arith, absent-is_top pid eid q.attempt rows h), ground (arith, is_at_self q))
chosen pid eid q rows (some r) a (a', t, m) = elim (Bool-cases (ltb q.attempt r.attempt)) [
  | inl l ↦ rw l (a', ground (arith, l, t), ground (arith, m))
  | inr l ↦ rw l (
    a,
    ground (arith, is_top_trans pid eid r.attempt q.attempt rows (ground (arith, l)) t),
    ground (arith, is_at_self q),
  )
]

pub latest_row-IsLatest :
    (pid : String) (eid : ℕ) (rows : List Row) → IsLatest pid eid rows (latest_row pid eid rows)
unfolding latest_row
latest_row-IsLatest pid eid [] = unfold IsLatest in refl
latest_row-IsLatest pid eid (q ∷ rows) = elim (Bool-cases (is_attempt_of pid eid q)) [
  | inl a ↦
      rw a (chosen pid eid q rows (latest_row pid eid rows) a (latest_row-IsLatest pid eid rows))
  | inr n ↦
      rw n
        (passed_over pid eid q rows (latest_row pid eid rows) n (latest_row-IsLatest pid eid rows))
]

-- A row with a higher attempt number than the others is the latest one.
pub latest_row-snoc :
    (pid : String) (eid top : ℕ) (rows : List Row) (new : Row)
    → is_top pid eid top rows ≡ true
    → top < new.attempt
    → is_attempt_of pid eid new ≡ true
    → latest_row pid eid (rows ++ new ∷ []) ≡ some new
unfolding latest_row
latest_row-snoc pid eid top [] new t l a = rw a refl
latest_row-snoc pid eid top (q ∷ rows) new t l a = elim (Bool-cases (is_attempt_of pid eid q)) [
  | inl own ↦
      let below : ltb q.attempt new.attempt ≡ true = ground (arith, own) in
      rw (own, latest_row-snoc pid eid top rows new (ground arith) l a, below) refl
  | inr other ↦ rw (other, latest_row-snoc pid eid top rows new (ground arith) l a) refl
]

pub find_where-append :
    (p : Row → Bool) (rows more : List Row) (r : Row)
    → find_where p rows ≡ some r
    → find_where p (rows ++ more) ≡ some r
find_where-append p [] more r h = ground arith
find_where-append p (q ∷ rows) more r h = elim (Bool-cases (p q)) [
  | inl hit ↦ rw hit (rw hit at h)
  | inr miss ↦ rw miss (find_where-append p rows more r (rw miss at h))
]

pub is_numbered-le :
    (seqs : Dict ℕ) (pid : String) (id : ℕ) (rows : List Row)
    → all (is_numbered seqs) rows ≡ true
    → any (is_at pid id) rows ≡ true
    → id ≤ get_or pid 0 seqs
is_numbered-le seqs pid id [] h a = ground arith
is_numbered-le seqs pid id (r ∷ rows) h a =
    ground (arith, eq_iff r.project_id pid, is_numbered-le seqs pid id rows)

abbrev opt_id : Option Execution → ℕ
opt_id none = 0
opt_id (some e) = e.id

abbrev opt_attempt : Option Execution → ℕ
opt_attempt none = 0
opt_attempt (some e) = e.attempt

abbrev opt_execution_id : Option Execution → ℕ
opt_execution_id none = 0
opt_execution_id (some e) = e.execution_id

-- The rows that GetExecutionAttempt has read for its answer.
pub record Read (db : Db) (pid : String) (eid : ℕ) (latest : Execution) : Type 0 where
  pub root : Row
  pub row : Row
  pub at_root : find_where (is_at pid eid) db.rows ≡ some root
  pub at_row : latest_row pid eid db.rows ≡ some row
  pub same_id : latest.id ≡ row.id
  pub same_execution : latest.execution_id ≡ row.execution_id
  pub attempt : row.attempt ≤ latest.attempt

pub Read-latest :
    (db : Db) (pid : String) (eid : ℕ) (latest : Execution)
    → get_execution_attempt db pid eid 0 ≡ some latest
    → Read db pid eid latest
unfolding get_execution_attempt joined_view raw_view
Read-latest db pid eid latest h = elim (Option-cases (find_where (is_at pid eid) db.rows)) [
  | inl e ↦ let h' : none ≡ some latest = rw (e, get_execution_attempt) at h in ground arith
  | inr (root, e) ↦ elim (Option-cases (latest_row pid eid db.rows)) [
    | inl n ↦ let h' : none ≡ some latest = rw (e, n, get_execution_attempt) at h in ground arith
    | inr (row, n) ↦
        let h' : some (joined_view db.rows root row) ≡ some latest =
          rw (e, n, get_execution_attempt) at h in
        record {
          root = root;
          row = row;
          at_root = e;
          at_row = n;
          same_id = sym (ap opt_id h');
          same_execution = sym (ap opt_execution_id h');
          attempt = ground (arith, ap opt_attempt h');
        }
  ]
]

pub is_attempt_of-eq :
    (pid : String) (eid : ℕ) (r : Row)
    → is_attempt_of pid eid r ≡ true
    → (r.project_id ≡ pid) × (r.execution_id ≡ eid)
is_attempt_of-eq pid eid r h = ground (arith, eq_iff r.project_id pid)

pub Read-row :
    (db : Db) (pid : String) (eid : ℕ) (latest : Execution) (r : Read db pid eid latest)
    → IsLatest pid eid db.rows (some r.row)
Read-row db pid eid latest r = rw r.at_row at (latest_row-IsLatest pid eid db.rows)
