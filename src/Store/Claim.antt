-- ===== src/Store/Claim.antt =====
-- ClaimPendingExecution: the queue of pending executions.
use pici.Base.{
  ℕ, ◌+◌, ◌-◌, ◌≤◌, String, ◌≡◌, refl, sym, inl, inr, Bool, true, false, not, ◌&&◌, ◌||◌, Option,
  none, some, List, [], ◌∷◌, arith, eq_iff, ltb, leb, if◌then◌else◌, Bool-cases, Option-cases, any,
  all,
}
use pici.Records.{Status, Execution, is_pending, is_running}
use pici.Store.{
  Row, Db, is_at, update_where, find_where, count_where, raw_view, get_attempt, oldest_pending,
  claim_pending_execution, count_pending_executions,
}
use pici.Store.Keys.{IsValid, unique_keys}

-- No pending row of the list has a smaller id.
abbrev pub is_oldest : ℕ → List Row → Bool
is_oldest id rows = all (λ q. not (is_pending q.status) || leb id q.id) rows

is_oldest_trans :
    (a b : ℕ) (rows : List Row) → a ≤ b → is_oldest b rows ≡ true → is_oldest a rows ≡ true
is_oldest_trans a b [] l h = refl
is_oldest_trans a b (r ∷ rows) l h = ground (arith, is_oldest_trans a b rows)

no_pending-is_oldest :
    (a : ℕ) (rows : List Row)
    → count_where (λ r. is_pending r.status) rows ≡ 0
    → is_oldest a rows ≡ true
no_pending-is_oldest a [] h = refl
no_pending-is_oldest a (r ∷ rows) h = ground (arith, no_pending-is_oldest a rows)

IsFound : Row → List Row → Type 0
IsFound r rows =
    (is_pending r.status ≡ true)
    × (any (λ q. is_at r.project_id r.id q && is_pending q.status) rows ≡ true)
    × (is_oldest r.id rows ≡ true)

is_at_self : (r : Row) → is_at r.project_id r.id r ≡ true
is_at_self r = ground (arith, eq_iff r.project_id r.project_id)

-- What an answer of `oldest_pending` promises.
IsAnswer : List Row → Option Row → Type 0
IsAnswer rows none = count_where (λ r. is_pending r.status) rows ≡ 0
IsAnswer rows (some r) = IsFound r rows

nearer :
    (q r : Row) (rows : List Row) → IsFound r rows → ltb r.id q.id ≡ true → IsFound r (q ∷ rows)
unfolding IsFound
nearer q r rows (p, a, o) l = (p, ground (arith, a), ground (arith, o, l))

first_is :
    (q : Row) (rows : List Row)
    → is_pending q.status ≡ true
    → is_oldest q.id rows ≡ true
    → IsFound q (q ∷ rows)
unfolding IsFound
first_is q rows p o = (p, ground (arith, p, is_at_self q), ground (arith, o))

skipped :
    (q : Row) (rows : List Row) (o : Option Row)
    → is_pending q.status ≡ false
    → IsAnswer rows o
    → IsAnswer (q ∷ rows) o
unfolding IsAnswer IsFound
skipped q rows none n a = ground (arith, n, a)
skipped q rows (some r) n (p, a, o) = (p, ground (arith, a), ground (arith, n, o))

pick :
    (q : Row) (rows : List Row) (o : Option Row)
    → is_pending q.status ≡ true
    → IsAnswer rows o
    → IsAnswer
        (q ∷ rows)
        (elim o [ none ↦ some q | some r' ↦ if ltb r'.id q.id then some r' else some q ])
unfolding IsAnswer
pick q rows none p a = first_is q rows p (no_pending-is_oldest q.id rows a)
pick q rows (some r) p a = elim (Bool-cases (ltb r.id q.id)) [
  | inl l ↦ rw l (nearer q r rows a l)
  | inr l ↦
      unfold IsFound in
      rw l (first_is q rows p (is_oldest_trans q.id r.id rows (ground (arith, l)) a.2))
]

oldest_pending-IsAnswer : (rows : List Row) → IsAnswer rows (oldest_pending rows)
unfolding oldest_pending
oldest_pending-IsAnswer [] = unfold IsAnswer in refl
oldest_pending-IsAnswer (q ∷ rows) = elim (Bool-cases (is_pending q.status)) [
  | inl p ↦ rw p (pick q rows (oldest_pending rows) p (oldest_pending-IsAnswer rows))
  | inr p ↦ rw p (skipped q rows (oldest_pending rows) p (oldest_pending-IsAnswer rows))
]

abbrev claimed : String → ℕ → String → ℕ → List Row → List Row
claimed pid id worker now rows =
    update_where (λ q. is_at pid id q && is_pending q.status)
      (λ q. record q { status = Status.running; claimed_by = worker; started_at = some now }) rows

-- What the row is after the claim.
IsStarted : String → ℕ → ℕ → Option Row → Type 0
IsStarted pid id now none = ⊥
IsStarted pid id now (some r) =
    (is_running r.status ≡ true) × (r.project_id ≡ pid) × (r.id ≡ id) × (r.started_at ≡ some now)

any_at-weaken :
    (pid : String) (id : ℕ) (rows : List Row)
    → any (is_at pid id) rows ≡ false
    → any (λ q. is_at pid id q && is_pending q.status) rows ≡ false
any_at-weaken pid id [] h = refl
any_at-weaken pid id (r ∷ rows) h = ground (arith, any_at-weaken pid id rows)

pub is_at-eq :
    (pid : String) (id : ℕ) (q : Row) → is_at pid id q ≡ true → (q.project_id ≡ pid) × (q.id ≡ id)
is_at-eq pid id q h = ground (arith, eq_iff q.project_id pid)

no_twin :
    (pid : String) (id : ℕ) (q : Row) (rows : List Row)
    → unique_keys (q ∷ rows) ≡ true
    → is_at pid id q ≡ true
    → any (is_at pid id) rows ≡ false
no_twin pid id q rows u at =
    let k = is_at-eq pid id q at in
    let own : any (is_at q.project_id q.id) rows ≡ false = ground arith in rw (k.0, k.1) at own

claimed-IsStarted :
    (pid : String) (id : ℕ) (worker : String) (now : ℕ) (rows : List Row)
    → unique_keys rows ≡ true
    → any (λ q. is_at pid id q && is_pending q.status) rows ≡ true
    → IsStarted pid id now (find_where (is_at pid id) (claimed pid id worker now rows))
unfolding IsStarted
claimed-IsStarted pid id worker now [] u h = ground arith
claimed-IsStarted pid id worker now (q ∷ rows) u h = elim (Bool-cases (is_at pid id q)) [
  | inl at ↦ elim (Bool-cases (is_pending q.status)) [
    | inl p ↦ rw (at, p, at) (refl, (is_at-eq pid id q at).0, (is_at-eq pid id q at).1, refl)
    | inr p ↦ ground (arith, p, no_twin pid id q rows u at, any_at-weaken pid id rows)
  ]
  | inr away ↦
      rw (away, away)
        (claimed-IsStarted pid id worker now rows (ground arith) (ground (arith, away)))
]

claimed_count-away :
    (pid : String) (id : ℕ) (worker : String) (now : ℕ) (rows : List Row)
    → any (λ q. is_at pid id q && is_pending q.status) rows ≡ false
    → count_where (λ r. is_pending r.status) (claimed pid id worker now rows)
      ≡ count_where (λ r. is_pending r.status) rows
claimed_count-away pid id worker now [] h = refl
claimed_count-away pid id worker now (q ∷ rows) h =
    ground (arith, claimed_count-away pid id worker now rows)

claimed_count :
    (pid : String) (id : ℕ) (worker : String) (now : ℕ) (rows : List Row)
    → unique_keys rows ≡ true
    → any (λ q. is_at pid id q && is_pending q.status) rows ≡ true
    → count_where (λ r. is_pending r.status) (claimed pid id worker now rows) + 1
      ≡ count_where (λ r. is_pending r.status) rows
claimed_count pid id worker now [] u h = ground arith
claimed_count pid id worker now (q ∷ rows) u h = elim (Bool-cases (is_at pid id q)) [
  | inl at ↦ ground (
    arith,
    at,
    no_twin pid id q rows u at,
    any_at-weaken pid id rows,
    claimed_count-away pid id worker now rows,
  )
  | inr away ↦ ground (arith, away, claimed_count pid id worker now rows)
]

-- What ClaimPendingExecution promises of its result: `none` only if nothing is pending, and else the
-- pending execution with the smallest id, which is running from now on.
pub IsClaim : Db → ℕ → Option Execution → Type 0
IsClaim db now none = count_pending_executions db ≡ 0
IsClaim db now (some e) =
    (is_running e.status ≡ true)
    × (e.started_at ≡ some now)
    × (any (λ q. is_at e.project_id e.id q && is_pending q.status) db.rows ≡ true)
    × (is_oldest e.id db.rows ≡ true)

started-IsClaim :
    (db db' : Db) (now : ℕ) (r : Row) (o : Option Row)
    → IsFound r db.rows
    → IsStarted r.project_id r.id now o
    → IsClaim db now (elim o [ none ↦ none | some q ↦ some (raw_view db'.rows q) ])
unfolding IsFound IsStarted IsClaim raw_view
started-IsClaim db db' now r none f empty = elim empty [ ]
started-IsClaim db db' now r (some q) (p, a, o) (s, pid, id, t) =
    (s, t, rw (sym pid, sym id) at a, rw (sym id) at o)

-- In a valid table, ClaimPendingExecution returns nothing only if nothing is pending. Else it
-- returns the pending execution with the smallest id, as running since `now`.
pub claim_pending_execution-IsClaim :
    (db : Db) (worker : String) (now : ℕ)
    → IsValid db
    → IsClaim db now (claim_pending_execution db worker now).1
claim_pending_execution-IsClaim db worker now v = elim (Option-cases (oldest_pending db.rows)) [
  | inl e ↦
      let a : IsAnswer db.rows none = rw e at (oldest_pending-IsAnswer db.rows) in
      unfold claim_pending_execution IsClaim count_pending_executions IsAnswer in
      rw (e, claim_pending_execution) a
  | inr (r, e) ↦
      let f : IsFound r db.rows = unfold IsAnswer in rw e at (oldest_pending-IsAnswer db.rows) in
      unfold claim_pending_execution get_attempt in
      rw (e, claim_pending_execution)
        (started-IsClaim db (record db { rows = claimed r.project_id r.id worker now db.rows }) now
          r (find_where (is_at r.project_id r.id) (claimed r.project_id r.id worker now db.rows)) f
          (unfold IsFound in claimed-IsStarted r.project_id r.id worker now db.rows v.keys f.1))
]

-- In a valid table, ClaimPendingExecution takes exactly one execution out of the queue, if there is
-- one.
pub count-claim_pending_execution :
    (db : Db) (worker : String) (now : ℕ)
    → IsValid db
    → count_pending_executions (claim_pending_execution db worker now).0
      ≡ count_pending_executions db - 1
count-claim_pending_execution db worker now v = elim (Option-cases (oldest_pending db.rows)) [
  | inl e ↦
      let a : IsAnswer db.rows none = rw e at (oldest_pending-IsAnswer db.rows) in
      unfold claim_pending_execution count_pending_executions IsAnswer in
      rw (e, claim_pending_execution) (omega (arith, a))
  | inr (r, e) ↦
      let f : IsFound r db.rows = unfold IsAnswer in rw e at (oldest_pending-IsAnswer db.rows) in
      unfold claim_pending_execution count_pending_executions IsFound in
      rw (e, claim_pending_execution)
        (omega (arith, claimed_count r.project_id r.id worker now db.rows v.keys f.1))
]
