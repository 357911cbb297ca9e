-- ===== src/Store/Keys.antt =====
-- The keys of the table of executions.
use pici.Base.{
  ℕ, ◌+◌, ◌<◌, String, ◌≡◌, refl, ◌∙◌, inl, inr, Bool, true, false, not, ◌&&◌, ◌||◌, Option, none,
  some, List, [], ◌∷◌, ◌++◌, arith, eq_iff, leb, Bool-cases, Option-cases, any, all, Dict, get,
  get_or, put, get_or-put,
}
use pici.Records.{Execution}
use pici.Store.{
  Row, Db, is_at, update_where, numbered, inserted, create_execution, update_execution, is_conflict,
  oldest_pending, claim_pending_execution, requeue_orphaned_executions, set_cancel_requested,
  cancel_running_in_group, set_check_run_id,
}

-- No two rows have one key: the primary key (project_id, id).
abbrev pub unique_keys : List Row → Bool
unique_keys [] = true
unique_keys (r ∷ rows) = not (any (is_at r.project_id r.id) rows) && unique_keys rows

-- The sequence of its project has reached the id of every row.
abbrev pub is_numbered : Dict ℕ → Row → Bool
is_numbered seqs r = leb 1 r.id && leb r.id (get_or r.project_id 0 seqs)

pub record IsValid (db : Db) : Type 0 where
  pub keys : unique_keys db.rows ≡ true
  pub ids : all (is_numbered db.seqs) db.rows ≡ true

-- An update that leaves the key alone.
abbrev pub KeepsKey : (Row → Row) → Type 0
KeepsKey f = (r : Row) → ((f r).project_id ≡ r.project_id) × ((f r).id ≡ r.id)

pub any_at-update_where :
    (p : Row → Bool) (f : Row → Row) (pid : String) (id : ℕ) (rows : List Row)
    → KeepsKey f
    → any (is_at pid id) (update_where p f rows) ≡ any (is_at pid id) rows
any_at-update_where p f pid id [] k = refl
any_at-update_where p f pid id (r ∷ rows) k =
    ground (arith, k r, any_at-update_where p f pid id rows k)

unique_keys-update_where :
    (p : Row → Bool) (f : Row → Row) (rows : List Row)
    → KeepsKey f
    → unique_keys (update_where p f rows) ≡ unique_keys rows
unique_keys-update_where p f [] k = refl
unique_keys-update_where p f (r ∷ rows) k = ground (
  arith,
  k r,
  any_at-update_where p f r.project_id r.id rows k,
  unique_keys-update_where p f rows k,
)

numbered-update_where :
    (seqs : Dict ℕ) (p : Row → Bool) (f : Row → Row) (rows : List Row)
    → KeepsKey f
    → all (is_numbered seqs) (update_where p f rows) ≡ all (is_numbered seqs) rows
numbered-update_where seqs p f [] k = refl
numbered-update_where seqs p f (r ∷ rows) k =
    ground (arith, k r, numbered-update_where seqs p f rows k)

update_where-IsValid :
    (db : Db) (p : Row → Bool) (f : Row → Row)
    → KeepsKey f
    → IsValid db
    → IsValid (record db { rows = update_where p f db.rows })
update_where-IsValid db p f k v = record {
  keys = unique_keys-update_where p f db.rows k ∙ v.keys;
  ids = numbered-update_where db.seqs p f db.rows k ∙ v.ids;
}

any_at-append :
    (pid : String) (id : ℕ) (xs ys : List Row)
    → any (is_at pid id) (xs ++ ys) ≡ (any (is_at pid id) xs || any (is_at pid id) ys)
any_at-append pid id [] ys = refl
any_at-append pid id (x ∷ xs) ys = ground (arith, any_at-append pid id xs ys)

-- The next id of a project is free.
pub fresh_id :
    (seqs : Dict ℕ) (rows : List Row) (pid : String) (id : ℕ)
    → all (is_numbered seqs) rows ≡ true
    → get_or pid 0 seqs < id
    → any (is_at pid id) rows ≡ false
fresh_id seqs [] pid id h lt = refl
fresh_id seqs (r ∷ rows) pid id h lt =
    ground (arith, eq_iff r.project_id pid, fresh_id seqs rows pid id)

unique_keys-snoc :
    (rows : List Row) (r : Row)
    → unique_keys rows ≡ true
    → any (is_at r.project_id r.id) rows ≡ false
    → unique_keys (rows ++ r ∷ []) ≡ true
unique_keys-snoc [] r u n = refl
unique_keys-snoc (q ∷ rows) r u n = ground (
  arith,
  any_at-append q.project_id q.id rows (r ∷ []),
  eq_iff q.project_id r.project_id,
  eq_iff r.project_id q.project_id,
  unique_keys-snoc rows r,
)

numbered-snoc :
    (seqs : Dict ℕ) (rows : List Row) (r : Row) (pid : String)
    → all (is_numbered seqs) rows ≡ true
    → r.project_id ≡ pid
    → r.id ≡ get_or pid 0 seqs + 1
    → all (is_numbered (put pid (get_or pid 0 seqs + 1) seqs)) (rows ++ r ∷ []) ≡ true
numbered-snoc seqs [] r pid h e n =
    ground
      (arith, get_or-put pid r.project_id 0 (get_or pid 0 seqs + 1) seqs, eq_iff pid r.project_id)
numbered-snoc seqs (q ∷ rows) r pid h e n = ground (
  arith,
  get_or-put pid q.project_id 0 (get_or pid 0 seqs + 1) seqs,
  eq_iff pid q.project_id,
  numbered-snoc seqs rows r pid,
)

pub get_or_of_get : (k : String) (m : Dict ℕ) (v : ℕ) → get k m ≡ some v → get_or k 0 m ≡ v
unfolding get get_or
get_or_of_get k [] v e = cc
get_or_of_get k ((j, w) ∷ m) v e = ground (arith, get_or_of_get k m v)

-- A statement on the table of executions.
pub data Op : Type 0 where
  create update : Execution → Op
  claim : (worker : String) (now : ℕ) → Op
  requeue : Op
  request_cancel : (pid : String) (id : ℕ) → Op
  cancel_group : (pid group : String) (exclude : ℕ) → Op
  check_run : (pid : String) (id check_run_id : ℕ) → Op

abbrev pub created : Db → Option (Db × Execution) → Db
created db none = db
created db (some (db', e)) = db'

unfoldable pub apply : Db → Op → Db
apply db (create e) = created db (create_execution db e)
apply db (update e) = update_execution db e
apply db (claim worker now) = (claim_pending_execution db worker now).0
apply db requeue = requeue_orphaned_executions db
apply db (request_cancel pid id) = set_cancel_requested db pid id
apply db (cancel_group pid group exclude) = cancel_running_in_group db pid group exclude
apply db (check_run pid id n) = set_check_run_id db pid id n

unfoldable pub apply_all : Db → List Op → Db
apply_all db [] = db
apply_all db (op ∷ ops) = apply_all (apply db op) ops

no_conflict :
    (new : Row) (rows : List Row)
    → any (is_at new.project_id new.id) rows ≡ true
    → any (is_conflict new) rows ≡ true
no_conflict new [] h = ground arith
no_conflict new (r ∷ rows) h = ground (arith, no_conflict new rows)

created-IsValid :
    (db : Db) (e : Execution) (seq : ℕ)
    → IsValid db
    → get e.project_id db.seqs ≡ some seq
    → IsValid record {
      seqs = put e.project_id (seq + 1) db.seqs;
      rows = db.rows ++ inserted (numbered e (seq + 1)) ∷ [];
    }
unfolding numbered inserted
created-IsValid db e seq v found =
    let seq_eq = get_or_of_get e.project_id db.seqs seq found in
    let row = inserted (numbered e (seq + 1)) in
    record {
      keys =
          unique_keys-snoc db.rows row v.keys
            (fresh_id db.seqs db.rows e.project_id (seq + 1) v.ids (omega (arith, seq_eq)));
      ids =
          rw seq_eq at
            (numbered-snoc db.seqs db.rows row e.project_id v.ids refl (omega (arith, seq_eq)));
    }

create-IsValid :
    (db : Db) (e : Execution) → IsValid db → IsValid (created db (create_execution db e))
create-IsValid db e v = elim (Option-cases (get e.project_id db.seqs)) [
  | inl absent ↦ unfold create_execution in rw (absent, create_execution) v
  | inr (seq, found) ↦
      elim (Bool-cases (any (is_conflict (inserted (numbered e (seq + 1)))) db.rows)) [
        | inl taken ↦ unfold create_execution in rw (found, taken, create_execution) v
        | inr free ↦
            unfold create_execution in
            rw (found, free, create_execution) (created-IsValid db e seq v found)
      ]
]

claim-IsValid :
    (db : Db) (worker : String) (now : ℕ)
    → IsValid db
    → IsValid (claim_pending_execution db worker now).0
unfolding claim_pending_execution
claim-IsValid db worker now v = elim (Option-cases (oldest_pending db.rows)) [
  | inl e ↦ rw (e, claim_pending_execution) v
  | inr (r, e) ↦ rw (e, claim_pending_execution) (update_where-IsValid db _ _ (λ q. (refl, refl)) v)
]

apply-IsValid : (db : Db) (op : Op) → IsValid db → IsValid (apply db op)
unfolding apply
apply-IsValid db (create e) v = create-IsValid db e v
apply-IsValid db (update e) v =
    unfold update_execution in update_where-IsValid db _ _ (λ r. (refl, refl)) v
apply-IsValid db (claim worker now) v = claim-IsValid db worker now v
apply-IsValid db requeue v =
    unfold requeue_orphaned_executions in update_where-IsValid db _ _ (λ r. (refl, refl)) v
apply-IsValid db (request_cancel pid id) v =
    unfold set_cancel_requested in update_where-IsValid db _ _ (λ r. (refl, refl)) v
apply-IsValid db (cancel_group pid group exclude) v =
    unfold cancel_running_in_group in update_where-IsValid db _ _ (λ r. (refl, refl)) v
apply-IsValid db (check_run pid id n) v =
    unfold set_check_run_id in update_where-IsValid db _ _ (λ r. (refl, refl)) v

apply_all-keeps : (ops : List Op) (db : Db) → IsValid db → IsValid (apply_all db ops)
unfolding apply_all
apply_all-keeps [] db v = v
apply_all-keeps (op ∷ ops) db v = apply_all-keeps ops (apply db op) (apply-IsValid db op v)

-- Whatever statements run, from a table in which no two rows have one primary key and every id is at
-- least 1 and at most what its project's sequence has reached, they lead to such a table; and the next
-- id that the sequence of a project gives, which CreateExecution takes, is that of no row of the
-- project.
pub apply_all-IsValid :
    (ops : List Op) (db : Db) (pid : String)
    → IsValid db
    → IsValid (apply_all db ops)
      × (any (is_at pid (get_or pid 0 (apply_all db ops).seqs + 1)) (apply_all db ops).rows ≡ false)
apply_all-IsValid ops db pid v =
    let after_ops = apply_all db ops in
    let after = apply_all-keeps ops db v in
    (
      after,
      fresh_id after_ops.seqs after_ops.rows pid (get_or pid 0 after_ops.seqs + 1) after.ids
          (omega arith),
    )
