-- ===== src/Executions/Cancels.antt =====
-- Cancel reaches the latest attempt.
use pici.Base.{
  ℕ, String, ◌≡◌, refl, sym, ap, ◌∙◌, ◌⊎◌, inl, inr, Bool, true, false, ◌&&◌, Option, none, some,
  List, [], ◌∷◌, arith, ◌==◌, str_eq, if◌then◌else◌, eq_iff, Option-cases, any,
}
use pici.Records.{Execution}
use pici.Store.{
  Row, Db, is_at, update_where, find_where, get_execution_attempt, set_cancel_requested,
  is_cancel_requested, is_attempt_of, latest_row, joined_view,
}
use pici.Executions.{ok, err, not_found, attempt_at, cancel}
use pici.Runner.Latest.{
  Read, Read-latest, Read-row, IsLatest, is_attempt_of-eq, latest_row-IsLatest,
}

abbrev opt_requested : Option Row → Option Bool
opt_requested none = none
opt_requested (some r) = some r.cancel_requested

-- The keys (pid, id) and (p, i) are one.
abbrev pub is_key : (pid : String) (id : ℕ) (p : String) (i : ℕ) → Bool
is_key pid id p i = str_eq p pid && (i == id)

requested :
    (pid : String) (id : ℕ) (p : String) (i : ℕ) (rows : List Row)
    → opt_requested (
        find_where
          (is_at p i)
          (update_where (is_at pid id) (λ r. record r { cancel_requested = true }) rows))
      ≡ (if is_key pid id p i && any (is_at pid id) rows
          then some true
          else opt_requested (find_where (is_at p i) rows))
requested pid id p i [] = ground arith
requested pid id p i (r ∷ rows) =
    ground (
      arith,
      requested pid id p i rows,
      eq_iff r.project_id pid,
      eq_iff r.project_id p,
      eq_iff p pid,
    )

find_where-absent :
    (p : Row → Bool) (rows : List Row) → find_where p rows ≡ none → any p rows ≡ false
find_where-absent p [] h = refl
find_where-absent p (r ∷ rows) h = ground (arith, find_where-absent p rows)

-- The row of the first attempt is missing, or there is no attempt.
abbrev pub IsAbsent : String → ℕ → List Row → Type 0
IsAbsent pid eid rows =
    (any (is_at pid eid) rows ≡ false) ⊎ (any (is_attempt_of pid eid) rows ≡ false)

unread-IsAbsent :
    (db : Db) (pid : String) (eid : ℕ)
    → get_execution_attempt db pid eid 0 ≡ none
    → IsAbsent pid eid db.rows
unfolding get_execution_attempt
unread-IsAbsent db pid eid h = elim (Option-cases (find_where (is_at pid eid) db.rows)) [
  | inl e ↦ inl (find_where-absent (is_at pid eid) db.rows e)
  | inr (root, e) ↦ elim (Option-cases (latest_row pid eid db.rows)) [
    | inl n ↦ inr (unfold IsLatest in rw n at (latest_row-IsLatest pid eid db.rows))
    | inr (row, n) ↦
        let h' : some (joined_view db.rows root row) ≡ none =
          rw (e, n, get_execution_attempt) at h in
        cc
  ]
]

latest_stands :
    (db : Db) (pid : String) (eid : ℕ) (latest : Execution) (r : Read db pid eid latest)
    → any (is_at pid r.row.id) db.rows ≡ true
latest_stands db pid eid latest r =
    let l = Read-row db pid eid latest r in
    unfold IsLatest in rw (sym (is_attempt_of-eq pid eid r.row l.0).0) l.2

-- Either Cancel answers "not found", and the row of the execution's first attempt or every attempt of
-- it is missing; or it succeeds and calls Runner.Cancel with the key of the attempt with the highest
-- number. From then on IsCancelRequested answers true for that key, and for any other key what it
-- answered before.
pub cancel-requested :
    (db : Db) (pid : String) (eid : ℕ) (p : String) (i : ℕ)
    → ((cancel db pid eid ≡ err not_found) × IsAbsent pid eid db.rows)
      ⊎ ((r : Row) × IsLatest pid eid db.rows (some r)
          × ((db' : Db) × (cancel db pid eid ≡ ok (db', (pid, r.id)))
              × (is_cancel_requested db' p i
                  ≡ (if is_key pid r.id p i then some true else is_cancel_requested db p i))))
cancel-requested db pid eid p i = elim (Option-cases (get_execution_attempt db pid eid 0)) [
  | inl e ↦
      inl
        (unfold cancel attempt_at in rw (e, cancel, attempt_at) refl, unread-IsAbsent db pid eid e)
  | inr (latest, e) ↦
      let r = Read-latest db pid eid latest e in
      let stands = latest_stands db pid eid latest r in
      inr (
        r.row,
        Read-row db pid eid latest r,
        (
          set_cancel_requested db pid r.row.id,
          unfold cancel attempt_at in
              rw (e, cancel, attempt_at)
                (ap (λ n. ok (set_cancel_requested db pid n, (pid, n))) r.same_id),
          unfold is_cancel_requested set_cancel_requested in
              requested pid r.row.id p i db.rows ∙ ground (arith, stands),
        ),
      )
]
