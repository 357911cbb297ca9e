-- ===== src/Gc/Spares.antt =====
-- The collector spares the workspaces in use.
use pici.Base.{
  ℕ, ◌≤◌, String, ◌≡◌, refl, sym, ap, ◌∙◌, inl, inr, Bool, true, false, ◌&&◌, ◌||◌, none, some,
  List, [], ◌∷◌, arith, eq_iff, leb, str_eq, Bool-cases, Option-cases, any,
}
use pici.Records.{is_pending, is_running}
use pici.Store.{Row, Db, uses_workspace, count_where, workspace_busy, workspace_retained}
use pici.Gc.{
  Entry, ProjectDir, Disk, keeps_workspace, filter_entries, clean_dir, cleanup_workspaces,
}

abbrev is_busy : String → ℕ → Row → Bool
is_busy pid w r = uses_workspace pid w r && (is_pending r.status || is_running r.status)

abbrev is_retained : String → ℕ → ℕ → Row → Bool
is_retained pid w cutoff r =
    uses_workspace pid w r
    && (is_pending r.status
        || is_running r.status
        || elim r.finished_at [ none ↦ true | some t ↦ leb cutoff t ])

busy-le_retained :
    (pid : String) (w cutoff : ℕ) (rows : List Row)
    → count_where (is_busy pid w) rows ≤ count_where (is_retained pid w cutoff) rows
busy-le_retained pid w cutoff [] = omega arith
busy-le_retained pid w cutoff (r ∷ rows) = elim (Bool-cases (is_busy pid w r)) [
  | inl b ↦
      let t : is_retained pid w cutoff r ≡ true = ground (arith, b) in
      rw (b, t) (omega (arith, busy-le_retained pid w cutoff rows))
  | inr n ↦ rw n (omega (arith, busy-le_retained pid w cutoff rows))
]

busy-retained :
    (db : Db) (pid : String) (w cutoff : ℕ)
    → workspace_busy db pid w ≡ true
    → workspace_retained db pid w cutoff ≡ true
unfolding workspace_busy workspace_retained
busy-retained db pid w cutoff h = ground (arith, busy-le_retained pid w cutoff db.rows, h)

-- Whether a directory with the project's name holds an entry of the name.
abbrev pub holds : String → String → ProjectDir → Bool
holds dir name d =
    str_eq d.name dir
    && elim d.entries [ none ↦ false | some es ↦ any (λ f. str_eq f.name name) es ]

any-filter :
    (p : Entry → Bool) (name : String) (es : List Entry)
    → ((f : Entry) → f.name ≡ name → p f ≡ true)
    → any (λ f. str_eq f.name name) es ≡ true
    → any (λ f. str_eq f.name name) (filter_entries p es) ≡ true
any-filter p name [] k h = h
any-filter p name (f ∷ es) k h = elim (Bool-cases (str_eq f.name name)) [
  | inl e ↦ rw (k f ((eq_iff f.name name).0 e)) (ground (arith, e))
  | inr n ↦ elim (Bool-cases (p f)) [
    | inl y ↦ rw y (ground (arith, n, h, any-filter p name es k))
    | inr z ↦ rw z (any-filter p name es k (ground (arith, n, h)))
  ]
]

in_use-kept :
    (disk : Disk) (db : Db) (dir pid name : String) (cutoff id : ℕ)
    → disk.parse_int name ≡ some id
    → str_eq name "_discovery" ≡ false
    → disk.retained_fails pid id ≡ false
    → workspace_busy db pid id ≡ true
    → (f : Entry) → f.name ≡ name
    → keeps_workspace disk db dir pid cutoff f ≡ true
unfolding keeps_workspace
in_use-kept disk db dir pid name cutoff id number apart answered busy f same =
    let number' : disk.parse_int f.name ≡ some id = ap disk.parse_int same ∙ number in
    let apart' : str_eq f.name "_discovery" ≡ false =
      ap (λ n. str_eq n "_discovery") same ∙ apart in
    elim (Bool-cases f.is_dir) [
      | inl d ↦ rw (d, apart', number', answered) (busy-retained db pid id cutoff busy)
      | inr d ↦ rw d refl
    ]

clean_dir-spares :
    (disk : Disk) (keeps : (dir pid : String) → Entry → Bool) (dir pid name : String)
    (d : ProjectDir)
    → disk.parse_uuid dir ≡ some pid
    → ((f : Entry) → f.name ≡ name → keeps dir pid f ≡ true)
    → holds dir name d ≡ true
    → holds dir name (clean_dir disk keeps d) ≡ true
unfolding clean_dir
clean_dir-spares disk keeps dir pid name d project kept h = elim (Bool-cases d.is_dir) [
  | inr n ↦ rw n h
  | inl y ↦ elim (Option-cases d.entries) [
    | inl none_left ↦ ground (arith, none_left, h)
    | inr (es, s) ↦
        let own : str_eq d.name dir ≡ true = ground (arith, s, h) in
        let same : d.name ≡ dir = (eq_iff d.name dir).0 own in
        let here : disk.parse_uuid d.name ≡ some pid = ap disk.parse_uuid same ∙ project in
        let there : any (λ f. str_eq f.name name) es ≡ true = ground (arith, rw (s, own) at h) in
        rw (y, here, s, own) (any-filter (keeps d.name pid) name es (rw (sym same) at kept) there)
  ]
]

-- While an execution that is pending or running uses a workspace, and the store answers the query
-- for it without an error, cleanupWorkspaces leaves the entry of its number in the directory of its
-- project, whatever the cutoff and whatever else is on the disk. The name is that of a number, not
-- "_discovery".
pub cleanup_workspaces-spares :
    (disk : Disk) (db : Db) (dir pid name : String) (cutoff id : ℕ) (dirs : List ProjectDir)
    → disk.parse_uuid dir ≡ some pid
    → disk.parse_int name ≡ some id
    → str_eq name "_discovery" ≡ false
    → disk.retained_fails pid id ≡ false
    → workspace_busy db pid id ≡ true
    → any (holds dir name) dirs ≡ true
    → any (holds dir name) (cleanup_workspaces disk db cutoff dirs) ≡ true
unfolding cleanup_workspaces
cleanup_workspaces-spares disk db dir pid name cutoff id [] project number apart answered busy h = h
cleanup_workspaces-spares disk db dir pid name cutoff id (d ∷ dirs) project number apart answered
      busy h =
    ground (
      arith,
      h,
      clean_dir-spares disk (λ o p e. keeps_workspace disk db o p cutoff e) dir pid name d project
          (in_use-kept disk db dir pid name cutoff id number apart answered busy),
      cleanup_workspaces-spares disk db dir pid name cutoff id dirs project number apart answered
          busy,
    )
