-- ===== src/Archive/Extracts.antt =====
-- What an extraction may do, and within which bounds.
use pici.Base.{
  ℕ, ◌+◌, ◌≤◌, ◌≡◌, ◌⊎◌, inl, inr, Bool, true, false, not, ◌||◌, Option, none, some, List, [], ◌∷◌,
  arith, ◌==◌, ltb, if◌then◌else◌, Bool-cases, Text, ℤ, count,
}
use pici.Archive.{
  Place, Name, Node, dir, file, symlink, Disk, Typeflag, dir_entry, reg_entry, symlink_entry,
  link_entry, x_global_header, x_header, unsupported, Entry, ArchiveError, system, bad_tar,
  absolute_link, escaping_link, invalid_link, invalid_path, Stream, Done, place_eq, is_within,
  is_blank, is_local, Stat, found, missing, broken, lstat, remove, create, file_mode, dir_mode,
  bind, secure_path, write_file, resolved, symlink_at, write_symlink, linked, hardlink_at,
  target_of, write_hardlink, make_dir, extract_as, extract_entry, max_entries, extract_all,
  size_limit, max_int64, read_limit, within_limit, extract_stream, extract_tar_gz,
}
use pici.Archive.Confined.{
  IsConfined, IsSafe, Any, bind-IsSafe, after, create-IsSafe, remove-IsConfined, replace-IsSafe,
  still, IsIn, secure_path-IsSafe,
}

either : {A : Type 0} (P : A → Type 0) (c : Bool) (a b : A) → P a → P b → P (if c then a else b)
either P true a b p q = p
either P false a b p q = q

refused-IsSafe :
    (dest : Place) (disk : Disk) (e : ArchiveError) → IsSafe {A = Unit} dest disk Any (disk, inl e)
unfolding IsSafe
refused-IsSafe dest disk e = still dest disk

write_file-IsSafe :
    (dest path : Place) (disk : Disk) (content : Option Text) (mode : ℕ)
    → is_within dest path ≡ true
    → IsSafe dest disk Any (write_file disk path content mode)
unfolding write_file
write_file-IsSafe dest path disk none mode i =
    bind-IsSafe dest disk Any Any (create (remove disk path) path (file [] mode)) _
      (replace-IsSafe dest path disk (file [] mode) i)
      (λ disk' done t. refused-IsSafe dest disk' bad_tar)
write_file-IsSafe dest path disk (some content) mode i =
    replace-IsSafe dest path disk (file content mode) i

symlink_at-IsSafe :
    (dest path : Place) (disk : Disk) (link : Name)
    → is_within dest path ≡ true
    → IsSafe dest disk Any (symlink_at dest link disk path)
symlink_at-IsSafe dest path disk link i =
    either (IsSafe dest disk Any) (not (is_within dest (resolved path link)))
      (disk, inl escaping_link)
      (if is_blank link
        then (remove disk path, inl system)
        else create (remove disk path) path (symlink link))
      (refused-IsSafe dest disk escaping_link)
      (either (IsSafe dest disk Any) (is_blank link) (remove disk path, inl system)
        (create (remove disk path) path (symlink link))
        (after dest disk (remove disk path) Any (remove disk path, inl system)
          (remove-IsConfined dest path disk i) (refused-IsSafe dest (remove disk path) system))
        (replace-IsSafe dest path disk (symlink link) i))

write_symlink-IsSafe :
    (dest : Place) (disk : Disk) (name link : Name)
    → IsSafe dest disk Any (write_symlink disk dest name link)
unfolding write_symlink
write_symlink-IsSafe dest disk name link =
    either (IsSafe dest disk Any) link.absolute (disk, inl absolute_link)
      (bind (secure_path disk dest name) (symlink_at dest link))
      (refused-IsSafe dest disk absolute_link)
      (bind-IsSafe dest disk (IsIn dest) Any (secure_path disk dest name) (symlink_at dest link)
        (secure_path-IsSafe dest disk name)
        (λ disk' path i. symlink_at-IsSafe dest path disk' link i))

linked-IsSafe :
    (dest path : Place) (disk : Disk) (o : Option Node)
    → is_within dest path ≡ true
    → IsSafe dest disk Any (linked o disk path)
linked-IsSafe dest path disk none i = refused-IsSafe dest disk system
linked-IsSafe dest path disk (some (dir m)) i = refused-IsSafe dest disk system
linked-IsSafe dest path disk (some (file c m)) i = create-IsSafe dest path disk (file c m) i
linked-IsSafe dest path disk (some (symlink t)) i = create-IsSafe dest path disk (symlink t) i

write_hardlink-IsSafe :
    (follow : Disk → Place → Option Place) (dest : Place) (disk : Disk) (name link : Name)
    → IsSafe dest disk Any (write_hardlink follow disk dest name link)
unfolding write_hardlink
write_hardlink-IsSafe follow dest disk name link =
    let target = target_of dest link in
    let go = bind (secure_path disk dest name) (hardlink_at follow target) in
    either (IsSafe dest disk Any) (link.absolute || not (is_local link)) (disk, inl invalid_link)
      (if not (is_within dest target) then (disk, inl escaping_link) else go)
      (refused-IsSafe dest disk invalid_link)
      (either (IsSafe dest disk Any) (not (is_within dest target)) (disk, inl escaping_link) go
        (refused-IsSafe dest disk escaping_link)
        (bind-IsSafe dest disk (IsIn dest) Any (secure_path disk dest name)
          (hardlink_at follow target) (secure_path-IsSafe dest disk name)
          (λ disk' path i.
            after dest disk' (remove disk' path) Any (hardlink_at follow target disk' path)
              (remove-IsConfined dest path disk' i)
              (linked-IsSafe dest path (remove disk' path) _ i))))

make_dir-IsSafe :
    (dest path : Place) (disk : Disk) (mode : ℕ) (s : Stat)
    → is_within dest path ≡ true
    → IsSafe dest disk Any (make_dir disk path mode s)
unfolding IsSafe
make_dir-IsSafe dest path disk mode missing i = create-IsSafe dest path disk (dir (dir_mode mode)) i
make_dir-IsSafe dest path disk mode broken i = create-IsSafe dest path disk (dir (dir_mode mode)) i
make_dir-IsSafe dest path disk mode (found (dir m)) i = (still dest disk, tt)
make_dir-IsSafe dest path disk mode (found (file c m)) i = still dest disk
make_dir-IsSafe dest path disk mode (found (symlink t)) i = still dest disk

extract_as-IsSafe :
    (follow : Disk → Place → Option Place) (dest : Place) (disk : Disk) (e : Entry) (t : Typeflag)
    → IsSafe dest disk Any (extract_as follow disk dest e t)
unfolding IsSafe
extract_as-IsSafe follow dest disk e dir_entry =
    bind-IsSafe dest disk (IsIn dest) Any (secure_path disk dest e.name) _
      (secure_path-IsSafe dest disk e.name)
      (λ disk' path i. make_dir-IsSafe dest path disk' e.mode (lstat disk' path) i)
extract_as-IsSafe follow dest disk e reg_entry =
    bind-IsSafe dest disk (IsIn dest) Any (secure_path disk dest e.name) _
      (secure_path-IsSafe dest disk e.name)
      (λ disk' path i. write_file-IsSafe dest path disk' e.content (file_mode e.mode) i)
extract_as-IsSafe follow dest disk e symlink_entry = write_symlink-IsSafe dest disk e.name e.link
extract_as-IsSafe follow dest disk e link_entry =
    write_hardlink-IsSafe follow dest disk e.name e.link
extract_as-IsSafe follow dest disk e x_global_header = (still dest disk, tt)
extract_as-IsSafe follow dest disk e x_header = (still dest disk, tt)
extract_as-IsSafe follow dest disk e unsupported = still dest disk

extract_entry-IsSafe :
    (follow : Disk → Place → Option Place) (dest : Place) (disk : Disk) (e : Entry)
    → IsSafe dest disk Any (extract_entry follow disk dest e)
unfolding extract_entry
extract_entry-IsSafe follow dest disk e =
    either (IsSafe dest disk Any)
      (is_blank e.name || place_eq e.name.parts ("." ∷ []) || not (is_local e.name))
      (disk, inl invalid_path) (extract_as follow disk dest e e.typeflag)
      (refused-IsSafe dest disk invalid_path) (extract_as-IsSafe follow dest disk e e.typeflag)

-- What the loop returns is a number of entries within the limit.
abbrev IsFew : ℕ → Type 0
IsFew n = n ≤ max_entries

extract_all-IsSafe :
    (follow : Disk → Place → Option Place) (dest : Place) (disk : Disk) (count : ℕ)
    (entries : List Entry) (is_complete : Bool)
    → count ≤ max_entries
    → IsSafe dest disk IsFew (extract_all follow disk dest count entries is_complete)
unfolding extract_all IsSafe
extract_all-IsSafe follow dest disk count [] true few = (still dest disk, few)
extract_all-IsSafe follow dest disk count [] false few = still dest disk
extract_all-IsSafe follow dest disk count (e ∷ entries) is_complete few =
    elim (Bool-cases (ltb max_entries (count + 1))) [
      | inl many ↦ rw many (still dest disk)
      | inr fits ↦ rw fits (
          bind-IsSafe dest disk Any IsFew (extract_entry follow disk dest e) _
            (extract_entry-IsSafe follow dest disk e)
            (λ disk' done t.
              extract_all-IsSafe follow dest disk' (count + 1) entries is_complete (ground arith)))
    ]

abbrev pub IsWithin : (limit : ℕ) → Option Stream → Type 0
IsWithin limit none = ⊥
IsWithin limit (some stream) = stream.read ≤ limit

extract_stream-IsSafe :
    (follow : Disk → Place → Option Place) (dest : Place) (disk : Disk) (limit : ℕ)
    (stream : Option Stream)
    → IsSafe dest disk (λ r. IsWithin limit stream) (extract_stream follow disk dest limit stream)
unfolding IsSafe
extract_stream-IsSafe follow dest disk limit none = still dest disk
extract_stream-IsSafe follow dest disk limit (some stream) =
    bind-IsSafe dest disk IsFew (λ r. IsWithin limit (some stream))
      (extract_all follow disk dest 0 stream.entries stream.is_complete) (within_limit limit stream)
      (extract_all-IsSafe follow dest disk 0 stream.entries stream.is_complete (omega arith))
      (λ disk' count few. elim (Bool-cases ((limit == max_int64) || ltb limit stream.read)) [
        | inl e ↦ rw e (still dest disk')
        | inr e ↦ rw e (still dest disk', ground arith)
      ])

-- Whether an operation ended without an error.
abbrev pub is_done : {A : Type 0} → ArchiveError ⊎ A → Bool
is_done (inl e) = false
is_done (inr r) = true

safe-IsConfined :
    {A : Type 0} (dest : Place) (disk : Disk) (P : A → Type 0) (d : Done A)
    → IsSafe dest disk P d
    → IsConfined dest disk d.0
unfolding IsSafe
safe-IsConfined dest disk P (disk', inl e) h = h
safe-IsConfined dest disk P (disk', inr a) h = h.0

-- As places go by their names alone, an extraction leaves everything that lies outside of the
-- destination as it was, also when it ends in an error.
pub extract_tar_gz-IsConfined :
    (follow : Disk → Place → Option Place) (disk : Disk) (dest : Place) (source : ℕ → Option Stream)
    (max_bytes : ℤ)
    → IsConfined dest disk (extract_tar_gz follow disk dest source max_bytes).0
unfolding extract_tar_gz
extract_tar_gz-IsConfined follow disk dest source max_bytes =
    let limit = size_limit max_bytes in
    let stream = source (read_limit limit) in
    safe-IsConfined dest disk (λ r. IsWithin limit stream)
      (extract_stream follow disk dest limit stream)
      (extract_stream-IsSafe follow dest disk limit stream)
