-- ===== src/Archive.antt =====
-- internal/archive/archive.go: the extraction of an uploaded archive.
pub mod Extracts
pub mod Confined
use pici.Base.{
  ℕ, zero, suc, ◌+◌, ◌-◌, ◌*◌, ◌≤◌, ◌<◌, String, ◌≡◌, refl, sym, ap, ◌∙◌, ◌≢◌, ◌↔◌, ◌⊎◌, inl, inr,
  Bool, true, false, not, ◌&&◌, ◌||◌, Option, none, some, List, [], ◌∷◌, ◌++◌, map, arith, eq_iff,
  ltb, leb, ◌==◌, str_eq, if◌then◌else◌, ==_iff, Bool-cases, Option-cases, length, get_elem?, any,
  all, drop, take, All, length-append, Text, codes, has_prefix, contains, ℤ, pos, negsuc, decrement,
  increment, is_zero, is_negative, is_positive, Dict, get, get_or, put, get_or-put, get-put, count,
  count-append, length-le_of_count, count-eq_of_length, select, select_all, update, delete,
  order_by, str_leb,
}
use Prim.Native.Nat.{◌%◌}

-- A path of the disk, as its names from the root.
abbrev pub Place : Type 0
Place = List String

-- The name or link of a header, as what stands between its slashes.
pub record Name : Type 0 where
  pub absolute : Bool
  pub parts : List String

pub data Node : Type 0 where
  dir : (mode : ℕ) → Node
  file : Text → (mode : ℕ) → Node
  symlink : Name → Node

-- The disk: its nodes by their places.
abbrev pub Disk : Type 0
Disk = List (Place × Node)

pub data Typeflag : Type 0 where
  dir_entry reg_entry symlink_entry link_entry x_global_header x_header unsupported : Typeflag

-- tar.Header, and the data that follow it, which `none` cannot read to the end.
pub record Entry : Type 0 where
  pub name : Name
  pub typeflag : Typeflag
  pub link : Name
  pub mode : ℕ
  pub content : Option Text

pub data ArchiveError : Type 0 where
  not_gzip bad_tar too_many_entries too_large invalid_path over_non_directory : ArchiveError
  unsupported_type invalid_parent absolute_link escaping_link invalid_link system : ArchiveError

-- What tar.Reader finds in the first `limit` bytes of the stream: the entries, whether they end well,
-- and how many bytes it took. `none` if the stream is no gzip.
pub record Stream : Type 0 where
  pub entries : List Entry
  pub is_complete : Bool
  pub read : ℕ

-- The disk after an operation, and the error or what the operation returns.
abbrev pub Done : Type 0 → Type 0
Done A = Disk × (ArchiveError ⊎ A)

abbrev pub place_eq : Place → Place → Bool
place_eq [] [] = true
place_eq [] (q ∷ qs) = false
place_eq (p ∷ ps) [] = false
place_eq (p ∷ ps) (q ∷ qs) = str_eq p q && place_eq ps qs

-- strings.HasPrefix of a clean path and the separator, or equality
abbrev pub is_within : Place → Place → Bool
is_within [] q = true
is_within (p ∷ ps) [] = false
is_within (p ∷ ps) (q ∷ qs) = str_eq p q && is_within ps qs

abbrev pub lookup : Disk → Place → Option Node
lookup [] p = none
lookup ((q, n) ∷ disk) p = if place_eq q p then some n else lookup disk p

-- filepath.Dir of a place
abbrev pub parent : Place → Place
parent [] = []
parent (p ∷ []) = []
parent (p ∷ q ∷ ps) = p ∷ parent (q ∷ ps)

-- filepath.Clean: `kept` holds the names so far, the last first.
abbrev pub drop_last : (absolute : Bool) → List String → List String
drop_last absolute [] = if absolute then [] else ".." ∷ []
drop_last absolute (k ∷ kept) = if str_eq k ".." then ".." ∷ k ∷ kept else kept

abbrev pub cleaned : (absolute : Bool) → List String → List String → List String
cleaned absolute kept [] = kept
cleaned absolute kept (p ∷ ps) =
    cleaned absolute
      (if str_eq p "" || str_eq p "."
        then kept
        else if str_eq p ".."
        then drop_last absolute kept
        else p ∷ kept)
      ps

abbrev pub reversed : List String → List String → List String
reversed acc [] = acc
reversed acc (p ∷ ps) = reversed (p ∷ acc) ps

unfoldable pub clean : (absolute : Bool) → List String → List String
clean absolute parts = reversed [] (cleaned absolute [] parts)

abbrev pub is_blank : Name → Bool
is_blank name = not name.absolute && elim name.parts [
  | [] ↦ true
  | ◌∷◌ p ps ↦ str_eq p "" && elim ps [ [] ↦ true | ◌∷◌ q qs ↦ false ]
]

abbrev pub starts_with_dots : List String → Bool
starts_with_dots [] = false
starts_with_dots (p ∷ ps) = str_eq p ".."

-- filepath.IsLocal
unfoldable pub is_local : Name → Bool
unfolding clean
is_local name =
    not name.absolute && (not (is_blank name) && not (starts_with_dots (clean false name.parts)))

pub data Stat : Type 0 where
  found : Node → Stat
  missing broken : Stat

-- os.Lstat of a place whose parents are directories but perhaps the last of them
unfoldable pub lstat : Disk → Place → Stat
lstat disk p = elim (lookup disk (parent p)) [
  | none ↦ missing
  | some n ↦ elim n [
    | dir m ↦ elim (lookup disk p) [ none ↦ missing | some node ↦ found node ]
    | file c m ↦ broken
    | symlink t ↦ broken
  ]
]

abbrev pub is_child : Place → (Place × Node) → Bool
is_child p (q, n) = place_eq (parent q) p && not (place_eq q p)

abbrev pub forget : Place → Disk → Disk
forget p [] = []
forget p ((q, n) ∷ disk) = let rest = forget p disk in if place_eq q p then rest else (q, n) ∷ rest

abbrev pub removed : Disk → Place → Option Node → Disk
removed disk p none = disk
removed disk p (some (dir m)) = if any (is_child p) disk then disk else forget p disk
removed disk p (some (file c m)) = forget p disk
removed disk p (some (symlink t)) = forget p disk

-- os.Remove, its error ignored: a directory goes if it is empty.
unfoldable pub remove : Disk → Place → Disk
remove disk p = removed disk p (lookup disk p)

abbrev pub created : Disk → Place → Node → Stat → (up : Option Node) → Done Unit
created disk p n (found node) up = (disk, inl system)
created disk p n broken up = (disk, inl system)
created disk p n missing none = (disk, inl system)
created disk p n missing (some up) = ((p, n) ∷ disk, inr tt)

-- os.Mkdir, os.Symlink, os.Link and os.OpenFile with O_EXCL
unfoldable pub create : Disk → Place → Node → Done Unit
unfolding lstat
create disk p n = created disk p n (lstat disk p) (lookup disk (parent p))

-- Perm of a mode
abbrev pub file_mode : ℕ → ℕ
file_mode m = m % 512

abbrev pub dir_mode : ℕ → ℕ
dir_mode m = let mode = file_mode m in if ltb mode 64 then mode + 448 else mode

-- What Lstat says of a component of the path: whether it is made, or is a directory.
abbrev pub enter : Disk → Place → Stat → Done Unit
enter disk cur missing = create disk cur (dir 493)
enter disk cur broken = (disk, inl system)
enter disk cur (found (dir m)) = (disk, inr tt)
enter disk cur (found (file c m)) = (disk, inl invalid_parent)
enter disk cur (found (symlink t)) = (disk, inl invalid_parent)

-- An operation goes on with what the one before it returned.
abbrev pub bind : {A B : Type 0} → Done A → (Disk → A → Done B) → Done B
bind (disk, inl e) k = (disk, inl e)
bind (disk, inr a) k = k disk a

-- The loop of securePath.
abbrev pub secure_from : Disk → (cur : Place) → List String → Done Place
secure_from disk cur [] = (disk, inr cur)
secure_from disk cur (p ∷ []) = (disk, inr (cur ++ p ∷ []))
secure_from disk cur (p ∷ q ∷ ps) =
    let next = cur ++ p ∷ [] in
    bind (enter disk next (lstat disk next)) (λ disk' done. secure_from disk' next (q ∷ ps))

-- securePath
unfoldable pub secure_path : Disk → (dest : Place) → Name → Done Place
secure_path disk dest name = secure_from disk dest (clean false name.parts)

-- writeFile
unfoldable pub write_file : Disk → Place → Option Text → ℕ → Done Unit
write_file disk path none mode =
    bind (create (remove disk path) path (file [] mode)) (λ disk' done. (disk', inl bad_tar))
write_file disk path (some content) mode = create (remove disk path) path (file content mode)

-- The place that a link of this name at `path` leads to, going by the names alone.
abbrev pub resolved : Place → Name → Place
resolved path link = clean true (parent path ++ link.parts)

-- writeSymlink, after securePath
abbrev pub symlink_at : (dest : Place) → (link : Name) → Disk → Place → Done Unit
symlink_at dest link disk path =
    if not (is_within dest (resolved path link))
    then (disk, inl escaping_link)
    else if is_blank link
    then (remove disk path, inl system)
    else create (remove disk path) path (symlink link)

-- writeSymlink
unfoldable pub write_symlink : Disk → (dest : Place) → (name link : Name) → Done Unit
write_symlink disk dest name link =
    if link.absolute
    then (disk, inl absolute_link)
    else bind (secure_path disk dest name) (symlink_at dest link)

-- os.Link; `follow` is where the kernel finds the parents of a place.
abbrev pub linked : Option Node → Disk → Place → Done Unit
linked none disk path = (disk, inl system)
linked (some (dir m)) disk path = (disk, inl system)
linked (some (file c m)) disk path = create disk path (file c m)
linked (some (symlink t)) disk path = create disk path (symlink t)

-- writeHardlink, after securePath
abbrev pub hardlink_at : (Disk → Place → Option Place) → (target : Place) → Disk → Place → Done Unit
hardlink_at follow target disk path =
    let free = remove disk path in
    linked (elim (follow free target) [ none ↦ none | some p ↦ lookup free p ]) free path

-- The place that the link of a hard link entry names.
abbrev pub target_of : (dest : Place) → (link : Name) → Place
target_of dest link = clean true (dest ++ link.parts)

-- writeHardlink
unfoldable pub write_hardlink :
    (Disk → Place → Option Place) → Disk → (dest : Place) → (name link : Name) → Done Unit
write_hardlink follow disk dest name link =
    if link.absolute || not (is_local link)
    then (disk, inl invalid_link)
    else if not (is_within dest (target_of dest link))
    then (disk, inl escaping_link)
    else bind (secure_path disk dest name) (hardlink_at follow (target_of dest link))

-- A directory entry, after securePath.
abbrev pub make_dir : Disk → Place → ℕ → Stat → Done Unit
make_dir disk path mode missing = create disk path (dir (dir_mode mode))
make_dir disk path mode broken = create disk path (dir (dir_mode mode))
make_dir disk path mode (found (dir m)) = (disk, inr tt)
make_dir disk path mode (found (file c m)) = (disk, inl over_non_directory)
make_dir disk path mode (found (symlink t)) = (disk, inl over_non_directory)

abbrev pub extract_as :
    (Disk → Place → Option Place) → Disk → (dest : Place) → Entry → Typeflag → Done Unit
extract_as follow disk dest e dir_entry =
    bind (secure_path disk dest e.name)
      (λ disk' path. make_dir disk' path e.mode (lstat disk' path))
extract_as follow disk dest e reg_entry =
    bind (secure_path disk dest e.name)
      (λ disk' path. write_file disk' path e.content (file_mode e.mode))
extract_as follow disk dest e symlink_entry = write_symlink disk dest e.name e.link
extract_as follow disk dest e link_entry = write_hardlink follow disk dest e.name e.link
extract_as follow disk dest e x_global_header = (disk, inr tt)
extract_as follow disk dest e x_header = (disk, inr tt)
extract_as follow disk dest e unsupported = (disk, inl unsupported_type)

-- extractEntry; the name "." is one part.
unfoldable pub extract_entry :
    (Disk → Place → Option Place) → Disk → (dest : Place) → Entry → Done Unit
extract_entry follow disk dest e =
    if is_blank e.name || place_eq e.name.parts ("." ∷ []) || not (is_local e.name)
    then (disk, inl invalid_path)
    else extract_as follow disk dest e e.typeflag

abbrev pub max_entries : ℕ
max_entries = 1000000

-- The loop of ExtractTarGz, after `count` entries.
unfoldable pub extract_all :
    (Disk → Place → Option Place) → Disk → (dest : Place) → (count : ℕ) → List Entry → Bool → Done ℕ
unfolding extract_entry
extract_all follow disk dest count [] is_complete =
    (disk, if is_complete then inr count else inl bad_tar)
extract_all follow disk dest count (e ∷ entries) is_complete =
    if ltb max_entries (count + 1)
    then (disk, inl too_many_entries)
    else bind (extract_entry follow disk dest e)
        (λ disk' done. extract_all follow disk' dest (count + 1) entries is_complete)

-- 4 GiB when unset
abbrev pub size_limit : ℤ → ℕ
size_limit (pos zero) = 4294967296
size_limit (pos (suc n)) = suc n
size_limit (negsuc n) = 4294967296

abbrev pub max_int64 : ℕ
max_int64 = 9223372036854775807

-- `maxBytes + 1` of the LimitedReader: the largest int64 wraps to a negative number, and then nothing is
-- read.
abbrev pub read_limit : (limit : ℕ) → ℕ
read_limit limit = if limit == max_int64 then 0 else limit + 1

-- `lr.N <= 0`: more than the limit was read, or there was nothing to read from the start.
abbrev pub within_limit : (limit : ℕ) → Stream → Disk → ℕ → Done Unit
within_limit limit stream disk count =
    if (limit == max_int64) || ltb limit stream.read then (disk, inl too_large) else (disk, inr tt)

abbrev pub extract_stream :
    (Disk → Place → Option Place) → Disk → (dest : Place) → (limit : ℕ) → Option Stream → Done Unit
extract_stream follow disk dest limit none = (disk, inl not_gzip)
extract_stream follow disk dest limit (some stream) =
    bind (extract_all follow disk dest 0 stream.entries stream.is_complete)
      (within_limit limit stream)

-- ExtractTarGz
unfoldable pub extract_tar_gz :
    (Disk → Place → Option Place)
    → Disk
    → (dest : Place) → (ℕ → Option Stream)
    → (max_bytes : ℤ) → Done Unit
unfolding extract_all
extract_tar_gz follow disk dest source max_bytes =
    let limit = size_limit max_bytes in
    extract_stream follow disk dest limit (source (read_limit limit))
