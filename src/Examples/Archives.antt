-- ===== src/Examples/Archives.antt =====
-- An archive with a link to a link.
use pici.Base.{ℕ, String, ◌≡◌, refl, true, false, Option, none, some, List, [], ◌∷◌, pos}
use pici.Archive.{
  Place, Name, dir, file, symlink, Disk, dir_entry, symlink_entry, link_entry, Entry, Stream,
  lookup, extract_tar_gz, extract_all, extract_entry, secure_path, clean, is_local, write_symlink,
  write_hardlink, create, lstat, remove,
}
use pici.Archive.Extracts.{is_done}

abbrev dest : Place
dest = "work" ∷ []

abbrev disk : Disk
disk = (dest, dir 493) ∷ ("secret" ∷ [], file [] 384) ∷ ([], dir 493) ∷ []

abbrev local_name : List String → Name
local_name parts = record { absolute = false; parts = parts }

abbrev entry : Entry
entry = record {
  name = local_name ("out" ∷ []);
  typeflag = dir_entry;
  link = local_name [];
  mode = 493;
  content = none;
}

-- The directory d, the link d/up to its parent, and out, a hard link to that link.
abbrev entries : List Entry
entries =
    record entry { name = local_name ("d" ∷ []) }
    ∷ record entry {
      name = local_name ("d" ∷ "up" ∷ []);
      typeflag = symlink_entry;
      link = local_name (".." ∷ []);
    }
    ∷ record entry { typeflag = link_entry; link = local_name ("d" ∷ "up" ∷ []) }
    ∷ []

abbrev source : ℕ → Option Stream
source n = some (record { entries = entries; is_complete = true; read = 4096 })

abbrev follow : Disk → Place → Option Place
follow d p = some p

-- The extraction succeeds, and leaves in the destination a link to the directory above it.
escaping_link_run :
    (is_done (extract_tar_gz follow disk dest source (pos 8192)).1 ≡ true)
    × (lookup (extract_tar_gz follow disk dest source (pos 8192)).0 ("work" ∷ "out" ∷ [])
        ≡ some (symlink (local_name (".." ∷ []))))
unfolding extract_tar_gz extract_all extract_entry secure_path clean is_local write_symlink
    write_hardlink create lstat remove
escaping_link_run = (refl, refl)
