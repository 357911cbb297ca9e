-- ===== src/Mask.antt =====
-- internal/mask/mask.go: the writer that hides secrets in log files.
pub mod Redacts
pub mod Lines
pub mod Multiline
pub mod Sealed
use pici.Base.{
  ℕ, zero, suc, ◌+◌, ◌-◌, ◌*◌, ◌≤◌, ◌<◌, String, ◌≡◌, refl, sym, ap, ◌∙◌, ◌≢◌, ◌↔◌, ◌⊎◌, inl, inr,
  Bool, true, false, not, ◌&&◌, ◌||◌, Option, none, some, List, [], ◌∷◌, ◌++◌, map, arith, eq_iff,
  ltb, leb, ◌==◌, str_eq, if◌then◌else◌, ==_iff, Bool-cases, Option-cases, length, get_elem?, any,
  all, drop, take, All, length-append, Text, codes, has_prefix, contains,
}

abbrev pub replacement : Text
replacement = codes "***"

-- strings.ReplaceAll for a non-empty `old`: leftmost matches that do not overlap. `skip` counts
-- the bytes of a match that are still to be passed over.
unfoldable pub replace_from : Text → ℕ → Text → Text
replace_from old skip [] = []
replace_from old (suc skip) (c ∷ s) = replace_from old skip s
replace_from old zero (c ∷ s) =
    let hit = has_prefix old (c ∷ s) in
    let rest = replace_from old (if hit then length old - 1 else 0) s in
    if hit then replacement ++ rest else c ∷ rest

unfoldable pub replace_all : Text → Text → Text
unfolding replace_from
replace_all s old = replace_from old 0 s

-- Redact
unfoldable pub redact : Text → List Text → Text
redact s [] = s
redact s ([] ∷ secrets) = redact s secrets
redact s ((b ∷ sec) ∷ secrets) = redact (replace_all s (b ∷ sec)) secrets

-- The underlying io.Writer: whether a write succeeds may depend on what was written before it.
abbrev pub Sink : Type 0
Sink = List Text → Text → Bool

pub record Writer : Type 0 where
  pub written : List Text
  pub secrets : List Text
  pub buf : Text

-- NewWriter keeps the secrets that are not empty.
unfoldable pub cleaned : List Text → List Text
cleaned [] = []
cleaned ([] ∷ secrets) = cleaned secrets
cleaned ((b ∷ sec) ∷ secrets) = (b ∷ sec) ∷ cleaned secrets

unfoldable pub new_writer : List Text → Writer
unfolding cleaned
new_writer secrets = record { written = []; secrets = cleaned secrets; buf = [] }

-- `bytes.IndexByte(buf, '\n')` and the two slices that are cut there.
unfoldable pub cut_line : Text → Option (Text × Text)
cut_line [] = none
cut_line (c ∷ s) =
    if c == b'\n'
    then some (c ∷ [], s)
    else elim (cut_line s) [ none ↦ none | some (line, rest) ↦ some (c ∷ line, rest) ]

-- One write to the sink: the data it accepted, or a failure.
unfoldable pub emit : Sink → Writer → Text → Writer × Bool
emit sink m line =
    if sink m.written line
    then (record m { written = m.written ++ line ∷ [] }, true)
    else (m, false)

-- The loop of Write. It stops at the first failure; `true` means that there was none.
unfoldable pub drain : Sink → ℕ → Writer → Writer × Bool
unfolding cut_line emit
drain sink zero m = (m, true)
drain sink (suc fuel) m = elim (cut_line m.buf) [
  | none ↦ (m, true)
  | some (line, rest) ↦
      let (m', accepted) = emit sink (record m { buf = rest }) (redact line m.secrets) in
      elim accepted [ true ↦ drain sink fuel m' | false ↦ (m', false) ]
]

-- Write reports all of `p` as written, also beside an error.
unfoldable pub write : Sink → Writer → Text → Writer × ℕ × Bool
unfolding drain
write sink m p =
    let buf = m.buf ++ p in
    let (m', accepted) = drain sink (length buf) (record m { buf = buf }) in
    (m', length p, accepted)

-- Flush drops the buffer whether or not the sink accepts it.
unfoldable pub flush : Sink → Writer → Writer × Bool
unfolding emit
flush sink m = elim m.buf [
  | [] ↦ (m, true)
  | c ∷ s ↦
      let (m', accepted) = emit sink m (redact (c ∷ s) m.secrets) in
      (record m' { buf = [] }, accepted)
]

-- A sink that accepts everything.
abbrev pub open_sink : Sink
open_sink written line = true

-- A client's calls: a Write for each chunk.
unfoldable pub write_chunks : Sink → Writer → List Text → Writer
unfolding write
write_chunks sink m [] = m
write_chunks sink m (p ∷ chunks) = write_chunks sink (write sink m p).0 chunks
