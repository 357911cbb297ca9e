-- ===== src/Mask/Lines.antt =====
-- The writer's output does not depend on how the log was cut into chunks: it is the lines of the
-- whole log, each redacted.
use pici.Base.{
  ℕ, zero, suc, ◌≤◌, ◌<◌, ◌≡◌, refl, sym, ap, ◌∙◌, inl, inr, true, none, some, List, [], ◌∷◌, ◌++◌,
  map, arith, ◌==◌, if◌then◌else◌, Option-cases, length, Text,
}
use mathlib.Core.List.{append_assoc, append-nil}
use pici.Mask.{
  Writer, redact, cut_line, drain, write, flush, open_sink, write_chunks, new_writer, cleaned,
}

abbrev pub join : List Text → Text
join [] = []
join (l ∷ ls) = l ++ join ls

abbrev pub extend : ℕ → List Text → List Text
extend c [] = (c ∷ []) ∷ []
extend c (l ∷ ls) = (c ∷ l) ∷ ls

-- The lines of a text, each with its newline; the last one may lack it.
abbrev pub lines : Text → List Text
lines [] = []
lines (c ∷ s) = if c == b'\n' then (c ∷ []) ∷ lines s else extend c (lines s)

lines-cut_line :
    (b line rest p : Text)
    → cut_line b ≡ some (line, rest)
    → lines (b ++ p) ≡ line ∷ lines (rest ++ p)
unfolding cut_line
lines-cut_line [] line rest p h = cc
lines-cut_line (c ∷ b) line rest p h = elim (Option-cases (cut_line b)) [
  | inl e ↦ ground arith
  | inr ((l, r), e) ↦ ground (arith, lines-cut_line b l r p)
]

length-cut_line : (b line rest : Text) → cut_line b ≡ some (line, rest) → length rest < length b
unfolding cut_line
length-cut_line [] line rest h = cc
length-cut_line (c ∷ b) line rest h = elim (Option-cases (cut_line b)) [
  | inl e ↦ ground arith
  | inr ((l, r), e) ↦ ground (arith, length-cut_line b l r)
]

-- A text without a newline is one line.
lines_of_partial : (c : ℕ) (b : Text) → cut_line (c ∷ b) ≡ none → lines (c ∷ b) ≡ (c ∷ b) ∷ []
unfolding cut_line
lines_of_partial c [] h = ground arith
lines_of_partial c (d ∷ b) h = ground (arith, lines_of_partial d b)

-- What is written, and what will be once `p` and the end of the log have come.
abbrev total : Writer → Text → List Text
total m p = m.written ++ map (λ l. redact l m.secrets) (lines (m.buf ++ p))

-- The state after one line of the loop.
abbrev after_line : Writer → Text → Text → Writer
after_line m line rest = record m { written = m.written ++ redact line m.secrets ∷ []; buf = rest }

total-after_line :
    (m : Writer) (line rest p : Text)
    → cut_line m.buf ≡ some (line, rest)
    → total (after_line m line rest) p ≡ total m p
total-after_line m line rest p e =
    rw (lines-cut_line m.buf line rest p e) (append_assoc m.written (redact line m.secrets ∷ []) _)

drain-total :
    (fuel : ℕ) (m : Writer) (p : Text)
    → (total (drain open_sink fuel m).0 p ≡ total m p)
      × ((drain open_sink fuel m).0.secrets ≡ m.secrets)
unfolding drain
drain-total zero m p = (refl, refl)
drain-total (suc fuel) m p = elim (Option-cases (cut_line m.buf)) [
  | inl e ↦ rw (e, drain) (refl, refl)
  | inr ((l, r), e) ↦
      let (same, kept) = drain-total fuel (after_line m l r) p in
      rw (e, drain) (same ∙ total-after_line m l r p e, kept)
]

cut_line_empty : (b : Text) → length b ≤ 0 → cut_line b ≡ none
unfolding cut_line
cut_line_empty [] h = refl
cut_line_empty (c ∷ b) h = absurd (omega arith)

-- With as much fuel as the buffer has bytes, no newline is left in it.
drain_empties :
    (fuel : ℕ) (m : Writer)
    → length m.buf ≤ fuel
    → (cut_line (drain open_sink fuel m).0.buf ≡ none) × ((drain open_sink fuel m).1 ≡ true)
unfolding drain
drain_empties zero m h = (cut_line_empty m.buf h, refl)
drain_empties (suc fuel) m h = elim (Option-cases (cut_line m.buf)) [
  | inl e ↦ rw (e, drain) (e, refl)
  | inr ((l, r), e) ↦
      rw (e, drain)
        (drain_empties fuel (after_line m l r) (omega (arith, length-cut_line m.buf l r e)))
]

flush-total :
    (written secrets : List Text) (buf : Text)
    → cut_line buf ≡ none
    → let m : Writer = record { written = written; secrets = secrets; buf = buf } in
      (flush open_sink m).0.written ≡ total m []
unfolding flush
flush-total written secrets [] e = sym (append-nil written)
flush-total written secrets (c ∷ b) e = rw (append-nil, lines_of_partial c b e)

write-total :
    (m : Writer) (p rest : Text) → total (write open_sink m p).0 rest ≡ total m (p ++ rest)
unfolding write
write-total m p rest =
    (drain-total (length (m.buf ++ p)) (record m { buf = m.buf ++ p }) rest).0
    ∙ ap (λ (b : Text). m.written ++ map (λ l. redact l m.secrets) (lines b))
        (append_assoc m.buf p rest)

write_empties : (m : Writer) (p : Text) → cut_line (write open_sink m p).0.buf ≡ none
unfolding write
write_empties m p =
    (drain_empties (length (m.buf ++ p)) (record m { buf = m.buf ++ p }) (omega arith)).0

write_chunks-total :
    (chunks : List Text) (m : Writer)
    → cut_line m.buf ≡ none
    → (flush open_sink (write_chunks open_sink m chunks)).0.written ≡ total m (join chunks)
unfolding write_chunks
write_chunks-total [] m e = flush-total m.written m.secrets m.buf e
write_chunks-total (p ∷ chunks) m e =
    write_chunks-total chunks (write open_sink m p).0 (write_empties m p)
    ∙ write-total m p (join chunks)

-- A log that is written in chunks and flushed, to a sink that accepts every write, reaches the
-- sink as the lines of the whole log, each redacted: how it was cut into chunks does not matter.
pub write_chunks-flush :
    (secrets chunks : List Text)
    → (flush open_sink (write_chunks open_sink (new_writer secrets) chunks)).0.written
      ≡ map (λ l. redact l (cleaned secrets)) (lines (join chunks))
write_chunks-flush secrets chunks =
    unfold new_writer in write_chunks-total chunks (new_writer secrets) (unfold cut_line in refl)
