-- ===== src/Mask/Multiline.antt =====
-- Secrets of several lines, such as a private key, against a writer that redacts line by line.
use pici.Base.{
  ℕ, ◌≡◌, refl, ap, ◌∙◌, inl, inr, Bool, true, false, ◌||◌, List, [], ◌∷◌, map, arith, ◌==◌,
  Bool-cases, all, All, Text, has_prefix,
}
use pici.Mask.{
  redact, replace_from, replace_all, flush, open_sink, write_chunks, new_writer, cleaned,
}
use pici.Mask.Lines.{lines, join, extend, write_chunks-flush}

-- A newline with a byte behind it.
abbrev pub has_inner_newline : Text → Bool
has_inner_newline [] = false
has_inner_newline (c ∷ []) = false
has_inner_newline (c ∷ d ∷ s) = c == b'\n' || has_inner_newline (d ∷ s)

-- What a prefix of a text has, the text has.
has_inner_newline_of_prefix :
    (u s : Text) → has_prefix u s ≡ true → has_inner_newline u ≡ true → has_inner_newline s ≡ true
unfolding has_prefix
has_inner_newline_of_prefix [] s p h = cc
has_inner_newline_of_prefix (c ∷ []) s p h = cc
has_inner_newline_of_prefix (c ∷ d ∷ u) [] p h = cc
has_inner_newline_of_prefix (c ∷ d ∷ u) (e ∷ []) p h = ground arith
has_inner_newline_of_prefix (c ∷ d ∷ u) (e ∷ f ∷ s) p h =
    ground (arith, has_inner_newline_of_prefix (d ∷ u) (f ∷ s))

has_inner_newline_tail :
    (c : ℕ) (s : Text) → has_inner_newline (c ∷ s) ≡ false → has_inner_newline s ≡ false
has_inner_newline_tail c [] h = refl
has_inner_newline_tail c (d ∷ s) h = ground arith

replace_from-id :
    (old s : Text)
    → has_inner_newline old ≡ true
    → has_inner_newline s ≡ false
    → replace_from old 0 s ≡ s
unfolding replace_from
replace_from-id old [] h k = refl
replace_from-id old (c ∷ s) h k = ground (
  arith,
  has_inner_newline_of_prefix old (c ∷ s),
  has_inner_newline_tail c s,
  replace_from-id old s,
)

redact-id :
    (s : Text) (secrets : List Text)
    → all has_inner_newline secrets ≡ true
    → has_inner_newline s ≡ false
    → redact s secrets ≡ s
unfolding redact replace_all
redact-id s [] h k = refl
redact-id s ([] ∷ secrets) h k = cc
redact-id s ((b ∷ sec) ∷ secrets) h k =
    rw (replace_from-id (b ∷ sec) s (ground arith) k) (redact-id s secrets (ground arith) k)

join-extend : (c : ℕ) (ls : List Text) → join (extend c ls) ≡ c ∷ join ls
join-extend c [] = refl
join-extend c (l ∷ ls) = refl

join-lines : (s : Text) → join (lines s) ≡ s
join-lines [] = refl
join-lines (c ∷ s) = elim (Bool-cases (c == b'\n')) [
  | inl e ↦ rw e (ap (λ t. c ∷ t) (join-lines s))
  | inr e ↦ rw e (join-extend c (lines s) ∙ ap (λ t. c ∷ t) (join-lines s))
]

abbrev OneLine : Text → Type 0
OneLine l = has_inner_newline l ≡ false

All-extend :
    (c : ℕ) (ls : List Text) → (c == b'\n') ≡ false → All OneLine ls → All OneLine (extend c ls)
All-extend c [] e h = (refl, tt)
All-extend c ([] ∷ ls) e h = (refl, h.1)
All-extend c ((d ∷ l) ∷ ls) e h = (ground arith, h.1)

All-lines : (s : Text) → All OneLine (lines s)
All-lines [] = tt
All-lines (c ∷ s) = elim (Bool-cases (c == b'\n')) [
  | inl e ↦ rw e (refl, All-lines s)
  | inr e ↦ rw e (All-extend c (lines s) e (All-lines s))
]

map-redact-id :
    (secrets ls : List Text)
    → all has_inner_newline secrets ≡ true
    → All OneLine ls
    → map (λ l. redact l secrets) ls ≡ ls
map-redact-id secrets [] h k = refl
map-redact-id secrets (l ∷ ls) h k = rw (redact-id l secrets h k.0, map-redact-id secrets ls h k.1)

cleaned-id :
    (secrets : List Text) → all has_inner_newline secrets ≡ true → cleaned secrets ≡ secrets
unfolding cleaned
cleaned-id [] h = refl
cleaned-id ([] ∷ secrets) h = cc
cleaned-id ((b ∷ sec) ∷ secrets) h = ap (λ l. (b ∷ sec) ∷ l) (cleaned-id secrets (ground arith))

-- If every secret has a newline with a byte behind it, the writer masks nothing: the log reaches
-- the sink byte for byte, occurrences of the secrets included.
pub multiline_unmasked :
    (secrets chunks : List Text)
    → all has_inner_newline secrets ≡ true
    → join (flush open_sink (write_chunks open_sink (new_writer secrets) chunks)).0.written
      ≡ join chunks
multiline_unmasked secrets chunks h =
    rw
      (
        write_chunks-flush secrets chunks,
        cleaned-id secrets h,
        map-redact-id secrets (lines (join chunks)) h (All-lines (join chunks)),
      )
      (join-lines (join chunks))
