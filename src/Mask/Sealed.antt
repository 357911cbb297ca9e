-- ===== src/Mask/Sealed.antt =====
-- No write that reaches the sink holds a secret, also when the sink fails.
use pici.Base.{
  ℕ, zero, suc, ◌≡◌, refl, ap, ◌≢◌, inl, inr, true, false, List, [], ◌∷◌, ◌++◌, Bool-cases,
  Option-cases, length, All, Text, contains,
}
use pici.Mask.{
  Writer, Sink, redact, cut_line, emit, drain, write, flush, write_chunks, new_writer, cleaned,
}
use pici.Mask.Redacts.{star_free, redact-removes}

-- The writer holds the secret, and none of its writes does.
record IsSealed (sec : Text) (m : Writer) : Type 0 where
  before : List Text
  after : List Text
  held : m.secrets ≡ before ++ sec ∷ after
  clean : All (λ l. contains sec l ≡ false) m.written

abbrev Clean : Text → List Text → Type 0
Clean sec written = All (λ l. contains sec l ≡ false) written

Clean-snoc :
    (sec : Text) (ls : List Text) (l : Text)
    → Clean sec ls
    → contains sec l ≡ false
    → Clean sec (ls ++ l ∷ [])
Clean-snoc sec [] l h p = (p, tt)
Clean-snoc sec (k ∷ ls) l h p = (h.0, Clean-snoc sec ls l h.1 p)

-- The buffer does not matter.
IsSealed-buf :
    (sec : Text) (m : Writer) (buf : Text) → IsSealed sec m → IsSealed sec (record m { buf = buf })
IsSealed-buf sec m buf s = record {
  before = s.before;
  after = s.after;
  held = s.held;
  clean = s.clean;
}

module _ (sink : Sink) (sec : Text) (free : star_free sec ≡ true) (full : sec ≢ []) where
  emit-IsSealed :
      (m : Writer) (line : Text)
      → IsSealed sec m
      → IsSealed sec (emit sink m (redact line m.secrets)).0
  unfolding emit
  emit-IsSealed m line s = elim (Bool-cases (sink m.written (redact line m.secrets))) [
    | inl e ↦ rw e (record {
      before = s.before;
      after = s.after;
      held = s.held;
      clean =
          Clean-snoc sec m.written (redact line m.secrets) s.clean
            (rw s.held (redact-removes s.before line sec s.after free full));
    })
    | inr e ↦ rw e s
  ]

  drain-IsSealed : (fuel : ℕ) (m : Writer) → IsSealed sec m → IsSealed sec (drain sink fuel m).0
  unfolding drain
  drain-IsSealed zero m s = s
  drain-IsSealed (suc fuel) m s = elim (Option-cases (cut_line m.buf)) [
    | inl e ↦ rw (e, drain) s
    | inr ((l, r), e) ↦
        let m' : Writer = record m { buf = r } in
        let s' = emit-IsSealed m' l (IsSealed-buf sec m r s) in
        elim (Bool-cases (emit sink m' (redact l m.secrets)).1) [
          | inl a ↦
              rw (e, drain)
                (rw (a, drain) (drain-IsSealed fuel (emit sink m' (redact l m.secrets)).0 s'))
          | inr a ↦ rw (e, drain) (rw (a, drain) s')
        ]
  ]

  flush-IsSealed : (m : Writer) → IsSealed sec m → IsSealed sec (flush sink m).0
  unfolding flush
  flush-IsSealed m s = at m.buf refl
    where
      at : (b : Text) → m.buf ≡ b → IsSealed sec (flush sink m).0
      at [] e = rw (e, flush) s
      at (c ∷ b) e =
          rw (e, flush)
            (IsSealed-buf sec (emit sink m (redact (c ∷ b) m.secrets)).0 []
              (emit-IsSealed m (c ∷ b) s))

  write_chunks-IsSealed :
      (chunks : List Text) (m : Writer) → IsSealed sec m → IsSealed sec (write_chunks sink m chunks)
  unfolding write_chunks write
  write_chunks-IsSealed [] m s = s
  write_chunks-IsSealed (p ∷ chunks) m s = write_chunks-IsSealed chunks _ (
      drain-IsSealed (length (m.buf ++ p)) (record m { buf = m.buf ++ p })
        (IsSealed-buf sec m (m.buf ++ p) s))

cleaned-append :
    (before : List Text) (sec : Text) (after : List Text)
    → sec ≢ []
    → cleaned (before ++ sec ∷ after) ≡ cleaned before ++ sec ∷ cleaned after
unfolding cleaned
cleaned-append [] [] after full = absurd (full refl)
cleaned-append [] (b ∷ sec) after full = refl
cleaned-append ([] ∷ before) sec after full = cleaned-append before sec after full
cleaned-append ((b ∷ old) ∷ before) sec after full =
    ap (λ l. (b ∷ old) ∷ l) (cleaned-append before sec after full)

-- Whatever the sink accepts and refuses, and however the log is cut into chunks, no write that the
-- sink accepted holds a secret that the writer was given, if that secret has a byte and no
-- asterisk.
pub write_chunks-sealed :
    (sink : Sink) (before : List Text) (sec : Text) (after chunks : List Text)
    → star_free sec ≡ true
    → sec ≢ []
    → let m = new_writer (before ++ sec ∷ after) in
      All (λ l. contains sec l ≡ false) (flush sink (write_chunks sink m chunks)).0.written
write_chunks-sealed sink before sec after chunks free full =
    let m = new_writer (before ++ sec ∷ after) in
    let start : IsSealed sec m =
      unfold new_writer in
      record {
        before = cleaned before;
        after = cleaned after;
        held = cleaned-append before sec after full;
        clean = tt;
      } in
    (flush-IsSealed sink sec free full (write_chunks sink m chunks)
      (write_chunks-IsSealed sink sec free full chunks m start)).clean
