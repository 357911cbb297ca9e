-- ===== src/Mask/Redacts.antt =====
-- What `redact` promises: no secret is left in its result.
use pici.Base.{
  ℕ, zero, suc, ◌-◌, ◌≡◌, refl, ◌≢◌, Bool, true, false, not, List, [], ◌∷◌, ◌++◌, arith, ◌==◌,
  length, all, Text, has_prefix, contains,
}
use pici.Mask.{replace_from, replace_all, redact}

-- A text without an asterisk.
abbrev pub star_free : Text → Bool
star_free u = all (λ c. not (c == b'*')) u

has_prefix-replace_from :
    (old u s : Text)
    → star_free u ≡ true
    → has_prefix u (replace_from old 0 s) ≡ true
    → has_prefix u s ≡ true
unfolding has_prefix replace_from
has_prefix-replace_from old [] s free h = refl
has_prefix-replace_from old (b ∷ u) [] free h = h
has_prefix-replace_from old (b ∷ u) (c ∷ s) free h = ground (arith, has_prefix-replace_from old u s)

-- A part without asterisks that is in the result was there before.
contains-replace_from :
    (old : Text) (u : Text) (skip : ℕ) (s : Text)
    → star_free u ≡ true
    → u ≢ []
    → contains u (replace_from old skip s) ≡ true
    → contains u s ≡ true
unfolding contains replace_from
contains-replace_from old [] skip s free full h = absurd (full refl)
contains-replace_from old (b ∷ u) zero [] free full h = h
contains-replace_from old (b ∷ u) (suc skip) [] free full h = h
contains-replace_from old (b ∷ u) (suc skip) (c ∷ s) free full h =
    ground (arith, contains-replace_from old (b ∷ u) skip s)
contains-replace_from old (b ∷ u) zero (c ∷ s) free full h = ground (
  arith,
  contains-replace_from old (b ∷ u) (length old - 1) s,
  contains-replace_from old (b ∷ u) 0 s,
  has_prefix-replace_from old u s,
)

-- What is replaced is gone.
replace_from-removes :
    (b : ℕ) (old : Text) (skip : ℕ) (s : Text)
    → star_free (b ∷ old) ≡ true
    → contains (b ∷ old) (replace_from (b ∷ old) skip s) ≡ false
unfolding contains replace_from
replace_from-removes b old zero [] free = refl
replace_from-removes b old (suc skip) [] free = refl
replace_from-removes b old (suc skip) (c ∷ s) free = replace_from-removes b old skip s free
replace_from-removes b old zero (c ∷ s) free = ground (
  arith,
  replace_from-removes b old (length old) s,
  replace_from-removes b old 0 s,
  has_prefix-replace_from (b ∷ old) old s,
)

contains-redact :
    (b : ℕ) (u s : Text) (secrets : List Text)
    → star_free (b ∷ u) ≡ true
    → contains (b ∷ u) s ≡ false
    → contains (b ∷ u) (redact s secrets) ≡ false
unfolding redact replace_all
contains-redact b u s [] free h = h
contains-redact b u s ([] ∷ secrets) free h = contains-redact b u s secrets free h
contains-redact b u s ((d ∷ old) ∷ secrets) free h =
    contains-redact b u (replace_from (d ∷ old) 0 s) secrets free
      (ground (arith, contains-replace_from (d ∷ old) (b ∷ u) 0 s))

-- A secret that has a byte and no asterisk does not stand in the result of `redact`, whatever the
-- other secrets of the list are and wherever it stands in the list.
pub redact-removes :
    (before : List Text) (s sec : Text) (after : List Text)
    → star_free sec ≡ true
    → sec ≢ []
    → contains sec (redact s (before ++ sec ∷ after)) ≡ false
unfolding redact replace_all
redact-removes before s [] after free full = absurd (full refl)
redact-removes [] s (b ∷ sec) after free full =
    contains-redact b sec (replace_from (b ∷ sec) 0 s) after free
      (replace_from-removes b sec 0 s free)
redact-removes ([] ∷ before) s (b ∷ sec) after free full =
    redact-removes before s (b ∷ sec) after free full
redact-removes ((d ∷ old) ∷ before) s (b ∷ sec) after free full =
    redact-removes before (replace_from (d ∷ old) 0 s) (b ∷ sec) after free full
