-- ===== src/Workspace/Names.antt =====
-- Log files, by their names.
use pici.Base.{
  ℕ, zero, suc, ◌+◌, ◌≡◌, refl, ap, ◌∙◌, inl, inr, Bool, true, false, not, ◌&&◌, some, List, [],
  ◌∷◌, ◌++◌, arith, ltb, ◌==◌, if◌then◌else◌, Bool-cases, length, all, length-append, Text, codes,
}
use Prim.Native.Nat.{◌%◌, ◌/◌}
use pici.Workspace.{
  is_between, is_safe, source, decimal_from, padded, step_log_name, text_eq, trim_suffix,
  behind_underscore, log_source,
}

abbrev is_digit : ℕ → Bool
is_digit c = is_between 48 57 c

all-append : (p : ℕ → Bool) (s t : Text) → all p (s ++ t) ≡ (all p s && all p t)
all-append p [] t = refl
all-append p (c ∷ s) t = ground (arith, all-append p s t)

last_digit : (n : ℕ) → is_digit (48 + n % 10) ≡ true
last_digit n = ground arith

decimal_from-digits : (fuel n : ℕ) → all is_digit (decimal_from fuel n) ≡ true
unfolding decimal_from
decimal_from-digits zero n = ground (arith, last_digit n)
decimal_from-digits (suc fuel) n = elim (Bool-cases (ltb n 10)) [
  | inl e ↦ rw e (ground arith)
  | inr e ↦ rw e (
      all-append is_digit (decimal_from fuel (n / 10)) ((48 + n % 10) ∷ [])
      ∙ ground (arith, decimal_from-digits fuel (n / 10), last_digit n))
]

padded-digits : (n : ℕ) → all is_digit (padded n) ≡ true
unfolding padded
padded-digits n = ground (arith, decimal_from-digits n n)

text_eq-length : (s t : Text) → text_eq s t ≡ true → length s ≡ length t
text_eq-length [] [] e = refl
text_eq-length [] (d ∷ t) e = cc
text_eq-length (c ∷ s) [] e = cc
text_eq-length (c ∷ s) (d ∷ t) e = ap suc (text_eq-length s t (ground arith))

text_eq_self : (s : Text) → text_eq s s ≡ true
text_eq_self [] = refl
text_eq_self (c ∷ s) = ground (arith, text_eq_self s)

trim_suffix-append : (d : ℕ) (suffix s : Text) → trim_suffix (d ∷ suffix) (s ++ d ∷ suffix) ≡ s
unfolding trim_suffix
trim_suffix-append d suffix [] = rw (text_eq_self (d ∷ suffix)) refl
trim_suffix-append d suffix (c ∷ s) =
    let longer : text_eq (c ∷ (s ++ d ∷ suffix)) (d ∷ suffix) ≡ false =
      elim (Bool-cases (text_eq (c ∷ (s ++ d ∷ suffix)) (d ∷ suffix))) [
        | inl e ↦
            let same = text_eq-length (c ∷ (s ++ d ∷ suffix)) (d ∷ suffix) e in
            ground (arith, same, length-append s (d ∷ suffix))
        | inr e ↦ e
      ] in
    rw longer (ap (λ r. c ∷ r) (trim_suffix-append d suffix s))

behind_underscore-append :
    (s t : Text) → all is_digit s ≡ true → behind_underscore (s ++ 95 ∷ t) ≡ some t
unfolding behind_underscore
behind_underscore-append [] t d = refl
behind_underscore-append (c ∷ s) t d = ground (arith, behind_underscore-append s t)

-- A name that begins with a digit is not "setup.log".
setup_log-not :
    (s t u : Text)
    → all is_digit s ≡ true
    → text_eq ((s ++ 95 ∷ t) ++ u) (codes "setup.log") ≡ false
setup_log-not [] t u d = refl
setup_log-not (c ∷ s) t u d = ground arith

log_source_of :
    (base name rest : Text)
    → text_eq base (codes "setup.log") ≡ false
    → trim_suffix (codes ".log") base ≡ name
    → behind_underscore name ≡ some rest
    → log_source base ≡ rest
unfolding log_source
log_source_of base name rest a b c = rw (a, b, c) refl

safe_self : (c : ℕ) → is_safe c ≡ true → (if is_safe c then c else 95) ≡ c
safe_self c e = rw e refl

source-safe : (step : List ℕ) → all is_safe (source step) ≡ true
unfolding source
source-safe [] = refl
source-safe (c ∷ step) = ground (arith, source-safe step)

source_safe_self : (s : Text) → all is_safe s ≡ true → source s ≡ s
unfolding source
source_safe_self [] h = refl
source_safe_self (c ∷ s) h = λ i. safe_self c (ground arith) i ∷ source_safe_self s (ground arith) i

-- A byte that does not separate directories.
abbrev pub is_plain : ℕ → Bool
is_plain c = not (c == 47)

digits-plain : (s : Text) → all is_digit s ≡ true → all is_plain s ≡ true
digits-plain [] h = refl
digits-plain (c ∷ s) h = ground (arith, digits-plain s)

safe-plain : (s : Text) → all is_safe s ≡ true → all is_plain s ≡ true
safe-plain [] h = refl
safe-plain (c ∷ s) h = ground (arith, safe-plain s)

plain-append :
    (s t : Text) → all is_plain s ≡ true → all is_plain t ≡ true → all is_plain (s ++ t) ≡ true
plain-append s t a b = all-append is_plain s t ∙ ground (arith, a, b)

-- The name of a step's log file holds no '/', so that it is one file of the directory of the logs; the
-- source of the log, read off that name, is the source of the step, which is made of letters, digits,
-- '-' and '_' alone and is a source as it stands.
pub step_log_name-source :
    (index : ℕ) (step : List ℕ)
    → (all is_plain (step_log_name index step) ≡ true)
      × (all is_safe (source step) ≡ true)
      × (log_source (step_log_name index step) ≡ source step)
      × (source (source step) ≡ source step)
unfolding step_log_name
step_log_name-source index step =
    let name = padded index ++ 95 ∷ source step in
    (
      plain-append name (codes ".log")
          (plain-append (padded index) (95 ∷ source step)
            (digits-plain (padded index) (padded-digits index))
            (safe-plain (95 ∷ source step) (ground (arith, source-safe step))))
          refl,
      source-safe step,
      log_source_of (name ++ codes ".log") name (source step)
          (setup_log-not (padded index) (source step) (codes ".log") (padded-digits index))
          (trim_suffix-append 46 (108 ∷ 111 ∷ 103 ∷ []) name)
          (behind_underscore-append (padded index) (source step) (padded-digits index)),
      source_safe_self (source step) (source-safe step),
    )
