-- ===== src/Workspace.antt =====
-- internal/workspace/workspace.go: the names of the log files.
pub mod Names
use pici.Base.{
  ℕ, zero, suc, ◌+◌, ◌-◌, ◌*◌, ◌≤◌, ◌<◌, String, ◌≡◌, refl, sym, ap, ◌∙◌, ◌≢◌, ◌↔◌, ◌⊎◌, inl, inr,
  Bool, true, false, not, ◌&&◌, ◌||◌, Option, none, some, List, [], ◌∷◌, ◌++◌, map, arith, eq_iff,
  ltb, leb, ◌==◌, str_eq, if◌then◌else◌, ==_iff, Bool-cases, Option-cases, length, get_elem?, any,
  all, drop, take, All, length-append, Text, codes, has_prefix, contains, ℤ, pos, negsuc, decrement,
  increment, is_zero, is_negative, is_positive, Dict, get, get_or, put, get_or-put, get-put, count,
  count-append, length-le_of_count, count-eq_of_length, select, select_all, update, delete,
  order_by, str_leb,
}
use Prim.Native.Nat.{◌%◌, ◌/◌}

abbrev pub is_between : (low high c : ℕ) → Bool
is_between low high c = leb low c && leb c high

-- Letters, digits, '-' and '_'.
abbrev pub is_safe : ℕ → Bool
is_safe c =
    is_between 97 122 c || is_between 65 90 c || is_between 48 57 c || (c == 45) || (c == 95)

-- Source, of the runes of a step's name
unfoldable pub source : List ℕ → Text
source [] = []
source (c ∷ step) = (if is_safe c then c else 95) ∷ source step

-- The decimal digits of a number, by recursion on fuel that the number itself is enough of.
unfoldable pub decimal_from : (fuel n : ℕ) → Text
decimal_from zero n = (48 + n % 10) ∷ []
decimal_from (suc fuel) n =
    let rest = decimal_from fuel (n / 10) in
    if ltb n 10 then (48 + n) ∷ [] else rest ++ (48 + n % 10) ∷ []

-- "%03d"
unfoldable pub padded : ℕ → Text
unfolding decimal_from
padded n =
    let digits = decimal_from n n in
    if ltb n 10 then 48 ∷ 48 ∷ digits else if ltb n 100 then 48 ∷ digits else digits

-- The name of the file that StepLog names: "%03d_%s.log"
unfoldable pub step_log_name : (index : ℕ) → (step : List ℕ) → Text
unfolding padded source
step_log_name index step = (padded index ++ 95 ∷ source step) ++ codes ".log"

abbrev pub text_eq : Text → Text → Bool
text_eq [] [] = true
text_eq [] (d ∷ u) = false
text_eq (c ∷ t) [] = false
text_eq (c ∷ t) (d ∷ u) = (c == d) && text_eq t u

-- strings.TrimSuffix, the suffix first
unfoldable pub trim_suffix : Text → Text → Text
trim_suffix suffix [] = []
trim_suffix suffix (c ∷ s) =
    let rest = trim_suffix suffix s in if text_eq (c ∷ s) suffix then [] else c ∷ rest

-- What is behind the first '_'.
unfoldable pub behind_underscore : Text → Option Text
behind_underscore [] = none
behind_underscore (c ∷ s) = let rest = behind_underscore s in if c == 95 then some s else rest

-- LogSource, of the last name of the path
unfoldable pub log_source : Text → Text
unfolding trim_suffix behind_underscore
log_source base =
    if text_eq base (codes "setup.log")
    then codes "setup"
    else (let name = trim_suffix (codes ".log") base in
        elim (behind_underscore name) [ none ↦ name | some rest ↦ rest ])
