-- ===== src/Config.antt =====
-- internal/ci/config.go: the workflow file ci.yml.
pub mod Parse
pub mod Triggers
pub mod Accepts
pub mod Decides
use pici.Base.{
  ℕ, zero, suc, ◌+◌, ◌-◌, ◌*◌, ◌≤◌, ◌<◌, String, ◌≡◌, refl, sym, ap, ◌∙◌, ◌≢◌, ◌↔◌, ◌⊎◌, inl, inr,
  Bool, true, false, not, ◌&&◌, ◌||◌, Option, none, some, List, [], ◌∷◌, ◌++◌, map, arith, eq_iff,
  ltb, leb, ◌==◌, str_eq, if◌then◌else◌, ==_iff, Bool-cases, Option-cases, length, get_elem?, any,
  all, drop, take, All, length-append, Text, codes, has_prefix, contains, ℤ, pos, negsuc, decrement,
  increment, is_zero, is_negative, is_positive, Dict, get, get_or, put, get_or-put, get-put, count,
  count-append, length-le_of_count, count-eq_of_length,
}

-- An optional filter list that is empty counts as absent.
pub record RefFilter : Type 0 where
  pub branches : List String
  pub tags : List String

pub record PullRequestConfig : Type 0 where
  pub branches : List String

pub record On : Type 0 where
  pub push : Option RefFilter
  pub pull_request : Option PullRequestConfig
  pub manual : Option RefFilter
  pub schedule : String

-- A duration is in nanoseconds, as time.Duration is.
pub record Step : Type 0 where
  pub name : String
  pub script : String
  pub run : String
  pub timeout : ℤ
  pub depends_on : List String
  pub env : Dict String
  pub retry : ℤ
  pub artifacts : List String
  pub docker : Bool

pub record Config : Type 0 where
  pub schema : String
  pub name : String
  pub image : String
  pub env : Dict String
  pub on : Option On
  pub paths : List String
  pub paths_ignore : List String
  pub cache : List String
  pub concurrency : String
  pub steps : List Step

-- The zero values of the structs.
abbrev pub empty_on : On
empty_on = record { push = none; pull_request = none; manual = none; schedule = "" }

abbrev pub empty_step : Step
empty_step = record {
  name = "";
  script = "";
  run = "";
  timeout = pos 0;
  depends_on = [];
  env = [];
  retry = pos 0;
  artifacts = [];
  docker = false;
}

abbrev pub step_names : List Step → List String
step_names steps = map (λ s. s.name) steps
