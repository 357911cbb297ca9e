-- ===== src/Config/Parse.antt =====
-- internal/ci/config.go: decoding and validating ci.yml.
use pici.Base.{
  ℕ, ◌+◌, String, Bool, true, false, ◌&&◌, ◌||◌, Option, none, some, List, [], ◌∷◌, str_eq,
  if◌then◌else◌, Text, is_negative,
}
use pici.Config.{RefFilter, PullRequestConfig, On, Step, Config, empty_on}

-- What the YAML library makes of a document that is read into `any`. A mapping lists its keys in
-- the order in which a Go map is walked, which is any order.
mutual
  pub data Value : Type 0 where
    null : Value
    str : String → Value
    seq : Values → Value
    mapping : Fields → Value
    other : Value

  pub data Values : Type 0 where
    nil : Values
    cons : Value → Values → Values

  pub data Fields : Type 0 where
    end : Fields
    field : String → Value → Fields → Fields

pub data ParseError : Type 0 where
  yaml_error not_an_event not_an_on manual_shorthand bad_schedule bad_mapping bad_strings :
      ParseError
  tags_of_pull_request no_steps : ParseError
  unknown_event unknown_key removed_key no_command negative_retry : String → ParseError
  missing_name : ℕ → ParseError

pub data Parsed (A : Type 0) : Type 0 where
  ok : A → Parsed A
  err : ParseError → Parsed A

infixl 5 ◌>>=◌
abbrev pub ◌>>=◌ : {A B : Type 0} → Parsed A → (A → Parsed B) → Parsed B
ok a >>= f = f a
err e >>= f = err e

-- toStrings
unfoldable pub all_strings : Values → Parsed (List String)
all_strings nil = ok []
all_strings (cons (str s) vs) = do rest ← all_strings vs; ok (s ∷ rest)
all_strings (cons null vs) = err bad_strings
all_strings (cons (seq _) vs) = err bad_strings
all_strings (cons (mapping _) vs) = err bad_strings
all_strings (cons other vs) = err bad_strings

unfoldable pub to_strings : Value → Parsed (List String)
unfolding all_strings
to_strings null = ok []
to_strings (seq vs) = all_strings vs
to_strings _ = err bad_strings

-- parseRefFilter: the loop over the mapping, and the function.
unfoldable pub ref_filter_fields : RefFilter → Fields → Parsed RefFilter
unfolding to_strings
ref_filter_fields cfg end = ok cfg
ref_filter_fields cfg (field k v rest) =
    if str_eq k "branches"
    then (do list ← to_strings v; ref_filter_fields (record cfg { branches = list }) rest)
    else if str_eq k "tags"
    then (do list ← to_strings v; ref_filter_fields (record cfg { tags = list }) rest)
    else err (unknown_key k)

unfoldable pub parse_ref_filter : Value → Parsed RefFilter
unfolding ref_filter_fields
parse_ref_filter null = ok (record { branches = []; tags = [] })
parse_ref_filter (mapping m) = ref_filter_fields (record { branches = []; tags = [] }) m
parse_ref_filter _ = err bad_mapping

-- parsePullRequest
unfoldable pub pull_request_fields : PullRequestConfig → Fields → Parsed PullRequestConfig
unfolding to_strings
pull_request_fields cfg end = ok cfg
pull_request_fields cfg (field k v rest) =
    if str_eq k "branches"
    then (do list ← to_strings v; pull_request_fields (record { branches = list }) rest)
    else if str_eq k "tags"
    then err tags_of_pull_request
    else err (unknown_key k)

unfoldable pub parse_pull_request : Value → Parsed PullRequestConfig
unfolding pull_request_fields
parse_pull_request null = ok (record { branches = [] })
parse_pull_request (mapping m) = pull_request_fields (record { branches = [] }) m
parse_pull_request _ = err bad_mapping

-- The `schedule` case of setEvent.
unfoldable pub schedule_text : Value → Parsed String
schedule_text (str s) = if str_eq s "" then err bad_schedule else ok s
schedule_text _ = err bad_schedule

-- setEvent
unfoldable pub set_event : On → String → Value → Bool → Parsed On
set_event o name val shorthand =
    if str_eq name "push"
    then (do cfg ← parse_ref_filter val; ok (record o { push = some cfg }))
    else if str_eq name "manual"
    then (if shorthand
        then err manual_shorthand
        else (do cfg ← parse_ref_filter val; ok (record o { manual = some cfg })))
    else if str_eq name "pull_request"
    then (do cfg ← parse_pull_request val; ok (record o { pull_request = some cfg }))
    else if str_eq name "schedule"
    then (do s ← schedule_text val; ok (record o { schedule = s }))
    else err (unknown_event name)

unfoldable pub set_events : On → Fields → Parsed On
unfolding set_event
set_events o end = ok o
set_events o (field name val rest) = do o' ← set_event o name val false; set_events o' rest

unfoldable pub set_names : On → Values → Parsed On
unfolding set_event
set_names o nil = ok o
set_names o (cons (str name) rest) = do o' ← set_event o name null true; set_names o' rest
set_names o (cons null rest) = err not_an_event
set_names o (cons (seq _) rest) = err not_an_event
set_names o (cons (mapping _) rest) = err not_an_event
set_names o (cons other rest) = err not_an_event

-- On.UnmarshalYAML
unfoldable pub unmarshal_on : Value → Parsed On
unfolding set_event set_events set_names
unmarshal_on null = ok empty_on
unmarshal_on (str name) = set_event empty_on name null true
unmarshal_on (seq names) = set_names empty_on names
unmarshal_on (mapping events) = set_events empty_on events
unmarshal_on other = err not_an_on

-- root[k] of the keys that moved below `on:`.
unfoldable pub has_field : Fields → String → Bool
has_field end k = false
has_field (field j v rest) k = str_eq j k || has_field rest k

abbrev pub removed_root_keys : List String
removed_root_keys = "schedule" ∷ "tags" ∷ "branches" ∷ "triggers" ∷ []

unfoldable pub check_root : List String → Option Fields → Parsed (Unit {0})
unfolding has_field
check_root keys none = ok tt
check_root [] (some root) = ok tt
check_root (k ∷ keys) (some root) =
    let rest = check_root keys (some root) in if has_field root k then err (removed_key k) else rest

-- The loop over `cfg.Steps`, from index `i`.
unfoldable pub check_steps : ℕ → List Step → Parsed (Unit {0})
check_steps i [] = ok tt
check_steps i (s ∷ steps) =
    let rest = check_steps (i + 1) steps in
    if str_eq s.name ""
    then err (missing_name i)
    else if str_eq s.script "" && str_eq s.run ""
    then err (no_command s.name)
    else if is_negative s.retry
    then err (negative_retry s.name)
    else rest

unfoldable pub check_config : Config → Parsed Config
unfolding check_steps
check_config cfg = elim cfg.steps [
  | [] ↦ err no_steps
  | s ∷ steps ↦ do _ ← check_steps 0 (s ∷ steps); ok cfg
]

-- The YAML library reads a document into a map, or fails, and strictly into a Config, which calls
-- UnmarshalYAML above for the key `on`.
module _ (unmarshal_root : Text → Option Fields) (unmarshal_config : Text → Parsed Config) where
  unfoldable pub parse : Text → Parsed Config
  unfolding check_root check_config
  parse content = do
    _ ← check_root removed_root_keys (unmarshal_root content)
    cfg ← unmarshal_config content
    check_config cfg
