-- ===== src/Schedules/Refines.antt =====
-- The table of schedules as a map.
use pici.Base.{
  ℕ, String, Bool, true, false, not, ◌&&◌, Option, none, some, List, [], ◌∷◌, map, str_eq,
  if◌then◌else◌, Text, select,
}
use pici.Config.{Config}
use pici.Config.Parse.{Fields, Parsed, ok, err, parse}
use pici.Schedules.{Schedule, CronParser, is_key, DirEntry, schedule_of}

-- What a table of schedules stands for: a map from a project and a workflow to a cron expression and the
-- time of the next run.
abbrev pub Plan : Type 0
Plan = String → String → Option (String × ℕ)

abbrev pub is_same : (project_id workflow p w : String) → Bool
is_same project_id workflow p w = str_eq project_id p && str_eq workflow w

abbrev pub entry_of : Option Schedule → Option (String × ℕ)
entry_of none = none
entry_of (some s) = some (s.cron_expr, s.next_run_at)

-- What a table says.
abbrev pub view : List Schedule → Plan
view rows p w = entry_of (select (is_key p w) rows)

-- What is planned for an expression: nothing for the empty one.
abbrev pub planned : CronParser → ℕ → String → Option (String × ℕ)
planned parser now expr =
    if str_eq expr ""
    then none
    else elim (parser expr) [ none ↦ none | some sched ↦ some (expr, sched now) ]

-- An entry with an expression that is malformed.
abbrev pub is_malformed : CronParser → String × Option String → Bool
is_malformed parser (name, none) = false
is_malformed parser (name, some expr) =
    not (str_eq expr "") && elim (parser expr) [ none ↦ true | some sched ↦ false ]

-- The entries in front of the first that is malformed.
abbrev pub handled : CronParser → List (String × Option String) → List (String × Option String)
handled parser [] = []
handled parser (a ∷ asked) = if is_malformed parser a then [] else a ∷ handled parser asked

-- What the last entry of the name plans, or else the old plan.
abbrev pub last_plan :
    CronParser
    → (String → ℕ)
    → String
    → Option (String × ℕ)
    → List (String × Option String)
    → Option (String × ℕ)
last_plan parser clock w old [] = old
last_plan parser clock w old ((name, none) ∷ asked) = last_plan parser clock w old asked
last_plan parser clock w old ((name, some expr) ∷ asked) =
    last_plan parser clock w (if str_eq name w then planned parser (clock name) expr else old) asked

abbrev accepted_schedule : Parsed Config → Option String
accepted_schedule (err e) = none
accepted_schedule (ok cfg) = some (elim cfg.on [ none ↦ "" | some on ↦ on.schedule ])

-- The cron expression of an entry that is a directory with a ci.yml that is accepted, empty if it has
-- none.
abbrev pub asks : (Text → Option Fields) → (Text → Parsed Config) → DirEntry → Option String
asks root config e = elim e.content [
  | none ↦ none
  | some content ↦ if e.is_dir then accepted_schedule (parse root config content) else none
]

-- The entries of the directory with what they ask for.
abbrev pub asked_of :
    (Text → Option Fields) → (Text → Parsed Config) → List DirEntry → List (String × Option String)
asked_of root config entries = map (λ e. (e.name, asks root config e)) entries

abbrev read_of :
    (Text → Option Fields) → (Text → Parsed Config) → List DirEntry → List (String × Option String)
read_of root config entries = map (λ e. (e.name, schedule_of root config e)) entries
