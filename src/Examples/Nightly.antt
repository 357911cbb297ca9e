-- ===== src/Examples/Nightly.antt =====
-- A project that drops its schedule.
use pici.Base.{
  ℕ, ◌+◌, String, ◌≡◌, refl, true, false, Option, none, some, List, [], ◌∷◌, Text, codes,
}
use pici.Config.{Config, empty_step}
use pici.Config.Parse.{Fields, Parsed, ok, parse}
use pici.Config.Triggers.{effective_schedule}
use pici.Schedules.{Schedule, CronParser, delete_row, sqlite, DirEntry, sync_project_schedules}
use pici.Schedules.Refines.{view, asked_of}

abbrev nightly : Schedule
nightly = record { project_id = "p"; workflow = "ci"; cron_expr = "0 3 * * *"; next_run_at = 100 }

-- The workflow no longer asks for a schedule.
abbrev config : Config
config = record {
  schema = "";
  name = "ci";
  image = "golang";
  env = [];
  on = none;
  paths = [];
  paths_ignore = [];
  cache = [];
  concurrency = "";
  steps = record empty_step { name = "build"; run = "make" } ∷ [];
}

abbrev decode_root : Text → Option Fields
decode_root content = some Fields.end

abbrev decode : Text → Parsed Config
decode content = ok config

abbrev parser : CronParser
parser expr = some (λ from. from + 50)

abbrev clock : String → ℕ
clock name = 150

abbrev entries : List DirEntry
entries =
    record { name = "ci"; is_dir = true; content = some (codes "steps") }
    ∷ record { name = "README"; is_dir = false; content = none }
    ∷ []

-- What the entries ask for.
abbrev asked : List (String × Option String)
asked = asked_of decode_root decode entries

-- The schedule is gone.
abbrev synced : List Schedule
synced =
    (sync_project_schedules sqlite parser clock decode_root decode (nightly ∷ []) "p"
      (some entries)).0

nightly_dropped : view synced "p" "ci" ≡ none
unfolding sync_project_schedules delete_row parse effective_schedule
nightly_dropped = refl
