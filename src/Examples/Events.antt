-- ===== src/Examples/Events.antt =====
-- Workflow files, webhooks and the attempts of a step.
use pici.Base.{
  ◌+◌, ◌*◌, String, ◌≡◌, refl, ◌↔◌, inr, Bool, true, false, ◌||◌, Option, none, some, List, [], ◌∷◌,
  ◌++◌, ◌==◌, str_eq, if◌then◌else◌, Text, codes, pos, get,
}
use pici.Records.{Provider, AuthType, Project}
use pici.Config.{Step, Config, On, empty_on, empty_step}
use pici.Config.Parse.{
  Value, null, str, seq, mapping, nil, cons, Fields, end, field, Parsed, ok, set_events, parse,
  parse_ref_filter, schedule_text, check_root, check_config, check_steps,
}
use pici.Config.Triggers.{matches_push}
use pici.Config.Accepts.{IsAccepted, parse-eq-ok}
use pici.Config.Decides.{set_events_swap}
use pici.Store.{Row, Db, create_execution}
use pici.Runner.{enqueue_git}
use pici.Runner.First.{IsOpen}
use pici.StepRun.{StepExec, World, Lib}
use pici.Webhooks.{
  Env, push, PullRequestEvent, trigger_each, runs_workflow, github, pull_request_event,
}
use pici.Webhooks.Selects.{Selects, Queues, trigger_each-selected, github-unchanged}
use pici.Webhooks.Wants.{Runs}

-- A pattern matcher that knows exact names and "*".
abbrev glob : String → String → Option Bool
glob p s = some (str_eq p "*" || str_eq p s)

abbrev lint : Step
lint = record empty_step { name = "lint"; run = "go vet"; retry = pos 2 }

abbrev implicit : Config
implicit = record {
  schema = "";
  name = "ci";
  image = "";
  env = [];
  on = none;
  paths = [];
  paths_ignore = "docs" ∷ [];
  cache = [];
  concurrency = "";
  steps = lint ∷ [];
}

abbrev main_only : On
main_only = record empty_on {
  push = some (record { branches = "main" ∷ []; tags = [] });
  schedule = "0 3 * * *";
}

abbrev main_branches : Value
main_branches = mapping (field "branches" (seq (cons (str "main") nil)) end)

two_events :
    set_events empty_on (field "push" main_branches (field "schedule" (str "0 3 * * *") end))
    ≡ ok main_only
unfolding set_events parse_ref_filter schedule_text
two_events = refl

set_events_swap_example :
    set_events empty_on (field "schedule" (str "0 3 * * *") (field "push" main_branches end))
    ≡ ok main_only
set_events_swap_example =
    set_events_swap empty_on main_only "push" "schedule" main_branches (str "0 3 * * *") end refl
      two_events

abbrev decode_root : Text → Option Fields
decode_root content = some (field "steps" null end)

abbrev decode : Text → Parsed Config
decode content = ok implicit

parse-eq-ok_example :
    (parse decode_root decode (codes "steps") ≡ ok implicit)
    ↔ IsAccepted (decode_root (codes "steps")) (decode (codes "steps")) implicit
parse-eq-ok_example = parse-eq-ok decode_root decode (codes "steps") implicit

-- The second attempt succeeds.
abbrev world : World
world = record {
  engine = λ options attempt. if attempt == 2 then (pos 0, none) else (pos 1, none);
  canceled = λ attempt. false;
  stopped = λ attempt. false;
  started = λ attempt. attempt * 10;
  finished = λ attempt. attempt * 10 + 5;
}

abbrev lib : Lib
lib = record {
  join = λ parts. "path";
  base = λ path. path;
  ext = λ path. "";
  trim_space = λ s. s;
  fields = λ s. s ∷ [];
  to_lower = λ s. s;
  first_line = λ path. inr "";
  exit_text = λ code. "exit code";
}

abbrev exec : StepExec
exec = record {
  image = "golang";
  repo_dir = "repo";
  wf_dir = "repo/.ci/ci";
  binds = [];
  env = "CI=true" ∷ [];
  docker_host = "";
  secrets = [];
  mount_path = "/pici/repo";
  default_timeout = pos 600;
}

abbrev env : Env
env = record {
  glob = glob;
  unmarshal_root = decode_root;
  unmarshal_config = decode;
  discover = λ ref. some ("ci" ∷ []);
  read_file = λ wf. some (codes wf);
  default_branch = "main";
  list_files = λ number. none;
  itoa = λ n. "1";
  now = 50;
}

abbrev project : Project
project = record {
  id = "p";
  name = "demo";
  repo_url = "https://example.com/demo";
  provider = Provider.github;
  auth_type = AuthType.none;
  auth_user = "";
  auth_secret = "";
  webhook_secret = "s3cret";
  default_branch = "main";
}

abbrev empty_db : Db
empty_db = record { seqs = ("p", 0) ∷ []; rows = [] }

empty_db-IsOpen : IsOpen "p" empty_db
unfolding get
empty_db-IsOpen = record { known = refl; counted = refl }

trigger_each-selected_example :
    let r =
      trigger_each env empty_db project push "main" "abc" "" ("a.go" ∷ []) false ("ci" ∷ []) in
    Selects (Runs env push "main" "" ("a.go" ∷ []) false) ("ci" ∷ []) r.1
    × ((new : List Row) × (r.0.rows ≡ empty_db.rows ++ new)
        × Queues project "main" "abc" 50 r.1 new)
trigger_each-selected_example =
    trigger_each-selected env ("ci" ∷ []) empty_db project push "main" "abc" "" ("a.go" ∷ []) false
      empty_db-IsOpen

-- The push runs the workflow.
abbrev after_push : Db × List String
after_push = trigger_each env empty_db project push "main" "abc" "" ("a.go" ∷ []) false ("ci" ∷ [])

push_runs : after_push.1 ≡ "ci" ∷ []
unfolding trigger_each runs_workflow parse check_root check_config check_steps matches_push
    enqueue_git create_execution get
push_runs = refl

abbrev from_a_fork : PullRequestEvent
from_a_fork = record {
  action = "opened";
  number = 4;
  head_repo = "mallory/demo";
  head_sha = "abc";
  base_repo = "demo/demo";
  base_ref = "main";
}

github-unchanged_example :
    (github env empty_db project true (pull_request_event from_a_fork)).0 ≡ empty_db
github-unchanged_example =
    github-unchanged env empty_db project true (pull_request_event from_a_fork) refl
