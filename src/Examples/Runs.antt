-- ===== src/Examples/Runs.antt =====
-- A run of one step, in the sandbox.
use pici.Base.{
  String, ◌≡◌, pos, refl, inr, true, false, none, some, List, [], ◌∷◌, str_eq, All, codes, get,
  get_or, put,
}
use pici.Records.{Status, Provider, AuthType, Project, Execution, is_success}
use pici.Config.{Step, Config, empty_step}
use pici.Config.Parse.{Fields, ok}
use pici.Steps.{
  order_steps, order_from, add_steps, add_dependencies, initial_queue, drain, relax, checked,
  is_known,
}
use pici.Steps
use pici.Executor.{
  Report, Outcome, Event, start, is_carried, is_quiet, step, scan_from, turn_from, store_result,
  carry_over, deps_by_name, children, ready_children,
}
use pici.Executor
use pici.Executor.Success.{status_in, quiet_all_success}
use pici.Runner.{empty_execution}
use pici.Store.{Db, numbered, inserted}
use pici.Run.{
  Outside, RunState, carried, execute_steps, finish, workflow_needs_sandbox, execute, run,
}
use pici.Run.Success.{is_successful, execute-success}

abbrev build : Step
build = record empty_step { name = "build"; run = "make"; docker = true }

abbrev config : Config
config = record {
  schema = "";
  name = "ci";
  image = "golang";
  env = [];
  on = none;
  paths = [];
  paths_ignore = [];
  cache = [];
  concurrency = "deploy";
  steps = build ∷ [];
}

abbrev project : Project
project = record {
  id = "p";
  name = "demo";
  repo_url = "https://example.com/demo";
  provider = Provider.generic;
  auth_type = AuthType.none;
  auth_user = "";
  auth_secret = "";
  webhook_secret = "s3cret";
  default_branch = "main";
}

abbrev report : Report
report = record {
  started_at = some 3;
  finished_at = some 5;
  timeout = pos 600;
  exit_code = pos 0;
  error = "";
  env = [];
}

abbrev turn_once : Event
turn_once = Event.turn 0 (Outcome.succeeded report)

-- The launching loop, then the goroutine of the step.
abbrev schedule : List Event
schedule =
    Event.scan ∷ turn_once ∷ turn_once ∷ turn_once ∷ turn_once ∷ turn_once ∷ turn_once ∷ turn_once
    ∷ turn_once ∷ []

abbrev outside : Outside
outside = record {
  project = inr project;
  log_error = none;
  has_engine = true;
  repo_error = λ workspace. none;
  clone = λ ref. none;
  unpack = λ snapshot. none;
  head_sha = "abc";
  read_config = λ workflow. inr (codes "steps");
  unmarshal_root = λ content. some Fields.end;
  unmarshal_config = λ content. ok config;
  is_tag = λ ref. false;
  glob = λ p s. some (str_eq p s);
  has_registry = true;
  ensures_registry = false;
  build = none;
  push = none;
  create_sandbox = none;
  dial = none;
  pull = none;
  events = schedule;
  stopped = false;
  parse_text = λ e. "parse ci.yml";
  order_text = λ e. "order";
  manual_text = λ workflow ref. "not allowed";
  fail_text = λ step error. error;
  now = 7;
}

abbrev claimed_run : Execution
claimed_run =
    numbered (record empty_execution { project_id = "p"; workflow = "ci"; status = Status.running })
      1

abbrev table : Db
table = record { seqs = ("p", 1) ∷ []; rows = inserted claimed_run ∷ [] }

abbrev order : List String
order = "build" ∷ []

ordered : order_steps (build ∷ []) ≡ Steps.ok order
unfolding order_steps order_from add_steps add_dependencies initial_queue drain relax checked get_or
    put
ordered = refl

schedule_quiet :
    is_quiet (Executor.run (build ∷ []) (is_carried []) (start (build ∷ []) order []) schedule)
    ≡ true
unfolding Executor.run step start scan_from turn_from store_result carry_over deps_by_name children
    ready_children get get_or is_known put
schedule_quiet = refl

schedule_calm :
    Executor.Promises.is_over
      (Executor.run (build ∷ []) (is_carried []) (start (build ∷ []) order []) schedule)
    ≡ false
unfolding Executor.run step start scan_from turn_from store_result carry_over deps_by_name children
    ready_children get get_or is_known put
schedule_calm = refl

quiet_all_success_example :
    is_success (
      status_in
        (Executor.run (build ∷ []) (is_carried []) (start (build ∷ []) order []) schedule).results
        "build")
    ≡ true
unfolding is_known
quiet_all_success_example =
    quiet_all_success (build ∷ []) order [] schedule refl ordered refl schedule_quiet schedule_calm
      "build" refl

abbrev ready : RunState
ready = record { db = table; exec = claimed_run; effects = [] }

ready_quiet :
    is_quiet (
      Executor.run
        (build ∷ [])
        (is_carried (carried ready))
        (start (build ∷ []) order (carried ready))
        schedule)
    ≡ true
unfolding numbered carried Executor.run step start scan_from turn_from store_result carry_over
    deps_by_name children ready_children get get_or is_known put
ready_quiet = refl

ready_success : is_successful (execute outside config (carried ready) ready).exec.status ≡ true
unfolding numbered carried execute finish workflow_needs_sandbox execute_steps Executor.run step
    start scan_from turn_from store_result carry_over deps_by_name children order_steps order_from
    add_steps add_dependencies initial_queue drain relax checked ready_children get get_or is_known
    put
ready_success = refl

execute-success_example :
    All
      (λ res. is_success res.status ≡ true)
      (execute outside config (carried ready) ready).exec.steps
execute-success_example =
    execute-success outside config ready ready order refl ordered ready_quiet ready_success
