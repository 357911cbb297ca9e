-- ===== src/Examples/Workflows.antt =====
-- Workflows of two steps.
use pici.Base.{
  ℕ, ◌≤◌, String, ◌≡◌, refl, ◌≢◌, true, false, List, some, [], ◌∷◌, ◌++◌, arith, str_eq,
  if◌then◌else◌, pos, get, get_or, put, count,
}
use pici.Records.{is_unset}
use pici.Config.{Step, empty_step, step_names}
use pici.Steps.{
  ok, err, unknown_dependency, out_of_fuel, is_known, order_steps, order_from, add_steps,
  add_dependencies, initial_queue, drain, relax, checked,
}
use pici.Steps.Order.Rounds.{IsOrdered}
use pici.Steps.Order.Complete.{IsRanked, order_steps_complete}
use pici.Steps.Order.Sound.{order_steps_sound}
use pici.Steps.Order.Unknown.{lists, order_steps_unknown}
use pici.Steps.Order.Fuel.{order_steps-ne-out_of_fuel}
use pici.Executor.{
  Report, Outcome, Event, run, start, is_carried, status_of, is_quiet, holders, step, scan_from,
  turn_from, store_result, carry_over, deps_by_name, children, ready_children,
}
use pici.Executor.Slots.{holders-le_max}
use pici.Executor.Ends.{quiet_all_set}

abbrev build : Step
build = record empty_step { name = "build"; run = "make" }

abbrev test : Step
test = record empty_step { name = "test"; run = "make test"; depends_on = "build" ∷ [] }

-- The steps stand in the file in the other order.
abbrev workflow : List Step
workflow = test ∷ build ∷ []

abbrev order : List String
order = "build" ∷ "test" ∷ []

abbrev lost : List Step
lost = record empty_step { name = "test"; depends_on = "biuld" ∷ [] } ∷ build ∷ []

abbrev rank : String → ℕ
rank n = if str_eq n "test" then 1 else 0

order_run : order_steps workflow ≡ ok order
unfolding order_steps order_from add_steps add_dependencies initial_queue drain relax checked get_or
    put
order_run = refl

order_steps_sound_example :
    IsOrdered workflow [] order × ((m : String) → count m order ≡ count m (step_names workflow))
order_steps_sound_example = order_steps_sound workflow order refl order_run

workflow-IsRanked : IsRanked rank workflow
workflow-IsRanked = ((omega arith, tt), (tt, tt))

order_steps_unknown_example :
    (name d : String) × (order_steps lost ≡ err (unknown_dependency name d))
    × (is_known lost d ≡ false)
    × (lists lost name d ≡ true)
unfolding is_known
order_steps_unknown_example = order_steps_unknown lost refl

order_steps-ne-out_of_fuel_example : order_steps lost ≢ err out_of_fuel
order_steps-ne-out_of_fuel_example = order_steps-ne-out_of_fuel lost

order_steps_complete_example : (found : List String) × (order_steps workflow ≡ ok found)
unfolding is_known
order_steps_complete_example = order_steps_complete rank workflow refl refl workflow-IsRanked

-- Both rounds of the launching loop, then eight turns of each of the two goroutines.
abbrev turns : ℕ → Outcome → List Event
turns i o =
    Event.turn i o
    ∷ Event.turn i o
    ∷ Event.turn i o
    ∷ Event.turn i o
    ∷ Event.turn i o
    ∷ Event.turn i o
    ∷ Event.turn i o
    ∷ Event.turn i o
    ∷ []

abbrev report : Report
report = record {
  started_at = some 3;
  finished_at = some 5;
  timeout = pos 600;
  exit_code = pos 1;
  error = "exit code 1";
  env = [];
}

abbrev failing : Outcome
failing = Outcome.failed report

abbrev fine : Outcome
fine = Outcome.succeeded (record report { exit_code = pos 0; error = "" })

abbrev schedule : List Event
schedule = Event.scan ∷ Event.scan ∷ turns 0 failing ++ turns 1 fine

schedule_quiet : is_quiet (run workflow (is_carried []) (start workflow order []) schedule) ≡ true
unfolding run step start scan_from turn_from store_result carry_over deps_by_name children
    ready_children get get_or is_known put
schedule_quiet = refl

order_same : (m : String) → count m order ≡ count m (step_names workflow)
order_same m = omega arith

quiet_all_set_example :
    is_unset
      (status_of (run workflow (is_carried []) (start workflow order []) schedule).statuses "test")
    ≡ false
unfolding is_known
quiet_all_set_example =
    quiet_all_set rank workflow order [] schedule refl refl workflow-IsRanked order_same
      schedule_quiet "test" refl

holders-le_max_example :
    holders (run workflow (is_carried []) (start workflow order []) schedule).threads ≤ 8
holders-le_max_example = holders-le_max workflow order [] schedule
