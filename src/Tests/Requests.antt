-- ===== src/Tests/Requests.antt =====
-- Requests to the executor in the small world.
use cronos_stream.Prelude.{◌≡◌, refl, true, false, some, [], ◌∷◌}
use cronos_stream.Python.{Value, text, object, strip, ok, pure, bool, array, get, index, str_value}
use cronos_stream.Events.{progress, finish, enqueue_event, Task, Run, Queue}
use cronos_stream.Pipeline.{Parts, run, run_body, select, deliver}
use cronos_stream.Pipeline.Wired.{paywall_parts}
use cronos_stream.Pipeline.Delivery.{IsDelivery, run-IsDelivery}
use cronos_stream.Planner.Laws.{Planned, choose_target-Planned}
use cronos_stream.Planner.{choose_target}
use cronos_stream.Service.Discover.{discover_agents}
use cronos_stream.Service.Discover.Laws.{Discovered, discover_agents-Discovered}
use cronos_stream.Pipeline.Laws.{RunEnd, run_ends}
use cronos_stream.Executor.{Context, looks_like_json, or_empty, payload_of, task_of, execute}
use cronos_stream.Executor.Laws.{execute_ends}
use cronos_stream.World.{Trace}
use cronos_stream.Tests.{demo}

abbrev parts : Parts
parts = paywall_parts demo (record { model = "m" })

abbrev accept : Queue
accept events e = ok tt

abbrev task : Task
task = record { id = "t"; context_id = "c" }

abbrev query : Value
query = object (("query", text "q") ∷ [])

abbrev idle : Run
idle = record { trace = []; events = [] }

abbrev context : Context
context = record {
  user_input = "{\"query\": \"q\"}";
  parts = [];
  current_task = some task;
  new_task = ok task;
  timestamp = "2026-01-01T00:00:00+00:00";
}

run_ends_example : RunEnd 0 (run accept parts task query idle)
run_ends_example = run_ends parts task accept query idle (λ past e. refl)

read : payload_of demo context ≡ ok query
unfolding payload_of looks_like_json or_empty strip
read = refl

given : task_of context ≡ ok task
unfolding task_of
given = refl

execute_ends_example : RunEnd 0 (execute demo parts accept context idle)
execute_ends_example = execute_ends demo context parts accept idle (λ past e. refl) read given

abbrev target : Value
target = object (("name", text "shop") ∷ ("baseUrl", text "http://s") ∷ [])

abbrev result : Value
result = object (("ok", bool true) ∷ ("paid", bool false) ∷ ("data", text "content") ∷ [])

-- A service whose calls all succeed.
abbrev shop : Parts
shop = record {
  discover_agents = λ urls. pure (target ∷ []);
  choose_target = λ q agents. pure target;
  apply_choice = λ agents choice. pure target;
  fetch_resource = λ t. pure result;
  format_result = λ r. ok "content";
  repr = λ v. "value";
}

served : (run accept shop task query idle).0 ≡ ok tt
unfolding run run_body select deliver progress finish enqueue_event get index str_value
served = refl

run-IsDelivery_example :
    (target : Value) × (past : Trace) × IsDelivery shop target past
      (run accept shop task query idle).1.events
run-IsDelivery_example = run-IsDelivery shop task accept query idle (λ past e. refl) served

choose_target-Planned_example :
    Planned (choose_target demo (record { model = "m" }) (text "q") [] [])
choose_target-Planned_example = choose_target-Planned demo (record { model = "m" }) (text "q") [] []

discover_agents-Discovered_example :
    Discovered [] (discover_agents demo (array (text "http://s" ∷ [])) [])
discover_agents-Discovered_example =
    discover_agents-Discovered demo (array (text "http://s" ∷ [])) []
