-- ===== src/Executor.antt =====
-- a2a/a2a-service/host/executor.py: `PaywallExecutor`. The request's context and the new task are
-- the A2A library's.
pub mod Laws
use cronos_stream.Prelude.{
  String, Bool, true, false, ◌&&◌, ◌||◌, Option, none, some, List, [], ◌∷◌, ◌==◌, string_has_eq,
  if◌then◌else◌, starts_with,
}
use cronos_stream.Python.{
  Value, text, object, truthy, or_value, is_dict, strip, Outcome, ok, raised, app, exception,
  interrupt, Action, pure, from_outcome, bind_outcome, ◌>>=◌, ◌>>◌,
}
use cronos_stream.World.{World}
use cronos_stream.Events.{Task, task_created, Run, Queue, enqueue_event}
use cronos_stream.Planner.{OpenAiClient, new_client}
use cronos_stream.Pipeline.{Parts, run}
use cronos_stream.Pipeline.Wired.{paywall_parts}

-- What a request brings: the user's text (empty if there is none), the `data` of each part of its
-- message (`null` where a part has none), the task that it goes on with, and what `new_task` gives.
pub record Context : Type 0 where
  pub user_input : String
  pub parts : List Value
  pub current_task : Option Task
  pub new_task : Outcome Task
  pub timestamp : String

-- `PaywallExecutor()`: the two parts are made here, and the client's key has to be set.
unfoldable pub new_executor : World → Outcome Parts
new_executor w = bind_outcome (new_client w none) λ client. ok (paywall_parts w client)

-- `raw.strip().startswith(("{", "["))`
unfoldable pub looks_like_json : String → Bool
looks_like_json raw = starts_with (strip raw) "{" || starts_with (strip raw) "["

-- `except json.JSONDecodeError: payload = {}`
unfoldable pub or_empty : Outcome Value → Outcome Value
or_empty (ok v) = ok v
or_empty (raised (exception name)) =
    if name == "JSONDecodeError" then ok (object []) else raised (exception name)
or_empty (raised e) = raised e

-- The first part that is a dict with entries, or the payload as it was.
unfoldable pub first_data : Value → List Value → Value
first_data payload [] = payload
first_data payload (v ∷ parts) =
    let rest = first_data payload parts in if is_dict v && truthy v then v else rest

abbrev pub default_payload : Value
default_payload = object (("query", text "discover and fetch paywalled resource") ∷ [])

-- The three sources of the payload, in their order.
unfoldable pub payload_of : World → Context → Outcome Value
payload_of w context =
    bind_outcome
      (if looks_like_json context.user_input
        then or_empty (w.json_loads context.user_input)
        else ok (object []))
      λ read.
        ok (or_value (if truthy read then read else first_data read context.parts) default_payload)

-- `context.current_task or new_task(context.message)`
unfoldable pub task_of : Context → Outcome Task
task_of context = elim (context.current_task) [ none ↦ context.new_task | some task ↦ ok task ]

unfoldable pub execute : World → Parts → Queue → Context → Action Run (Unit {0})
execute w parts accept context = do
  payload ← from_outcome (payload_of w context)
  task ← from_outcome (task_of context)
  enqueue_event accept (task_created task "paywall-agent" context.timestamp)
  run accept parts task payload

-- `cancel` returns at once.
unfoldable pub cancel_execution : Context → Action Run (Unit {0})
cancel_execution context = pure tt
