-- ===== src/Events.antt =====
-- a2a/a2a-service/host/lib/a2a/events.py and lib/enums: the events of a task, and the helpers that
-- put them on its queue. The queue and the event types are the A2A library's: `accept` is the
-- queue's answer to an event, behind the events that it took before.
use cronos_stream.Prelude.{String, Bool, true, false, Option, none, some, List, ◌∷◌}
use cronos_stream.Python.{Outcome, ok, raised, exception, raise, Action, ◌>>◌}
use cronos_stream.World.{Trace, Effect}

pub record Task : Type 0 where
  pub id : String
  pub context_id : String

pub data TaskState : Type 0 where
  working completed failed : TaskState

pub data Event : Type 0 where
  artifact_update :
      (append last_chunk : Bool) (context_id task_id : String) (name content : String) → Event
  status_update :
      (state : TaskState) (message : Option String) (final : Bool) (context_id task_id : String)
      → Event
  task_created : Task → (agent_name timestamp : String) → Event

-- A request at work: the calls made, and the events on the queue, the newest first.
pub record Run : Type 0 where
  pub trace : Trace
  pub events : List Event

-- What the queue says to an event.
abbrev pub Queue : Type 0
Queue = List Event → Event → Outcome (Unit {0})

-- A call that knows nothing of the queue.
abbrev pub outside : {A : Type 0} → Effect A → Action Run A
outside m s = let (r, past) = m s.trace in (r, record s { trace = past })

module _ (accept : Queue) where
  unfoldable pub enqueue_event : Event → Action Run (Unit {0})
  enqueue_event e s = elim (accept s.events e) [
    | ok _ ↦ (ok tt, record s { events = e ∷ s.events })
    | raised x ↦ (raised x, s)
  ]

  module _ (task : Task) where
    unfoldable pub clarify : String → Action Run (Unit {0})
    clarify question = do
      enqueue_event
          (artifact_update false true task.context_id task.id "clarification_needed" question)
      enqueue_event (status_update TaskState.working none false task.context_id task.id)

    unfoldable pub progress : String → Action Run (Unit {0})
    progress content =
        enqueue_event (status_update TaskState.working (some content) false task.context_id task.id)

    unfoldable pub finish : String → String → Action Run (Unit {0})
    finish content name = do
      enqueue_event (artifact_update false true task.context_id task.id name content)
      enqueue_event (status_update TaskState.completed none true task.context_id task.id)

    unfoldable pub fail : String → Action Run (Unit {0})
    fail content =
        enqueue_event (status_update TaskState.failed (some content) true task.context_id task.id)

    -- The state `cancelled` that it asks for is not one of the A2A library's, which has `canceled`.
    unfoldable pub cancel : String → Action Run (Unit {0})
    cancel content = raise (exception "AttributeError")
