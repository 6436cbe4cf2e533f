-- ===== src/Executor/Laws.antt =====
-- What a request is given to work on, and how it ends.
use cronos_stream.Prelude.{◌≡◌, true, ◌∷◌, arith}
use cronos_stream.Python.{Value, truthy, ok}
use cronos_stream.World.{World}
use cronos_stream.Events.{Task, task_created, Run, Queue, enqueue_event}
use cronos_stream.Pipeline.{Parts, run}
use cronos_stream.Pipeline.Laws.{IsOpen, RunEnd, run_ends, finals}
use cronos_stream.Executor.{Context, payload_of, task_of, execute}

module _ (w : World) (context : Context) where
  -- Whatever a request brings, the pipeline is given something: a payload is never empty.
  pub payload_of-truthy : {v : Value} → payload_of w context ≡ ok v → truthy v ≡ true
  unfolding payload_of
  payload_of-truthy h = ground arith

  execute-run :
      (parts : Parts) (accept : Queue) (s : Run) {payload : Value} {task : Task}
      → IsOpen accept
      → payload_of w context ≡ ok payload
      → task_of context ≡ ok task
      → execute w parts accept context s
        ≡ run accept parts task payload
            (record s { events = task_created task "paywall-agent" context.timestamp ∷ s.events })
  unfolding execute enqueue_event
  execute-run parts accept s {payload} {task} opened e f =
      ground (arith, opened s.events (task_created task "paywall-agent" context.timestamp))

  -- A request whose payload and task are there announces its task, and then a run of the pipeline
  -- leaves exactly one new final event as the newest, on an open queue; nothing but an interrupt
  -- escapes, and then no new final event is there.
  pub execute_ends :
      (parts : Parts) (accept : Queue) (s : Run) {payload : Value} {task : Task}
      → IsOpen accept
      → payload_of w context ≡ ok payload
      → task_of context ≡ ok task
      → RunEnd (finals s.events) (execute w parts accept context s)
  execute_ends parts accept s {payload} {task} opened e f =
      rw (execute-run parts accept s opened e f) (run_ends parts task accept payload _ opened)
