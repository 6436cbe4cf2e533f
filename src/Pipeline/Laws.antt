-- ===== src/Pipeline/Laws.antt =====
-- The final events of a run of the pipeline.
use mathlib.Core.Path.{subst}
use cronos_stream.Prelude.{
  ℕ, suc, String, ◌≡◌, refl, sym, fun_ext, Bool, true, false, List, [], ◌∷◌, arith, if◌then◌else◌,
}
use cronos_stream.Python.{Value, Outcome, ok, raised, Exn, app, exception, interrupt}
use cronos_stream.Events.{
  Task, Event, artifact_update, status_update, task_created, Run, Queue, enqueue_event, progress,
  finish, fail,
}
use cronos_stream.Pipeline.{Parts, deliver, select, run_body, report, run}

abbrev pub is_final : Event → Bool
is_final (artifact_update append last_chunk context_id task_id name content) = false
is_final (status_update state message final context_id task_id) = final
is_final (task_created task agent_name timestamp) = false

-- The number of final events.
abbrev pub finals : List Event → ℕ
finals [] = 0
finals (e ∷ events) = if is_final e then suc (finals events) else finals events

-- The newest event is final, and `n` of the others are.
abbrev pub EndsFinal : ℕ → List Event → Type 0
EndsFinal n [] = ⊥
EndsFinal n (e ∷ events) = (is_final e ≡ true) × (finals events ≡ n)

-- The queue takes every event, as the A2A library's does while it is open.
abbrev pub IsOpen : Queue → Type 0
IsOpen accept = (past : List Event) (e : Event) → accept past e ≡ ok tt

abbrev pub always : Queue
always past e = ok tt

-- What the body of the `try` leaves: a final event on success, and none before an exception.
BodyEnd : ℕ → Outcome (Unit {0}) × Run → Type 0
BodyEnd n (ok a, s) = EndsFinal n s.events
BodyEnd n (raised e, s) = finals s.events ≡ n

-- What the whole run leaves: only an interrupt gets past the handlers.
abbrev pub RunEnd : ℕ → Outcome (Unit {0}) × Run → Type 0
RunEnd n (ok a, s) = EndsFinal n s.events
RunEnd n (raised (app kind message), s) = ⊥
RunEnd n (raised (exception name), s) = ⊥
RunEnd n (raised (interrupt name), s) = finals s.events ≡ n

module _ (parts : Parts) (task : Task) where
  deliver-BodyEnd :
      (target : Value) (s : Run) (n : ℕ)
      → finals s.events ≡ n
      → BodyEnd n (deliver always parts task target s)
  unfolding BodyEnd deliver progress finish fail enqueue_event
  deliver-BodyEnd target s n h = ground arith

  fail-BodyEnd :
      (content : String) (s : Run) (n : ℕ)
      → finals s.events ≡ n
      → BodyEnd n (fail always task content s)
  unfolding BodyEnd fail enqueue_event
  fail-BodyEnd content s n h = (refl, h)

  raised-BodyEnd : (e : Exn) (s : Run) (n : ℕ) → finals s.events ≡ n → BodyEnd n (raised e, s)
  unfolding BodyEnd
  raised-BodyEnd e s n h = h

  select-BodyEnd :
      (query : Value) (agents : List Value) (s : Run) (n : ℕ)
      → finals s.events ≡ n
      → BodyEnd n (select always parts task query agents s)
  unfolding select progress enqueue_event
  select-BodyEnd query agents s n h = grind (arith, deliver-BodyEnd, fail-BodyEnd, raised-BodyEnd)

  run_body-BodyEnd :
      (payload : Value) (s : Run) (n : ℕ)
      → finals s.events ≡ n
      → BodyEnd n (run_body always parts task payload s)
  unfolding run_body progress enqueue_event
  run_body-BodyEnd payload s n h = grind (arith, select-BodyEnd, fail-BodyEnd, raised-BodyEnd)

  run-RunEnd :
      (payload : Value) (s : Run) → RunEnd (finals s.events) (run always parts task payload s)
  unfolding BodyEnd run report fail enqueue_event
  run-RunEnd payload s = ground (arith, run_body-BodyEnd payload s (finals s.events) refl)

  -- On an open queue a run returns and leaves exactly one new final event, as the newest event; the
  -- only exception that escapes it is an interrupt, and then no new final event is there.
  pub run_ends :
      (accept : Queue) (payload : Value) (s : Run)
      → IsOpen accept
      → RunEnd (finals s.events) (run accept parts task payload s)
  run_ends accept payload s opened =
      subst (λ q. RunEnd (finals s.events) (run q parts task payload s))
        (sym (fun_ext λ past. fun_ext λ e. opened past e)) (run-RunEnd payload s)
