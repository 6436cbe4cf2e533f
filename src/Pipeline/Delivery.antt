-- ===== src/Pipeline/Delivery.antt =====
-- The events of a completed task, and what was fetched for it.
use mathlib.Core.Path.{subst}
use cronos_stream.Prelude.{
  String, ◌≡◌, refl, sym, fun_ext, true, false, Option, none, some, List, [], ◌∷◌, arith,
}
use cronos_stream.Messages.{paywalled_resource}
use cronos_stream.Python.{
  Value, null, truthy, get, Outcome, ok, raised, Exn, app, exception, interrupt,
}
use cronos_stream.World.{Trace}
use cronos_stream.Events.{
  Task, TaskState, Event, artifact_update, status_update, Run, Queue, enqueue_event, progress,
  finish, fail,
}
use cronos_stream.Pipeline.{Parts, deliver, select, run_body, report, run}
use cronos_stream.Pipeline.Laws.{IsOpen, always}

module _ (parts : Parts) where
  -- The text of what the service fetches for `target` behind the calls `past`, if it reports success.
  abbrev pub delivery : Value → Trace → Option String
  delivery target past = elim ((parts.fetch_resource target past).0) [
    | raised e ↦ none
    | ok result ↦ elim (get result "ok" null) [
      | raised e ↦ none
      | ok success ↦ elim (truthy success) [
        | false ↦ none
        | true ↦ elim (parts.format_result result) [ raised e ↦ none | ok content ↦ some content ]
      ]
    ]
  ]

  -- If the newest event completes the task, the one behind it is the artifact with that text.
  abbrev pub IsDelivery : Value → Trace → List Event → Type 0
  IsDelivery target past
        (status_update TaskState.completed m f c t
          ∷ artifact_update a l c' t' name content
          ∷ events) =
      (name ≡ paywalled_resource) × (delivery target past ≡ some content)
  IsDelivery target past (status_update TaskState.completed m f c t ∷ events) = ⊥
  IsDelivery target past events = Unit

  -- A run that returned: for some target and some calls before the fetch.
  Delivered : Outcome (Unit {0}) × Run → Type 0
  Delivered (ok a, s) = (target : Value) × (past : Trace) × IsDelivery target past s.events
  Delivered (raised e, s) = Unit

  module _ (task : Task) where
    raised-Delivered : (e : Exn) (s : Run) → Delivered (raised e, s)
    unfolding Delivered
    raised-Delivered e s = tt

    fail-Delivered : (content : String) (s : Run) → Delivered (fail always task content s)
    unfolding Delivered fail enqueue_event
    fail-Delivered content s = (null, [], tt)

    deliver-IsDelivery :
        (target : Value) (s : Run)
        → (deliver always parts task target s).0 ≡ ok tt
        → IsDelivery target s.trace (deliver always parts task target s).1.events
    unfolding deliver progress finish fail enqueue_event
    deliver-IsDelivery target s h = ground arith

    to-Delivered :
        (p : Outcome (Unit {0}) × Run) (target : Value) (past : Trace)
        → (p.0 ≡ ok tt → IsDelivery target past p.1.events)
        → Delivered p
    unfolding Delivered
    to-Delivered (ok tt, s) target past h = (target, past, h refl)
    to-Delivered (raised e, s) target past h = tt

    deliver-Delivered : (target : Value) (s : Run) → Delivered (deliver always parts task target s)
    deliver-Delivered target s = to-Delivered _ target s.trace (deliver-IsDelivery target s)

    select-Delivered :
        (query : Value) (agents : List Value) (s : Run)
        → Delivered (select always parts task query agents s)
    unfolding select progress enqueue_event
    select-Delivered query agents s =
        grind (arith, deliver-Delivered, fail-Delivered, raised-Delivered)

    run_body-Delivered :
        (payload : Value) (s : Run) → Delivered (run_body always parts task payload s)
    unfolding run_body progress enqueue_event
    run_body-Delivered payload s = grind (arith, select-Delivered, fail-Delivered, raised-Delivered)

    report-Delivered : (e : Exn) (s : Run) → Delivered (report always parts task e s)
    unfolding report
    report-Delivered (app kind message) s = fail-Delivered _ _
    report-Delivered (exception name) s = fail-Delivered _ _
    report-Delivered (interrupt name) s = raised-Delivered _ _

    caught-Delivered :
        (p : Outcome (Unit {0}) × Run)
        → Delivered p
        → Delivered (elim (p.0) as (λ _. Outcome (Unit {0}) × Run) [
          | ok a ↦ (ok a, p.1)
          | raised e ↦ elim e as (λ _. Outcome (Unit {0}) × Run) [
            | app kind message ↦ report always parts task (app kind message) p.1
            | exception name ↦ report always parts task (exception name) p.1
            | interrupt name ↦ (raised (interrupt name), p.1)
          ]
        ])
    caught-Delivered (ok a, s) h = h
    caught-Delivered (raised (app kind message), s) h = report-Delivered _ s
    caught-Delivered (raised (exception name), s) h = report-Delivered _ s
    caught-Delivered (raised (interrupt name), s) h = raised-Delivered _ s

    run-Delivered : (payload : Value) (s : Run) → Delivered (run always parts task payload s)
    unfolding run
    run-Delivered payload s = caught-Delivered _ (run_body-Delivered payload s)

    from-Delivered :
        (p : Outcome (Unit {0}) × Run)
        → Delivered p
        → p.0 ≡ ok tt
        → (target : Value) × (past : Trace) × IsDelivery target past p.1.events
    unfolding Delivered
    from-Delivered (ok a, s) h done = h
    from-Delivered (raised e, s) h done = cc

    -- On an open queue a run that returns with the task completed as its newest event has fetched a
    -- target, the fetch has reported success, and the event behind the newest is the artifact that
    -- holds the result's formatted text.
    pub run-IsDelivery :
        (accept : Queue) (payload : Value) (s : Run)
        → IsOpen accept
        → (run accept parts task payload s).0 ≡ ok tt
        → (target : Value) × (past : Trace) × IsDelivery target past
            (run accept parts task payload s).1.events
    run-IsDelivery accept payload s opened =
        subst
          (λ q.
            (run q parts task payload s).0 ≡ ok tt
            → (target : Value) × (past : Trace) × IsDelivery target past
                (run q parts task payload s).1.events)
          (sym (fun_ext λ past. fun_ext λ e. opened past e))
          (from-Delivered _ (run-Delivered payload s))
