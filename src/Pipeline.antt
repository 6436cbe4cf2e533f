-- ===== src/Pipeline.antt =====
-- a2a/a2a-service/host/pipeline.py: `PaywallPipeline`, over whatever service and planner it is
-- given.
pub mod Laws
pub mod Delivery
pub mod Wired
use cronos_stream.Prelude.{String, ◌<>◌, Bool, true, false, List, [], ◌∷◌}
use cronos_stream.Python.{
  Value, null, text, array, truthy, or_value, get, index, str_value, Outcome, ok, raised, Exn, app,
  exception, interrupt, Action, raise, from_outcome, ◌>>=◌, ◌>>◌, choose, catch,
}
use cronos_stream.World.{Effect, perform, logged}
use cronos_stream.Events.{Task, Run, Queue, outside, progress, finish, fail}
use cronos_stream.Messages.{
  paywall_planning, paywall_discovering_agents, paywall_selecting_target, paywall_fetching_resource,
  paywall_no_agents, paywall_no_target, paywall_fetch_failed, paywalled_resource,
}

-- What the pipeline calls on `self.service` and `self.planner`. None of it is given the queue.
pub record Parts : Type 0 where
  pub discover_agents : Value → Effect (List Value)
  pub choose_target : Value → List Value → Effect Value
  pub apply_choice : List Value → Value → Effect Value
  pub fetch_resource : Value → Effect Value
  pub format_result : Value → Outcome String
  pub repr : Value → String

module _ (accept : Queue) (parts : Parts) (task : Task) where
  abbrev say : Value → String
  say = str_value parts.repr

  -- Step 3 and 4, with a target.
  unfoldable pub deliver : Value → Action Run (Unit {0})
  deliver target = do
    name ← from_outcome (index target "name")
    base_url ← from_outcome (index target "baseUrl")
    progress accept task ("Selected: " <> say name <> " (" <> say base_url <> ")")
    progress accept task paywall_fetching_resource
    result ← outside (parts.fetch_resource target)
    success ← from_outcome (get result "ok" null)
    choose (truthy success)
        (do
          content ← from_outcome (parts.format_result result)
          finish accept task content paywalled_resource)
        (fail accept task (paywall_fetch_failed <> ": " <> say result))

  -- Step 2, with the agents.
  unfoldable pub select : Value → List Value → Action Run (Unit {0})
  select query agents = do
    progress accept task paywall_selecting_target
    choice ← outside (parts.choose_target query agents)
    choose (truthy choice)
        (do
          target ← outside (parts.apply_choice agents choice)
          choose (truthy target) (deliver target)
              (fail accept task (paywall_no_target <> ": " <> say choice)))
        (fail accept task paywall_no_target)

  -- The body of the `try`.
  unfoldable pub run_body : Value → Action Run (Unit {0})
  run_body payload = do
    urls ← from_outcome (get payload "discoveryUrls" null)
    asked ← from_outcome (get payload "query" null)
    let discovery_urls = or_value urls (array (text "http://localhost:8787" ∷ []))
    let query = or_value asked (text "fetch paywalled resource")
    progress accept task (paywall_planning <> ": " <> say query)
    progress accept task (paywall_discovering_agents <> ": " <> say discovery_urls)
    agents ← outside (parts.discover_agents discovery_urls)
    choose (truthy (array agents)) (select query agents) (fail accept task paywall_no_agents)

  -- The two `except` branches.
  unfoldable pub report : Exn → Action Run (Unit {0})
  report (app kind message) =
      outside (perform (logged (app kind message)) (λ past. ok tt))
      >> fail accept task (paywall_fetch_failed <> ": " <> message)
  report (exception name) = fail accept task (paywall_fetch_failed <> ": unexpected_error=" <> name)
  report (interrupt name) = raise (interrupt name)

  unfoldable pub run : Value → Action Run (Unit {0})
  run payload = catch (run_body payload) report
