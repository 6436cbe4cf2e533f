-- ===== src/Service/Discover.antt =====
-- `fetch_agent_card` of a2a/a2a-service/host/lib/a2a/discovery.py, and
-- `PaywallService.discover_agents`.
pub mod Laws
use cronos_stream.Prelude.{
  String, ◌<>◌, true, false, List, [], ◌∷◌, ◌++◌, Option, none, some, ◌==◌, nat_has_eq,
}
use cronos_stream.Python.{
  Value, text, object, truthy, or_value, as_text, get, iterate, Outcome, bind_outcome, ok, pure,
  from_outcome, ◌>>=◌, choose, catch, rstrip_slash,
}
use cronos_stream.World.{World, Effect, http_get_with}
use cronos_stream.Errors.{handle_errors}

abbrev pub well_known_paths : List String
well_known_paths = "/.well-known/agent-card.json" ∷ "/.well-known/agent.json" ∷ []

module _ (w : World) where
  -- The loop over the paths; `none` where the next path is tried.
  unfoldable pub probe : String → Effect (Option Value)
  probe url =
      catch
        (do
          r ← http_get_with w url []
          choose (r.status == 200) (do card ← from_outcome (r.json); pure (some card)) (pure none))
        (λ e. pure none)

  abbrev card_or : Option Value → Effect Value → Effect Value
  card_or none next = next
  card_or (some card) next = pure card

  unfoldable pub probe_paths : String → List String → Effect Value
  probe_paths base [] = pure (object [])
  probe_paths base (path ∷ paths) = do
    found ← probe (base <> path)
    card_or found (probe_paths base paths)

  unfoldable pub fetch_agent_card : Value → Effect Value
  fetch_agent_card base_url = do
    base ← from_outcome (bind_outcome (as_text base_url) (λ s. ok (rstrip_slash s)))
    probe_paths base well_known_paths

  -- The record of one agent.
  unfoldable pub agent_record : Value → Value → Outcome Value
  agent_record base card = bind_outcome (get card "name" (text "unknown")) λ name.
      bind_outcome (get card "url" Value.null) λ url.
        bind_outcome (as_text (or_value url base)) λ base_url. ok (
          object (("name", name) ∷ ("baseUrl", text (rstrip_slash base_url)) ∷ ("card", card) ∷ []))

  unfoldable pub discover_each : List Value → List Value → Effect (List Value)
  discover_each [] agents = pure agents
  discover_each (base ∷ urls) agents = do
    card ← fetch_agent_card base
    agents' ←
        choose (truthy card)
          (do agent ← from_outcome (agent_record base card); pure (agents ++ (agent ∷ [])))
          (pure agents)
    discover_each urls agents'

  -- The body of the method.
  unfoldable pub find_agents : Value → Effect (List Value)
  find_agents urls = do bases ← from_outcome (iterate urls); discover_each bases []

  unfoldable pub discover_agents : Value → Effect (List Value)
  discover_agents urls = handle_errors [] true false (find_agents urls)
