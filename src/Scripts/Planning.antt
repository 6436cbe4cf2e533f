-- ===== src/Scripts/Planning.antt =====
-- scripts/verify_llm_flow.py: discovery and the planner's choice, without the service's checks.
pub mod Laws
use cronos_stream.Prelude.{
  ℕ, suc, ◌-◌, String, Bool, true, false, Option, none, some, List, [], ◌∷◌, length, get_elem?, leb,
  ◌==◌, string_has_eq, if◌then◌else◌,
}
use cronos_stream.Prelude.Int.{ℤ, pos, negsuc}
use cronos_stream.Python.{
  Value, null, bool, int, text, object, array, truthy, get, index, length_of, Outcome, ok, raised,
  exception, bind_outcome, pure, from_outcome, ◌>>=◌, ◌>>◌, choose,
}
use cronos_stream.World.{World, Effect}
use cronos_stream.Planner.{new_client, choose_target}
use cronos_stream.Service.Discover.{discover_agents}

-- `agents[i]` of a list, where a negative number counts from the end.
unfoldable pub list_item : List Value → ℤ → Outcome Value
list_item agents (pos i) = elim (get_elem? agents i) [
  | none ↦ raised (exception "IndexError")
  | some v ↦ ok v
]
list_item agents (negsuc k) =
    if leb (suc k) (length agents)
    then elim (get_elem? agents (length agents - suc k)) [
      | none ↦ raised (exception "IndexError")
      | some v ↦ ok v
    ]
    else raised (exception "IndexError")

unfoldable pub item_at : List Value → Value → Outcome Value
item_at agents (int n) = list_item agents n
item_at agents (bool true) = list_item agents (pos 1)
item_at agents (bool false) = list_item agents (pos 0)
item_at agents _ = raised (exception "TypeError")

-- What the first loop reads of each agent.
unfoldable pub list_agents : List Value → Outcome (Unit {0})
list_agents [] = ok tt
list_agents (a ∷ agents) =
    let rest = list_agents agents in
    bind_outcome (index a "name") λ _. bind_outcome (index a "baseUrl") λ _.
      bind_outcome (get a "card" (object [])) λ card.
        bind_outcome (get card "resources" (array []))
          λ resources. bind_outcome (length_of resources) λ _. rest

-- `real_agents[choice['agentIndex']]`
unfoldable pub chosen_agent : List Value → Value → Outcome Value
chosen_agent agents choice = bind_outcome (index choice "agentIndex") (item_at agents)

-- The agent's name and the reason, as they are printed; `none` where nothing is chosen.
unfoldable pub report_choice : List Value → Value → Outcome (Option (Value × Value))
report_choice agents choice =
    let report = bind_outcome (chosen_agent agents choice) λ agent.
      bind_outcome (index agent "name")
        λ name. bind_outcome (get choice "reason" null) λ reason. ok (some (name, reason)) in
    if truthy choice then report else ok none

module _ (w : World) where
  -- Behind the two objects.
  unfoldable pub plan_flow : Effect (Option (Value × Value))
  plan_flow = do
    client ← from_outcome (new_client w (some "gpt-3.5-turbo"))
    agents ← discover_agents w (array (text "http://localhost:8787" ∷ []))
    elim agents as (λ _. Effect (Option (Value × Value))) [
      | [] ↦ pure none
      | a ∷ others ↦ do
        from_outcome (list_agents (a ∷ others))
        choice ← choose_target w client (text "I want to access the premium content.") (a ∷ others)
        from_outcome (report_choice (a ∷ others) choice)
    ]

  -- `test_planning_flow`
  unfoldable pub planning_flow : Effect (Option (Value × Value))
  planning_flow = elim (w.env "OPENAI_API_KEY") as (λ _. Effect (Option (Value × Value))) [
    | none ↦ pure none
    | some key ↦ choose (key == "") (pure none) plan_flow
  ]
