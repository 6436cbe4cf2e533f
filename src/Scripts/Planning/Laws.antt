-- ===== src/Scripts/Planning/Laws.antt =====
-- The agent that the script names, and the one that the service takes.
use cronos_stream.Prelude.{String, ◌≡◌, refl, ap, List, [], ◌∷◌, arith, false, string_has_eq, ◌==◌}
use cronos_stream.Prelude.Int.{ℤ, pos}
use cronos_stream.Python.{
  Dict, Value, int, text, dict, entries, fields, insert, lookup-insert, index, to_int, ok,
  ok_injective, bind_outcome,
}
use cronos_stream.Service.Choice.{chosen_target, with_resource}
use cronos_stream.Service.Choice.Laws.{chosen_target-Selects}
use cronos_stream.Scripts.Planning.{list_item, item_at, chosen_agent}

entries-fields : (d : Dict Value) → entries (fields d) ≡ d
entries-fields [] = refl
entries-fields (e ∷ d) = ap (λ l. e ∷ l) (entries-fields d)

-- The resource is entered beside the name.
with_resource-name :
    (agent resource target : Value)
    → with_resource agent resource ≡ ok target
    → index agent "name" ≡ index target "name"
unfolding with_resource index
with_resource-name (dict fs) resource target h =
    let made = ok_injective (dict (fields (insert "resource" resource (entries fs)))) target h in
    let entered = lookup-insert "name" "resource" resource (entries fs) in
    let other : ◌==◌ {T = String} "name" "resource" ≡ false = refl in
    let read = entries-fields (insert "resource" resource (entries fs)) in
    rw (← made) (ground (arith, read, entered, other))
with_resource-name Value.null resource target h = cc
with_resource-name (Value.bool b) resource target h = cc
with_resource-name (int n) resource target h = cc
with_resource-name (Value.float m k) resource target h = cc
with_resource-name (text s) resource target h = cc
with_resource-name (Value.list vs) resource target h = cc

-- Where the service accepts a choice whose agent's index is a whole number, the script names the
-- same agent: its name is that of the service's target.
pub chosen_agent-chosen_target :
    (agents : List Value) (choice : Value) (n : ℤ) (target : Value)
    → index choice "agentIndex" ≡ ok (int n)
    → chosen_target agents choice ≡ ok target
    → bind_outcome (chosen_agent agents choice) (λ agent. index agent "name") ≡ index target "name"
unfolding chosen_agent item_at list_item to_int
chosen_agent-chosen_target agents choice n target named h =
    let (i, j, at, _, _, selected) = chosen_target-Selects agents choice target h in
    let (agent, resources, resource, count, found, _, _, _, _, _, made) = selected in
    let same : n ≡ pos i = ground (arith, at, named) in
    ground (arith, same, found, with_resource-name agent resource target made)
