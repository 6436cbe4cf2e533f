-- ===== src/Service/Choice/Laws.antt =====
-- What `apply_choice` selects, and its outcomes.
use cronos_stream.Prelude.{
  ℕ, ◌<◌, String, ◌≡◌, refl, ap, Bool, true, false, List, [], ◌∷◌, length, get_elem?, some, arith,
  ◌⊎◌, inl, inr, eq_iff, ◌∙◌,
}
use cronos_stream.Prelude.Int.{ℤ, pos, negsuc, pos_part}
use cronos_stream.Python.{
  Value, null, text, dict, array, elements, items, is_text, subscript, length_of, Outcome, ok,
  raised, app, exception, interrupt, Exn, bind_outcome-eq-ok, IsContained, from_outcome,
  ok_injective,
}
use cronos_stream.World.{Trace, logged}
use cronos_stream.Errors.{handle_errors}
use cronos_stream.Service.{x402_protocol}
use cronos_stream.Service.Choice.{
  or_invalid, require, within, choice_index, with_resource, resources_of, protocol_of,
  choose_resource, choose_agent, choice_indices, chosen_target, apply_choice,
}
use cronos_stream.Service.Choice.Contained.{chosen_target-IsContained}

-- `target` is the agent number `i` with its resource number `j`, which is marked x402.
abbrev pub Selects : List Value → ℕ → ℕ → Value → Type 0
Selects agents i j target =
    (agent : Value) × (resources : Value) × (resource : Value) × (count : ℕ) × (get_elem? agents i
      ≡ some agent)
    × (resources_of agent ≡ ok resources)
    × (length_of resources ≡ ok count)
    × (j < count)
    × (subscript resources j ≡ ok resource)
    × (protocol_of resource ≡ ok (text x402_protocol))
    × (with_resource agent resource ≡ ok target)

require-eq-ok :
    {A : Type 0} (b : Bool) (message : String) (next : Outcome A) {a : A}
    → require b message next ≡ ok a
    → (b ≡ true) × (next ≡ ok a)
require-eq-ok true message next h = (refl, h)
require-eq-ok false message next h = cc

within-eq-true : (i : ℤ) (n : ℕ) → within i n ≡ true → (i ≡ pos (pos_part i)) × (pos_part i < n)
within-eq-true (pos k) n h = (refl, ground arith)
within-eq-true (negsuc k) n h = ground arith

or_invalid-eq-ok :
    {A : Type 0} (r : Outcome A) (m : String) {a : A} → or_invalid r m ≡ ok a → r ≡ ok a
unfolding or_invalid
or_invalid-eq-ok (ok a) m h = h
or_invalid-eq-ok (raised (app kind k)) m h = cc
or_invalid-eq-ok (raised (exception k)) m h = cc
or_invalid-eq-ok (raised (interrupt k)) m h = cc

is_text-eq-true : (v : Value) (s : String) → is_text v s ≡ true → v ≡ text s
is_text-eq-true (text t) s h = ap text ((eq_iff t s).0 h)
is_text-eq-true null s h = cc
is_text-eq-true (Value.bool b) s h = cc
is_text-eq-true (Value.int n) s h = cc
is_text-eq-true (Value.float m k) s h = cc
is_text-eq-true (Value.list vs) s h = cc
is_text-eq-true (dict fs) s h = cc

choose_resource-eq-ok :
    (agents : List Value) (i : ℕ) (agent : Value) (ri : ℤ) (target : Value)
    → get_elem? agents i ≡ some agent
    → choose_resource agent ri ≡ ok target
    → (j : ℕ) × (ri ≡ pos j) × Selects agents i j target
unfolding choose_resource
choose_resource-eq-ok agents i agent ri target at h =
    let (resources, r1, h1) = bind_outcome-eq-ok (resources_of agent) _ h in
    let (count, r2, h2) = bind_outcome-eq-ok (length_of resources) _ h1 in
    let (inside, h3) = require-eq-ok (within ri count) _ _ h2 in
    let (resource, r3, h4) = bind_outcome-eq-ok (subscript resources (pos_part ri)) _ h3 in
    let (protocol, r4, h5) = bind_outcome-eq-ok (protocol_of resource) _ h4 in
    let (marked, h6) = require-eq-ok (is_text protocol x402_protocol) _ _ h5 in
    let (positive, below) = within-eq-true ri count inside in
    (
      pos_part ri,
      positive,
      (
        agent,
        resources,
        resource,
        count,
        at,
        r1,
        r2,
        below,
        r3,
        r4 ∙ ap ok (is_text-eq-true protocol x402_protocol marked),
        h6,
      ),
    )

elements-items : (vs : List Value) → elements (items vs) ≡ vs
elements-items [] = refl
elements-items (v ∷ vs) = ap (λ l. v ∷ l) (elements-items vs)

get_elem?-subscript :
    (vs : List Value) (i : ℕ) {v : Value} → subscript (array vs) i ≡ ok v → get_elem? vs i ≡ some v
unfolding subscript
get_elem?-subscript vs i h = ground (arith, elements-items vs)

choose_agent-eq-ok :
    (agents : List Value) (ai ri : ℤ) (target : Value)
    → choose_agent agents ai ri ≡ ok target
    → (i j : ℕ) × (ai ≡ pos i) × (ri ≡ pos j) × (i < length agents) × Selects agents i j target
unfolding choose_agent
choose_agent-eq-ok agents ai ri target h =
    let (inside, h1) = require-eq-ok (within ai (length agents)) _ _ h in
    let (positive, below) = within-eq-true ai (length agents) inside in
    let (agent, found, h2) = bind_outcome-eq-ok (subscript (array agents) (pos_part ai)) _ h1 in
    let (j, rj, chosen) =
      choose_resource-eq-ok agents (pos_part ai) agent ri target
        (get_elem?-subscript agents (pos_part ai) found) h2 in
    (pos_part ai, j, positive, rj, below, chosen)

-- A choice that is accepted names, by its two indices, an agent of the list and a resource of its
-- card that is marked x402, and the target is that agent's record with that resource. In particular
-- no index is negative or out of range.
pub chosen_target-Selects :
    (agents : List Value) (choice : Value) (target : Value)
    → chosen_target agents choice ≡ ok target
    → (i j : ℕ) × (choice_index choice "agentIndex" ≡ ok (pos i))
      × (choice_index choice "resourceIndex" ≡ ok (pos j))
      × (i < length agents)
      × Selects agents i j target
unfolding chosen_target
chosen_target-Selects agents choice target h =
    let (both, r0, h0) =
      bind_outcome-eq-ok (or_invalid (choice_indices choice) "Choice missing/invalid indices") _
        h in
    let (ai, r1, h1) =
      bind_outcome-eq-ok (choice_index choice "agentIndex") _
        (or_invalid-eq-ok (choice_indices choice) _ r0) in
    let (ri, r2, h2) = bind_outcome-eq-ok (choice_index choice "resourceIndex") _ h1 in
    let pair = ok_injective (ai, ri) both h2 in
    let (i, j, ei, ej, below, chosen) = choose_agent-eq-ok agents both.0 both.1 target h0 in
    (
      i,
      j,
      r1 ∙ ap ok (ap (λ p. p.0) pair ∙ ei),
      r2 ∙ ap ok (ap (λ p. p.1) pair ∙ ej),
      below,
      chosen,
    )

handled_outcome :
    (r : Outcome Value) (past : Trace)
    → IsContained r
    → ((target : Value) × (r ≡ ok target)
        × (handle_errors null true false (from_outcome r) past ≡ (ok target, past)))
      ⊎ ((e : Exn) × (r ≡ raised e)
          × (handle_errors null true false (from_outcome r) past ≡ (ok null, logged e ∷ past)))
unfolding handle_errors
handled_outcome (ok a) past h = inl (a, refl, refl)
handled_outcome (raised (app kind message)) past h = inr (app kind message, refl, refl)
handled_outcome (raised (exception name)) past h = inr (exception name, refl, refl)
handled_outcome (raised (interrupt name)) past h = absurd h

-- `apply_choice` never raises, whatever the planner's answer is: it returns the selected target, or
-- nothing when the choice is refused, and then the refusal is logged and no other call is made.
pub apply_choice_total :
    (agents : List Value) (choice : Value) (past : Trace)
    → ((target : Value) × (chosen_target agents choice ≡ ok target)
        × (apply_choice agents choice past ≡ (ok target, past)))
      ⊎ ((e : Exn) × (chosen_target agents choice ≡ raised e)
          × (apply_choice agents choice past ≡ (ok null, logged e ∷ past)))
unfolding apply_choice
apply_choice_total agents choice past =
    handled_outcome (chosen_target agents choice) past (chosen_target-IsContained agents choice)
