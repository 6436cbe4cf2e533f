-- ===== src/Service/Choice.antt =====
-- `PaywallService.apply_choice`.
pub mod Contained
pub mod Laws
use cronos_stream.Prelude.{
  ℕ, String, Bool, true, false, not, Option, none, some, List, [], ◌∷◌, length, get_elem?, ◌||◌,
  ◌==◌, string_has_eq,
}
use cronos_stream.Prelude.Int.{ℤ, pos, ltb_ℤ, pos_part}
use cronos_stream.Python.{
  Value, null, text, dict, list, object, array, entries, fields, insert, or_value, is_text, get,
  index, to_int, length_of, subscript, Outcome, ok, raised, app, validation_error, exception, Exn,
  bind_outcome, from_outcome, interrupt,
}
use cronos_stream.World.{Effect}
use cronos_stream.Errors.{handle_errors}
use cronos_stream.Service.{x402_protocol}

-- `except Exception: raise ValidationError(…)`
unfoldable pub or_invalid : {A : Type 0} → Outcome A → String → Outcome A
or_invalid (ok a) message = ok a
or_invalid (raised (app kind m)) message = raised (app validation_error message)
or_invalid (raised (exception name)) message = raised (app validation_error message)
or_invalid (raised (interrupt name)) message = raised (interrupt name)

abbrev pub require : {A : Type 0} → Bool → String → Outcome A → Outcome A
require true message next = next
require false message next = raised (app validation_error message)

-- `0 <= i < n`
abbrev pub within : ℤ → ℕ → Bool
within i n = not (ltb_ℤ i (pos 0) || not (ltb_ℤ i (pos n)))

-- `int(choice[key])`
abbrev pub choice_index : Value → String → Outcome ℤ
choice_index choice key = bind_outcome (index choice key) to_int

-- `out = dict(agent); out["resource"] = resource`
unfoldable pub with_resource : Value → Value → Outcome Value
with_resource (dict fs) resource = ok (dict (fields (insert "resource" resource (entries fs))))
with_resource _ resource = raised (exception "TypeError")

-- The selected agent's resources: `(agent.get("card", {}) or {}).get("resources", []) or []`.
unfoldable pub resources_of : Value → Outcome Value
resources_of agent = bind_outcome (get agent "card" (object [])) λ card.
    bind_outcome (get (or_value card (object [])) "resources" (array []))
      λ resources. ok (or_value resources (array []))

unfoldable pub protocol_of : Value → Outcome Value
protocol_of resource =
    bind_outcome (get resource "paywall" null)
      λ paywall. get (or_value paywall (object [])) "protocol" null

-- Behind the agent: its resource, and the test of the resource's protocol.
unfoldable pub choose_resource : Value → ℤ → Outcome Value
choose_resource agent ri = bind_outcome (resources_of agent) λ resources.
    bind_outcome (length_of resources) λ count.
      require (within ri count) "resourceIndex out of range" (
        bind_outcome (subscript resources (pos_part ri)) λ resource.
          bind_outcome (protocol_of resource) λ protocol.
            require (is_text protocol x402_protocol) "Selected resource is not x402"
              (with_resource agent resource))

-- Behind the two indices.
unfoldable pub choose_agent : List Value → ℤ → ℤ → Outcome Value
choose_agent agents ai ri =
    require (within ai (length agents)) "agentIndex out of range"
      (bind_outcome (subscript (array agents) (pos_part ai)) λ agent. choose_resource agent ri)

abbrev pub choice_indices : Value → Outcome (ℤ × ℤ)
choice_indices choice =
    bind_outcome (choice_index choice "agentIndex")
      λ ai. bind_outcome (choice_index choice "resourceIndex") λ ri. ok (ai, ri)

-- The body of the method.
unfoldable pub chosen_target : List Value → Value → Outcome Value
chosen_target agents choice =
    bind_outcome (or_invalid (choice_indices choice) "Choice missing/invalid indices")
      λ both. choose_agent agents both.0 both.1

-- `null` stands for `None`.
unfoldable pub apply_choice : List Value → Value → Effect Value
apply_choice agents choice =
    handle_errors null true false (from_outcome (chosen_target agents choice))
