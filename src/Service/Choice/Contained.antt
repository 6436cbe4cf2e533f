-- ===== src/Service/Choice/Contained.antt =====
-- Which exceptions the parts of `apply_choice` raise.
use cronos_stream.Prelude.{ℕ, String, Bool, true, false, List, arith}
use cronos_stream.Prelude.Int.{ℤ}
use cronos_stream.Python.{
  Value, array, index, get, to_int, subscript, length_of, Outcome, ok, raised, app, exception,
  interrupt, bind_outcome-IsContained, IsContained,
}
use cronos_stream.Service.Choice.{
  or_invalid, require, choice_index, with_resource, resources_of, protocol_of, choose_resource,
  choose_agent, chosen_target,
}

get-IsContained : (v : Value) (k : String) (d : Value) → IsContained (get v k d)
unfolding get
get-IsContained v k d = ground arith

choice_index-IsContained : (choice : Value) (key : String) → IsContained (choice_index choice key)
unfolding index to_int
choice_index-IsContained choice key = ground arith

length_of-IsContained : (v : Value) → IsContained (length_of v)
unfolding length_of
length_of-IsContained v = ground arith

subscript-IsContained : (v : Value) (i : ℕ) → IsContained (subscript v i)
unfolding subscript
subscript-IsContained v i = ground arith

with_resource-IsContained : (agent resource : Value) → IsContained (with_resource agent resource)
unfolding with_resource
with_resource-IsContained agent resource = ground arith

or_invalid-IsContained :
    {A : Type 0} (r : Outcome A) (m : String) → IsContained r → IsContained (or_invalid r m)
unfolding or_invalid
or_invalid-IsContained (ok a) m h = h
or_invalid-IsContained (raised (app kind k)) m h = h
or_invalid-IsContained (raised (exception k)) m h = h
or_invalid-IsContained (raised (interrupt k)) m h = h

require-IsContained :
    {A : Type 0} (b : Bool) (message : String) (next : Outcome A)
    → IsContained next
    → IsContained (require b message next)
require-IsContained true message next h = h
require-IsContained false message next h = tt

choose_resource-IsContained : (agent : Value) (ri : ℤ) → IsContained (choose_resource agent ri)
unfolding choose_resource resources_of protocol_of
choose_resource-IsContained agent ri =
    bind_outcome-IsContained _ _
      (bind_outcome-IsContained _ _ (get-IsContained agent "card" _)
        λ card. bind_outcome-IsContained _ _ (get-IsContained _ "resources" _) λ resources. tt)
      λ resources. bind_outcome-IsContained _ _ (length_of-IsContained resources) λ count.
        require-IsContained _ _ _ (
          bind_outcome-IsContained _ _ (subscript-IsContained resources _) λ resource.
            bind_outcome-IsContained _ _
              (bind_outcome-IsContained _ _ (get-IsContained resource "paywall" _)
                λ paywall. get-IsContained _ "protocol" _)
              λ protocol. require-IsContained _ _ _ (with_resource-IsContained agent resource))

pub chosen_target-IsContained :
    (agents : List Value) (choice : Value) → IsContained (chosen_target agents choice)
unfolding chosen_target choose_agent
chosen_target-IsContained agents choice =
    bind_outcome-IsContained _ _
      (or_invalid-IsContained _ _ (
        bind_outcome-IsContained _ _ (choice_index-IsContained choice "agentIndex") λ ai.
          bind_outcome-IsContained _ _ (choice_index-IsContained choice "resourceIndex") λ ri. tt))
      λ both. require-IsContained _ _ _ (
        bind_outcome-IsContained _ _ (subscript-IsContained (array agents) _)
          λ agent. choose_resource-IsContained agent both.1)
