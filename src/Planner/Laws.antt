-- ===== src/Planner/Laws.antt =====
-- What the planner may answer.
use cronos_stream.Prelude.{◌≡◌, refl, ap, true, List, String, ◌⊎◌, inl, inr, arith, string_has_eq}
use cronos_stream.Python.{Value, null, Outcome, ok, raised, interrupt, is_dict, Exn, ok_injective}
use cronos_stream.World.{World, Trace}
use cronos_stream.Errors.Laws.{Caught, handle_errors-Caught}
use mathlib.Core.Path.{subst}
use cronos_stream.Planner.{OpenAiClient, has_key, checked_choice, read_choice, plan, choose_target}

-- No choice, or a dict with both indices.
abbrev pub IsChoice : Value → Type 0
IsChoice v =
    (v ≡ null)
    ⊎ ((is_dict v ≡ true) × (has_key "agentIndex" v ≡ true) × (has_key "resourceIndex" v ≡ true))

Chosen : Outcome Value × Trace → Type 0
Chosen (ok v, past) = IsChoice v
Chosen (raised e, past) = Unit

raised-Chosen : (e : Exn) (past : Trace) → Chosen (raised e, past)
unfolding Chosen
raised-Chosen e past = tt

checked_choice-Chosen : (v : Value) (past : Trace) → Chosen (checked_choice v, past)
unfolding Chosen checked_choice
checked_choice-Chosen v past = ground arith

null-Chosen : (past : Trace) → Chosen (ok null, past)
unfolding Chosen
null-Chosen past = inl refl

read_choice-Chosen :
    (w : World) (answer : String) (past : Trace) → Chosen (read_choice w answer, past)
unfolding read_choice
read_choice-Chosen w answer past = grind (arith, null-Chosen, checked_choice-Chosen, raised-Chosen)

-- What the decorated method leaves.
abbrev pub Planned : Outcome Value × Trace → Type 0
Planned p =
    ((name : String) × (p.0 ≡ raised (interrupt name))) ⊎ ((v : Value) × (p.0 ≡ ok v) × IsChoice v)

Chosen-Planned : (p q : Outcome Value × Trace) → Chosen p → Caught null p q → Planned q
unfolding Chosen
Chosen-Planned (ok v, after) q h (inl (a, e, f)) =
    inr (a, ap (λ z. z.0) f, subst IsChoice (ok_injective v a e) h)
Chosen-Planned (raised x, after) q h (inl (a, e, f)) = cc
Chosen-Planned p q h (inr (inl (e, _, f))) = inr (null, ap (λ z. z.0) f, inl refl)
Chosen-Planned p q h (inr (inr (name, _, f))) = inl (name, ap (λ z. z.0) f)

plan-Chosen :
    (w : World) (client : OpenAiClient) (query : Value) (agents : List Value) (past : Trace)
    → Chosen (plan w client query agents past)
unfolding plan
plan-Chosen w client query agents past = grind (arith, read_choice-Chosen, raised-Chosen)

-- Whatever the model answers, `choose_target` raises nothing but an interrupt, and gives no choice or
-- a dict that has both indices.
pub choose_target-Planned :
    (w : World) (client : OpenAiClient) (query : Value) (agents : List Value) (past : Trace)
    → Planned (choose_target w client query agents past)
unfolding choose_target
choose_target-Planned w client query agents past =
    Chosen-Planned _ _ (plan-Chosen w client query agents past)
      (handle_errors-Caught null (plan w client query agents) past)
