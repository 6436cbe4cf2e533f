-- ===== src/Errors/Laws.antt =====
-- The decorator `handle_errors` where it logs and does not raise again.
use cronos_stream.Prelude.{String, ◌≡◌, refl, true, false, ◌∷◌, ◌⊎◌, inl, inr}
use cronos_stream.Python.{Outcome, ok, raised, Exn, app, exception, interrupt}
use cronos_stream.World.{Trace, Effect, logged}
use cronos_stream.Errors.{handled, handle_errors}

-- How `q`, which the decorator makes of the function's end `p`, comes out: the value itself, or the
-- default behind a log entry, or the interrupt itself.
abbrev pub Caught : {A : Type 0} → A → Outcome A × Trace → Outcome A × Trace → Type 0
Caught {A} default p q =
    ((a : A) × (p.0 ≡ ok a) × (q ≡ (ok a, p.1)))
    ⊎ (((e : Exn) × (p.0 ≡ raised e) × (q ≡ (ok default, logged e ∷ p.1)))
        ⊎ ((name : String) × (p.0 ≡ raised (interrupt name))
            × (q ≡ (raised (interrupt name), p.1))))

-- A decorated function that logs and does not raise again returns what the function returns, or
-- the default, with the exception logged, where the function raises; an interrupt alone gets
-- through, and nothing else of the function's calls is lost or added.
pub handle_errors-Caught :
    {A : Type 0} (default : A) (func : Effect A) (past : Trace)
    → Caught default (func past) (handle_errors default true false func past)
unfolding handle_errors handled
handle_errors-Caught {A} default func past = go (func past)
  where
    go :
        (p : Outcome A × Trace)
        → Caught default p (elim (p.0) as (λ _. Outcome A × Trace) [
          | ok a ↦ (ok a, p.1)
          | raised e ↦ elim e as (λ _. Outcome A × Trace) [
            | app kind message ↦ (ok default, logged (app kind message) ∷ p.1)
            | exception name ↦ (ok default, logged (exception name) ∷ p.1)
            | interrupt name ↦ (raised (interrupt name), p.1)
          ]
        ])
    go (ok a, after) = inl (a, refl, refl)
    go (raised (app kind message), after) = inr (inl (app kind message, refl, refl))
    go (raised (exception name), after) = inr (inl (exception name, refl, refl))
    go (raised (interrupt name), after) = inr (inr (name, refl, refl))
