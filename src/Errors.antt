-- ===== src/Errors.antt =====
-- a2a/a2a-service/host/lib/errors: the decorator `handle_errors`.
pub mod Laws
use cronos_stream.Prelude.{Bool, true, false, ◌∷◌}
use cronos_stream.Python.{Exn, app, exception, interrupt, ok, raised}
use cronos_stream.World.{Effect, logged}

-- What a handler does with the exception that it caught. `e.log()` and `logger.exception` leave a
-- record of the exception.
unfoldable pub handled : {A : Type 0} → A → Bool → Bool → Exn → Effect A
handled default_return true true e past = (raised e, logged e ∷ past)
handled default_return true false e past = (ok default_return, logged e ∷ past)
handled default_return false true e past = (raised e, past)
handled default_return false false e past = (ok default_return, past)

-- `handle_errors(default_return=…, log=…, reraise=…)(func)`. Both wrappers, the asynchronous and
-- the synchronous one, do this, in two `except` branches that act alike.
unfoldable pub handle_errors : {A : Type 0} → A → Bool → Bool → Effect A → Effect A
unfolding handled
handle_errors default_return log reraise func past =
    let (r, past') = func past in
    elim r [
      | ok a ↦ (ok a, past')
      | raised e ↦ elim e [
        | app kind message ↦ handled default_return log reraise (app kind message) past'
        | exception name ↦ handled default_return log reraise (exception name) past'
        | interrupt name ↦ (raised (interrupt name), past')
      ]
    ]
