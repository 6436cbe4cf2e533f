-- ===== src/Demo/Prompt.antt =====
-- demo/cli.py: the loop of the prompt.
use cronos_stream.Prelude.{
  String, Bool, true, false, ◌||◌, List, [], ◌∷◌, ◌==◌, string_has_eq, if◌then◌else◌,
}
use cronos_stream.Python.{
  Outcome, ok, raised, app, exception, interrupt, Action, pure, from_outcome, ◌>>=◌, ◌>>◌, gets,
  choose, strip, lower, contains,
}
use cronos_stream.World.{World, Trace}
use cronos_stream.Demo.{Console, Screen, draw, balance_line, settle_command}
use cronos_stream.Demo.Query.{send_query}

-- The screen, `uuid.uuid4()`, and `time.sleep(1)`, which an interrupt may end.
pub record Terminal : Type 0 where
  pub screen : Screen
  pub message_id : Trace → String
  pub sleep : Trace → Outcome (Unit {0})

-- `except KeyboardInterrupt: continue` and `except EOFError: break`: whether the loop goes on.
unfoldable pub after_round : Action Console Bool → Action Console Bool
after_round m s =
    let (r, s') = m s in
    elim r as (λ _. Outcome Bool × Console) [
      | ok more ↦ (ok more, s')
      | raised e ↦ elim e as (λ _. Outcome Bool × Console) [
        | app kind message ↦ (raised (app kind message), s')
        | exception name ↦
            if name == "EOFError" then (ok false, s') else (raised (exception name), s')
        | interrupt name ↦
            if name == "KeyboardInterrupt" then (ok true, s') else (raised (interrupt name), s')
      ]
    ]

module _ (w : World) (t : Terminal) where
  unfoldable pub ask : String → Action Console (Unit {0})
  ask line = do s ← gets (λ s. s); send_query w t.screen (t.message_id s.trace) line

  -- One round of the inner `for` loop.
  unfoldable pub ask_again : String → Action Console (Unit {0})
  ask_again line = do s ← gets (λ s. s); from_outcome (t.sleep s.trace); ask line

  unfoldable pub ask_thrice : String → Action Console (Unit {0})
  ask_thrice line = do ask line; ask_again line; ask_again line

  -- The commands, behind the stripping of the line.
  unfoldable pub command : String → Action Console Bool
  command line = choose (line == "") (pure true) (
      choose (lower line == "exit" || lower line == "quit") (pure false) (
        choose (lower line == "balance") (do draw t.screen balance_line; pure true)
          (choose (lower line == "settle") (do settle_command w t.screen; pure true)
            (choose (lower line == "help") (pure true) (
              choose (contains (lower line) "premium") (do ask_thrice line; pure true)
                (do ask line; pure true))))))

  unfoldable pub repl_round : Outcome String → Action Console Bool
  repl_round entered = after_round (do line ← from_outcome entered; command (strip line))

  -- `repl`, for what the prompt gives round by round; the loop waits where the list ends.
  unfoldable pub repl : List (Outcome String) → Action Console (Unit {0})
  repl [] = pure tt
  repl (entered ∷ later) = do more ← repl_round entered; choose more (repl later) (pure tt)
