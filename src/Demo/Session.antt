-- ===== src/Demo/Session.antt =====
-- The counter of payments through a session at the prompt.
use cronos_stream.Prelude.{
  String, Bool, true, false, ◌||◌, ◌≡◌, List, [], ◌∷◌, ◌==◌, nat_has_eq, string_has_eq, eq_iff,
  Bool-cases, inl, inr,
}
use cronos_stream.Python.{
  Outcome, ok, raised, app, exception, interrupt, Action, pure, from_outcome, ◌>>=◌, ◌>>◌, choose,
  lower, strip, contains,
}
use cronos_stream.World.{World}
use cronos_stream.Demo.{Console, draw, balance_line, settle_command}
use cronos_stream.Demo.Prompt.{
  Terminal, after_round, ask, ask_again, ask_thrice, command, repl_round, repl,
}
use cronos_stream.Demo.Keeping.{
  IsSettled, Kept, Keeps, Keeps->>=, Keeps-choose, Keeps-pure, Keeps-draw, Keeps-read, Keeps->>,
}
use cronos_stream.Demo.Uninterrupted.{IsUninterrupted}
use cronos_stream.Demo.Settled.{Keeps-settle_command, Keeps-send_query}

-- The two exceptions that end a round are taken, and the others are passed on.
Keeps-after_round : (m : Action Console Bool) → Keeps m → Keeps (after_round m)
unfolding after_round
Keeps-after_round m h s settled = go (m s) (h s settled)
  where
    go : (p : Outcome Bool × Console) → Kept p → Kept (after_round (λ _. p) s)
    go (ok more, s') k = k
    go (raised (app kind message), s') k = k
    go (raised (exception name), s') k = elim (Bool-cases (name == "EOFError")) [
      | inl ended ↦ rw ended (
          k (λ same. let read : name ≡ "EOFError" = (eq_iff name "EOFError").0 ended in cc)
            (λ same. let read : name ≡ "EOFError" = (eq_iff name "EOFError").0 ended in cc))
      | inr other ↦ rw other k
    ]
    go (raised (interrupt name), s') k = elim (Bool-cases (name == "KeyboardInterrupt")) [
      | inl again ↦ rw again k
      | inr other ↦ rw other k
    ]

module _ (w : World) (t : Terminal) (free : IsUninterrupted w) where
  Keeps-ask : (line : String) → Keeps (ask w t line)
  unfolding ask
  Keeps-ask line s settled = Keeps-send_query w free t.screen (t.message_id s.trace) line s settled

  Keeps-ask_again : (line : String) → Keeps (ask_again w t line)
  unfolding ask_again
  Keeps-ask_again line s settled =
      Keeps-read (t.sleep s.trace) (λ _. ask w t line) (λ _. Keeps-ask line) s settled

  Keeps-ask_thrice : (line : String) → Keeps (ask_thrice w t line)
  unfolding ask_thrice
  Keeps-ask_thrice line =
      Keeps->> (ask w t line) (ask_again w t line >> ask_again w t line) (Keeps-ask line) (
        Keeps->> (ask_again w t line) (ask_again w t line) (Keeps-ask_again line)
          (Keeps-ask_again line))

  -- Going on behind an action keeps what the action keeps.
  Keeps-then : (m : Action Console (Unit {0})) → Keeps m → Keeps (m >> pure true)
  Keeps-then m h = Keeps->> m (pure true) h (Keeps-pure true)

  Keeps-command : (line : String) → Keeps (command w t line)
  unfolding command
  Keeps-command line =
      let on = pure {S = Console} true in
      let asks =
        choose (contains (lower line) "premium") (ask_thrice w t line >> on) (ask w t line >> on) in
      let helps = choose (lower line == "help") on asks in
      let settles = choose (lower line == "settle") (settle_command w t.screen >> on) helps in
      let tells = draw t.screen balance_line >> on in
      let shows = choose (lower line == "balance") tells settles in
      let ends =
        choose (lower line == "exit" || lower line == "quit") (pure {S = Console} false) shows in
      Keeps-choose (line == "") on ends (Keeps-pure true) (
        Keeps-choose (lower line == "exit" || lower line == "quit") (pure false) shows
          (Keeps-pure false)
          (Keeps-choose (lower line == "balance") tells settles
            (Keeps-then (draw t.screen balance_line) (Keeps-draw t.screen balance_line))
            (Keeps-choose (lower line == "settle") (settle_command w t.screen >> on) helps
              (Keeps-then (settle_command w t.screen) (Keeps-settle_command w free t.screen))
              (Keeps-choose (lower line == "help") on asks (Keeps-pure true) (
                Keeps-choose (contains (lower line) "premium") (ask_thrice w t line >> on)
                  (ask w t line >> on) (Keeps-then (ask_thrice w t line) (Keeps-ask_thrice line))
                  (Keeps-then (ask w t line) (Keeps-ask line)))))))

  Keeps-repl_round : (entered : Outcome String) → Keeps (repl_round w t entered)
  unfolding repl_round
  Keeps-repl_round entered =
      Keeps-after_round (do line ← from_outcome entered; command w t (strip line))
        (Keeps-read entered (λ line. command w t (strip line)) (λ line. Keeps-command (strip line)))

  Keeps-repl : (entered : List (Outcome String)) → Keeps (repl w t entered)
  unfolding repl
  Keeps-repl [] = λ s h. h
  Keeps-repl (entered ∷ later) =
      Keeps->>= (repl_round w t entered) (λ more. choose more (repl w t later) (pure tt))
        (Keeps-repl_round entered)
        λ more. Keeps-choose more (repl w t later) (pure tt) (Keeps-repl later) (Keeps-pure tt)

  -- Whatever is entered at the prompt, and whatever the agent and the sequencer answer without an
  -- interrupt: if at the start the count of payments is below the threshold or no channel is known,
  -- this holds when the session ends or waits for more input. It holds too when an exception ends
  -- it, unless that is a `ValueError`, or that a drawing was refused.
  pub repl-Kept :
      (entered : List (Outcome String)) (s : Console) → IsSettled s → Kept (repl w t entered s)
  repl-Kept entered = Keeps-repl entered
