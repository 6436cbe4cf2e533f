-- ===== src/Demo/Settled.antt =====
-- The counter of payments through a session at the prompt.
use cronos_stream.Prelude.{
  suc, String, ◌≡◌, refl, Option, none, some, List, [], ◌∷◌, arith, leb, nat_has_eq, string_has_eq,
  Bool-cases, inl, inr, ◌==◌,
}
use mathlib.Core.Path.{subst}
use cronos_stream.Python.{
  Outcome, Exn, raised, exception, >>=-elim, bind_outcome, text, object, Action, pure, from_outcome,
  ◌>>=◌, ◌>>◌, when, catch, array, Value, contains, lookup, truthy, get, iterate,
}
use cronos_stream.World.{World}
use cronos_stream.Demo.{
  Screen, draw, reset_count, trigger_settlement, payment_panel, server_panel, plain_panel, asking,
  request_error, Console, outward, payment_threshold, info_of, has_one_response, settle_known,
  show_payment, show_content, settle_command,
}
use cronos_stream.Demo.Query.{show_parts, show_artifacts, ask_agent, show_answer, send_query}
use cronos_stream.Demo.Keeping.{
  Excused, Kept, Keeps, Keeps->>=, Keeps-from_outcome, Keeps-draw, Keeps-choose, Keeps-when,
  Keeps-outward, Keeps-read, Keeps->>,
}
use cronos_stream.Demo.Uninterrupted.{IsUninterrupted, IsDrawn, trigger_settlement-IsDrawn}
use cronos_stream.Demo.Query.{paid_text, read_history}

module _ (w : World) (free : IsUninterrupted w) (screen : Screen) where
  IsDrawn-Excused :
      (r : Outcome (Unit {0})) (e : Exn) (s : Console) → IsDrawn r → r ≡ raised e → Excused e s
  IsDrawn-Excused r e s (inl drawn) h = cc
  IsDrawn-Excused r e s (inr missed) h =
      subst (λ x. Excused x s) {x = exception "ConsoleError"} {y = e} (cc)
        (λ _ other. absurd (other refl))

  settle_known-named :
      (s : Console) (c : String) → Kept ((outward (trigger_settlement w screen c) >> reset_count) s)
  settle_known-named s c =
      let asks = outward (trigger_settlement w screen c) in
      >>=-elim Kept asks (λ _. reset_count) s
        (λ e h.
          IsDrawn-Excused (asks s).0 e (asks s).1
            (trigger_settlement-IsDrawn w free screen c s.trace) h)
        (λ _ h. refl)

  -- Settling leaves no count at the threshold with a channel.
  settle_known-Kept :
      (s : Console) (channel : Option String)
      → s.last_channel_id ≡ channel
      → Kept (settle_known w screen channel s)
  unfolding settle_known
  settle_known-Kept s none h = ground arith
  settle_known-Kept s (some c) h = elim (Bool-cases (c == "")) [
    | inl unnamed ↦ rw unnamed (ground arith)
    | inr named ↦ rw named (settle_known-named s c)
  ]

  pub Keeps-settle_command : Keeps (settle_command w screen)
  unfolding settle_command
  Keeps-settle_command s settled = settle_known-Kept s s.last_channel_id refl

  -- Behind the drawing of the server's data.
  settle_due-Kept :
      (s : Console)
      → Kept
          (when (leb payment_threshold s.payment_count) (settle_known w screen s.last_channel_id) s)
  settle_due-Kept s = elim (Bool-cases (leb payment_threshold s.payment_count)) [
    | inl due ↦ rw due (settle_known-Kept s s.last_channel_id refl)
    | inr early ↦ rw early (ground (arith, early))
  ]

  Keeps-show_payment : (content : String) → Keeps (show_payment w screen content)
  unfolding show_payment
  Keeps-show_payment content s settled =
      let s' : Console = record s {
        payment_count = suc s.payment_count;
        last_channel_id = lookup "Channel" (info_of content);
      } in
      elim (Bool-cases (screen.draws (payment_panel content s'.payment_count))) [
        | inr missed ↦ rw missed (λ _ other. absurd (other refl))
        | inl drawn ↦ rw drawn (elim (Bool-cases (has_one_response content)) [
          | inr other ↦ rw other (λ ne _. absurd (ne refl))
          | inl fine ↦ rw fine (elim (Bool-cases (contains content "[Server Response]")) [
            | inr bare ↦ rw bare (settle_due-Kept s')
            | inl full ↦ rw full (elim (Bool-cases (screen.draws (server_panel content))) [
              | inr missed ↦ rw missed (λ _ other. absurd (other refl))
              | inl shown ↦ rw shown (settle_due-Kept s')
            ])
          ])
        ])
      ]

  -- What is displayed of an artifact's content.
  abbrev shown : Value → Option String → Action Console (Unit {0})
  shown value content = elim content as (λ _. Action Console (Unit {0})) [
    | none ↦ draw screen (plain_panel value)
    | some s ↦ show_content w screen s
  ]

  Keeps-shown : (value : Value) (content : Option String) → Keeps (shown value content)
  unfolding show_content
  Keeps-shown value none = Keeps-draw screen (plain_panel value)
  Keeps-shown value (some s) =
      Keeps-choose (contains s "Status: PAID") (show_payment w screen s)
        (draw screen (plain_panel (text s))) (Keeps-show_payment s)
        (Keeps-draw screen (plain_panel (text s)))

  Keeps-show_parts : (parts : List Value) → Keeps (show_parts w screen parts)
  unfolding show_parts show_content
  Keeps-show_parts [] = λ s h. h
  Keeps-show_parts (p ∷ parts) =
      let rest = λ (value : Value) (content : Option String).
        shown value content >> show_parts w screen parts in
      Keeps-read (get p "text" (text "")) (λ value. from_outcome (paid_text value) >>= rest value)
        λ value. Keeps-read (paid_text value) (rest value) λ content.
          Keeps->> (shown value content) (show_parts w screen parts) (Keeps-shown value content)
            (Keeps-show_parts parts)

  Keeps-show_artifacts : (artifacts : List Value) → Keeps (show_artifacts w screen artifacts)
  unfolding show_artifacts
  Keeps-show_artifacts [] = λ s h. h
  Keeps-show_artifacts (art ∷ artifacts) =
      Keeps-read (bind_outcome (get art "parts" (array [])) iterate)
        (λ parts. show_parts w screen parts >> show_artifacts w screen artifacts)
        λ parts.
          Keeps->> (show_parts w screen parts) (show_artifacts w screen artifacts)
            (Keeps-show_parts parts) (Keeps-show_artifacts artifacts)

  -- Behind the two lists of a result.
  abbrev display : Value → Value → Action Console (Unit {0})
  display history artifacts = do
    from_outcome (bind_outcome (iterate history) (read_history screen))
    when (truthy artifacts)
        (do listed ← from_outcome (iterate artifacts); show_artifacts w screen listed)

  Keeps-display : (history artifacts : Value) → Keeps (display history artifacts)
  Keeps-display history artifacts =
      let shows = from_outcome (iterate artifacts) >>= show_artifacts w screen in
      Keeps->> (from_outcome (bind_outcome (iterate history) (read_history screen)))
        (when (truthy artifacts) shows)
        (Keeps-from_outcome (bind_outcome (iterate history) (read_history screen)))
        (Keeps-when (truthy artifacts) shows
          (Keeps-read (iterate artifacts) (show_artifacts w screen) (Keeps-show_artifacts)))

  Keeps-show_answer : (answer : Option Value) → Keeps (show_answer w screen answer)
  unfolding show_answer
  Keeps-show_answer none = λ s h. h
  Keeps-show_answer (some answer) =
      let rest = λ (result history : Value).
        from_outcome (get result "artifacts" (array [])) >>= display history in
      Keeps-read (get answer "result" (object []))
        (λ result. from_outcome (get result "history" (array [])) >>= rest result)
        λ result. Keeps-read (get result "history" (array [])) (rest result) λ history.
          Keeps-read (get result "artifacts" (array [])) (display history) (Keeps-display history)

  pub Keeps-send_query : (msg_id query : String) → Keeps (send_query w screen msg_id query)
  unfolding send_query
  Keeps-send_query msg_id query =
      let asks = outward (
        catch (do v ← ask_agent w screen msg_id query; pure (some v))
          (λ e. do draw screen (request_error e); pure none)) in
      Keeps->> (draw screen (asking query)) (asks >>= show_answer w screen)
        (Keeps-draw screen (asking query))
        (Keeps->>= asks (show_answer w screen)
          (Keeps-outward (
            catch (do v ← ask_agent w screen msg_id query; pure (some v))
              (λ e. do draw screen (request_error e); pure none)))
          Keeps-show_answer)
