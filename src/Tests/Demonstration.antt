-- ===== src/Tests/Demonstration.antt =====
-- The demo in the small world.
use cronos_stream.Prelude.{
  String, List, ◌==◌, if◌then◌else◌, ◌≡◌, ◌≢◌, refl, Bool, not, true, false, none, some, [], ◌∷◌,
  eq_iff, string_has_eq,
}
use cronos_stream.Python.{
  text, array, object, Outcome, Value, ok, raised, interrupt, IsContained, ok_injective, lower,
  iterate, exception, lookup, strip, split_colon, split_lines, contains, occurrences, get, as_text,
}
use cronos_stream.World.{World}
use cronos_stream.Demo.{
  Screen, payment_panel, Console, settle_command, show_content, info_of, read_line, read_lines,
  has_one_response, show_payment, settle_known, trigger_settlement, await_receipt,
  request_settlement,
}
use cronos_stream.Demo.Query.{
  paid_text, read_history, read_parts, show_artifacts, show_parts, show_answer, agent_url,
  query_body, ask_agent, send_query,
}
use cronos_stream.Demo.Prompt.{
  Terminal, after_round, ask, ask_again, ask_thrice, command, repl_round, repl,
}
use cronos_stream.Demo.Keeping.{Kept}
use cronos_stream.Demo.Uninterrupted.{IsUninterrupted}
use cronos_stream.Demo.Session.{repl-Kept}
use mathlib.Core.Path.{subst}
use cronos_stream.Tests.{demo, receipt}

-- It draws all but a panel with a tag that closes nothing.
abbrev plain_screen : Screen
plain_screen = record {
  connected = true;
  draws = λ d. elim d as (λ _. Bool) [
    | payment_panel content count ↦ not (contains content "[/x]")
    | _ ↦ true
  ];
}

abbrev twice_paid : Console
twice_paid = record { payment_count = 2; last_channel_id = none; trace = [] }

abbrev answer : String
answer = "Status: PAID\nChannel: 0xC\n\n[Server Response]\nx"

read : lookup "Channel" (info_of answer) ≡ some "0xC"
unfolding info_of read_line read_lines split_lines split_colon strip
read = refl

-- The data of the resource is read for headers too, and the last one counts.
overridden :
    lookup "Channel" (info_of "Status: PAID\nChannel: 0xC\n\n[Server Response]\nChannel: 0xE")
    ≡ some "0xE"
unfolding info_of read_line read_lines split_lines split_colon strip
overridden = refl

named : ◌≢◌ {A = String} "0xC" ""
named h = let k : false ≡ true = (eq_iff "0xC" "").1 h in cc

shown : (show_payment demo plain_screen answer twice_paid).0 ≡ ok tt
unfolding show_payment info_of read_line read_lines split_lines split_colon strip has_one_response
    contains occurrences settle_known trigger_settlement request_settlement await_receipt get
    as_text
shown = refl

-- A panel that is refused: the payment is counted, and the settlement that is due is not asked for.
refused :
    (show_payment demo plain_screen "Status: PAID\nChannel: 0xC\nMethod: [/x]" twice_paid).0
    ≡ raised (exception "ConsoleError")
unfolding show_payment contains
refused = refl

-- The agent does not answer.
abbrev silent : World
silent = record demo { post_reply = λ past url body. raised (exception "ConnectionError") }

unanswered : (ask_agent silent plain_screen "m" "q" []).0 ≡ raised (exception "ConnectionError")
unfolding ask_agent
unanswered = refl

-- The agent reports a payment to every query.
abbrev paid_answer : Value
paid_answer = object (
    (
      "result",
      object (
          (
            "artifacts",
            array (object (("parts", array (object (("text", text answer) ∷ []) ∷ [])) ∷ []) ∷ []),
          )
          ∷ []),
    )
    ∷ [])

abbrev paying : World
paying = record demo {
  post_reply = λ past url body. ok (record {
    status = 200;
    json = ok (if url == agent_url then paid_answer else receipt);
    body = "";
  });
}

abbrev terminal : Terminal
terminal = record { screen = plain_screen; message_id = λ past. "m"; sleep = λ past. ok tt }

paying-IsUninterrupted : IsUninterrupted paying
paying-IsUninterrupted = record {
  posted = λ past url body. tt;
  decoded = λ past url body {res} h. subst (λ r. IsContained r.json) (ok_injective _ res h) tt;
  received = λ past hash. tt;
}

abbrev typed : List (Outcome String)
typed = ok " premium data " ∷ raised (interrupt "KeyboardInterrupt") ∷ ok "query" ∷ ok "EXIT" ∷ []

-- Three payments and their settlement, and one more payment.
session :
    let s =
      (repl paying terminal typed
        (record { payment_count = 0; last_channel_id = none; trace = [] })).1 in
    (s.payment_count ≡ 1) × (s.last_channel_id ≡ some "0xC")
unfolding repl repl_round after_round command strip lower contains ask_thrice ask ask_again
    send_query ask_agent query_body show_answer get iterate read_history read_parts show_artifacts
    show_parts paid_text has_one_response info_of read_line read_lines request_settlement
    settle_command settle_known show_content show_payment trigger_settlement await_receipt as_text
    occurrences split_colon split_lines
session = (refl, refl)

repl-Kept_example : Kept (repl paying terminal typed twice_paid)
repl-Kept_example = repl-Kept paying terminal paying-IsUninterrupted typed twice_paid refl
