-- ===== src/Demo/Query.antt =====
-- demo/cli.py: `send_query`.
use cronos_stream.Prelude.{
  String, Bool, false, ◌&&◌, ◌||◌, Option, none, some, List, [], ◌∷◌, code, leb, ltb, ◌==◌,
  nat_has_eq, string_has_eq, if◌then◌else◌,
}
use cronos_stream.Python.{
  Value, int, text, list, dict, array, object, elements, entries, lookup, truthy, get, as_text,
  iterate, is_text, Outcome, ok, raised, Action, pure, raise, exception, from_outcome, bind_outcome,
  ◌>>=◌, ◌>>◌, when, catch,
}
use cronos_stream.Prelude.Int.{pos}
use cronos_stream.World.{World, Effect, post}
use cronos_stream.Demo.{
  Console, Screen, draw, asking, request_error, trace_text, plain_panel, outward, show_content,
}

abbrev pub agent_url : String
agent_url = "http://localhost:9001/rpc"

-- `payload`, whose message has the identifier `msg_id`.
unfoldable pub query_body : String → String → Value
query_body msg_id query =
    let part = object (
      ("kind", text "data")
      ∷ (
        "data",
        object (
            ("discoveryUrls", array (text "http://localhost:8787" ∷ []))
            ∷ ("query", text query)
            ∷ []),
      )
      ∷ []) in
    let message =
      object
        (("messageId", text msg_id) ∷ ("role", text "user") ∷ ("parts", array (part ∷ [])) ∷ []) in
    object (
      ("jsonrpc", text "2.0")
      ∷ ("method", text "message/send")
      ∷ ("params", object (("message", message) ∷ []))
      ∷ ("id", int (pos 1))
      ∷ [])

any_text : String → List Value → Bool
any_text t [] = false
any_text t (v ∷ vs) = is_text v t || any_text t vs

-- `"Status: PAID" in content`, and the text that is then read: none where the test fails.
unfoldable pub paid_text : Value → Outcome (Option String)
unfolding any_text
paid_text (text s) = ok (some s)
paid_text (list vs) =
    if any_text "Status: PAID" (elements vs) then raised (exception "AttributeError") else ok none
paid_text (dict fs) = elim (lookup "Status: PAID" (entries fs)) [
  | none ↦ ok none
  | some v ↦ raised (exception "AttributeError")
]
paid_text _ = raised (exception "TypeError")

-- A step that is text and not a document.
abbrev draw_step : Screen → String → Outcome (Unit {0})
draw_step screen (String.◌∷◌ c s) =
    if code c == 123 || screen.draws (trace_text (String.◌∷◌ c s))
    then ok tt
    else raised (exception "ConsoleError")
draw_step screen String.[] = ok tt

-- The part of the trace that is displayed: what it reads may be missing.
unfoldable pub read_parts : Screen → List Value → Outcome (Unit {0})
read_parts screen [] = ok tt
read_parts screen (p ∷ parts) =
    let rest = read_parts screen parts in
    bind_outcome (get p "text" (text "")) λ content.
      if truthy content
      then bind_outcome (as_text content) (λ s. bind_outcome (draw_step screen s) (λ _. rest))
      else rest

unfoldable pub read_history : Screen → List Value → Outcome (Unit {0})
read_history screen [] = ok tt
read_history screen (step ∷ steps) =
    let rest = read_history screen steps in
    bind_outcome (bind_outcome (get step "role" (text "unknown")) as_text) λ role.
      bind_outcome (bind_outcome (get step "parts" (array [])) iterate)
        λ parts. bind_outcome (read_parts screen parts) λ _. rest

module _ (w : World) (screen : Screen) where
  unfoldable pub show_parts : List Value → Action Console (Unit {0})
  show_parts [] = pure tt
  show_parts (p ∷ parts) = do
    value ← from_outcome (get p "text" (text ""))
    content ← from_outcome (paid_text value)
    elim content as (λ _. Action Console (Unit {0})) [
      | none ↦ draw screen (plain_panel value)
      | some s ↦ show_content w screen s
    ]
    show_parts parts

  unfoldable pub show_artifacts : List Value → Action Console (Unit {0})
  show_artifacts [] = pure tt
  show_artifacts (art ∷ artifacts) = do
    parts ← from_outcome (bind_outcome (get art "parts" (array [])) iterate)
    show_parts parts
    show_artifacts artifacts

  -- The body of the `try`: the agent's answer.
  unfoldable pub ask_agent : String → String → Effect Value
  ask_agent msg_id query = do
    res ← post w agent_url (query_body msg_id query)
    when (leb 400 res.status && ltb res.status 600) (raise (exception "HTTPError"))
    from_outcome (res.json)

  -- The result that is shown; `none` where the request failed.
  unfoldable pub show_answer : Option Value → Action Console (Unit {0})
  show_answer none = pure tt
  show_answer (some answer) = do
    result ← from_outcome (get answer "result" (object []))
    history ← from_outcome (get result "history" (array []))
    artifacts ← from_outcome (get result "artifacts" (array []))
    from_outcome (bind_outcome (iterate history) (read_history screen))
    when (truthy artifacts) (do listed ← from_outcome (iterate artifacts); show_artifacts listed)

  unfoldable pub send_query : String → String → Action Console (Unit {0})
  send_query msg_id query = do
    draw screen (asking query)
    answer ← outward (
        catch (do v ← ask_agent msg_id query; pure (some v))
          (λ e. do draw screen (request_error e); pure none))
    show_answer answer
