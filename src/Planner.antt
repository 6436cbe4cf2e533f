-- ===== src/Planner.antt =====
-- a2a/a2a-service/host/lib/openai: `OpenAIClient` of client.py, and `PaywallPlanner` of planner.py.
-- The model's answer is the world's.
pub mod Laws
use cronos_stream.Prelude.{
  ℕ, suc, String, Bool, true, false, not, ◌||◌, Option, none, some, List, [], ◌∷◌, ◌==◌,
  string_has_eq, if◌then◌else◌,
}
use cronos_stream.Prelude.Int.{pos}
use cronos_stream.Python.{
  Value, null, int, text, dict, object, array, entries, lookup, or_value, get, iterate, is_dict,
  strip, truthy, Outcome, ok, raised, app, exception, llm_error, bind_outcome, from_outcome, ◌>>=◌,
}
use cronos_stream.World.{World, Effect, perform, chat}
use cronos_stream.Errors.{handle_errors}

pub record OpenAiClient : Type 0 where
  pub model : String

-- `OpenAIClient(model)`: the argument, or LLM_MODEL, or the default; a key has to be set.
unfoldable pub new_client : World → Option String → Outcome OpenAiClient
new_client w model =
    let named : String = elim (w.env "LLM_MODEL") [ none ↦ "gpt-4o-mini" | some m ↦ m ] in
    let chosen : String = elim model [ none ↦ named | some m ↦ if m == "" then named else m ] in
    elim (w.env "OPENAI_API_KEY") [
      | none ↦ raised (exception "RuntimeError")
      | some key ↦
          if key == "" then raised (exception "RuntimeError") else ok (record { model = chosen })
    ]

-- `(content or "").strip()`; a content that is truthy and no text has no `strip`.
unfoldable pub stripped : Value → Outcome String
stripped (text s) = ok (strip s)
stripped v = if truthy v then raised (exception "AttributeError") else ok ""

-- `chat(messages)`, with the client's own model
unfoldable pub client_chat : World → OpenAiClient → List (String × String) → Effect String
client_chat w client messages = do
  content ← perform (chat client.model messages) (λ past. w.chat_reply past client.model messages)
  from_outcome (stripped content)

unfoldable pub summarize_resource : ℕ → Value → Outcome Value
summarize_resource ri r = bind_outcome (get r "url" null) λ url.
    bind_outcome (get r "description" (text "")) λ description.
      bind_outcome (get r "paywall" null) λ paywall.
        bind_outcome (get (or_value paywall (object [])) "protocol" null) λ protocol. ok (
          object (
            ("resourceIndex", int (pos ri))
            ∷ ("url", url)
            ∷ ("description", description)
            ∷ ("paywallProtocol", protocol)
            ∷ []))

unfoldable pub summarize_resources : ℕ → List Value → Outcome (List Value)
summarize_resources ri [] = ok []
summarize_resources ri (r ∷ rs) =
    bind_outcome (summarize_resource ri r)
      λ first. bind_outcome (summarize_resources (suc ri) rs) λ rest. ok (first ∷ rest)

unfoldable pub summarize_agent : ℕ → Value → Outcome Value
summarize_agent ai agent = bind_outcome (get agent "card" (object [])) λ found.
    let card = or_value found (object []) in
    bind_outcome (get card "resources" (array [])) λ resources.
      bind_outcome (get agent "name" (text "unknown")) λ own_name.
        bind_outcome (get card "name" own_name) λ name.
          bind_outcome (get agent "baseUrl" null) λ base_url.
            bind_outcome (iterate (or_value resources (array []))) λ listed.
              bind_outcome (summarize_resources 0 listed) λ summaries. ok (
                object (
                  ("agentIndex", int (pos ai))
                  ∷ ("name", name)
                  ∷ ("baseUrl", base_url)
                  ∷ ("resources", array summaries)
                  ∷ []))

unfoldable pub summarize : ℕ → List Value → Outcome (List Value)
summarize ai [] = ok []
summarize ai (agent ∷ agents) =
    bind_outcome (summarize_agent ai agent)
      λ first. bind_outcome (summarize (suc ai) agents) λ rest. ok (first ∷ rest)

abbrev pub system_prompt : String
system_prompt =
    "Select the best agent resource for the user query.\nReturn ONLY valid JSON (no markdown, no prose).\nIf no x402 resource exists, return null.\nSchema: {\"agentIndex\": number, \"resourceIndex\": number, \"reason\": string}\n"

-- `key in obj`
abbrev pub has_key : String → Value → Bool
has_key k (dict fs) = elim (lookup k (entries fs)) [ none ↦ false | some v ↦ true ]
has_key k _ = false

-- The answer's JSON, once it is read.
unfoldable pub checked_choice : Value → Outcome Value
checked_choice obj =
    if not (is_dict obj) || not (has_key "agentIndex" obj) || not (has_key "resourceIndex" obj)
    then raised (app llm_error "Planner returned JSON but not the expected schema")
    else ok obj

-- `json.loads(text)`, whose decoding errors become `LlmError`
unfoldable pub decoded : Outcome Value → Outcome Value
decoded (ok v) = ok v
decoded (raised (exception name)) =
    if name == "JSONDecodeError"
    then raised (app llm_error "Planner returned invalid JSON")
    else raised (exception name)
decoded (raised e) = raised e

-- What the answer's text means; `null` stands for `None`.
unfoldable pub read_choice : World → String → Outcome Value
read_choice w answer =
    if strip answer == "null"
    then ok null
    else bind_outcome (decoded (w.json_loads (strip answer))) checked_choice

-- The body of the method.
unfoldable pub plan : World → OpenAiClient → Value → List Value → Effect Value
plan w client query agents = do
  summarized ← from_outcome (summarize 0 agents)
  answer ← client_chat w client (
      ("system", system_prompt)
      ∷ ("user", w.json_dumps (object (("query", query) ∷ ("agents", array summarized) ∷ [])))
      ∷ [])
  from_outcome (read_choice w answer)

unfoldable pub choose_target : World → OpenAiClient → Value → List Value → Effect Value
choose_target w client query agents = handle_errors null true false (plan w client query agents)
