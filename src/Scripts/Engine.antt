-- ===== src/Scripts/Engine.antt =====
-- scripts/verify_llm.py: one question to the model.
use cronos_stream.Prelude.{String, none, some, [], ◌∷◌, ◌==◌, string_has_eq, if◌then◌else◌}
use cronos_stream.Python.{pure, from_outcome, ◌>>=◌, choose, catch, contains}
use cronos_stream.World.{World, Effect}
use cronos_stream.Planner.{OpenAiClient, new_client, client_chat}

-- What is printed at the end.
pub data EngineReport : Type 0 where
  key_missing not_initialized call_failed : EngineReport
  passed other_response : (response : String) → EngineReport

module _ (w : World) where
  -- The two messages of step 3.
  unfoldable pub ask_engine : OpenAiClient → Effect EngineReport
  ask_engine client =
      catch
        (do
          response ← client_chat w client (
              ("system", "You are a helpful assistant.")
              ∷ ("user", "Say 'LLM Engine Verify Success' if you can hear me.")
              ∷ [])
          pure (if contains response "Success" then passed response else other_response response))
        (λ e. pure call_failed)

  unfoldable pub start_engine : Effect EngineReport
  start_engine = do
    client ←
        catch (do c ← from_outcome (new_client w (some "gpt-3.5-turbo")); pure (some c))
          (λ e. pure none)
    elim client as (λ _. Effect EngineReport) [
      | none ↦ pure not_initialized
      | some c ↦ ask_engine c
    ]

  -- `test_llm_engine`
  unfoldable pub llm_engine : Effect EngineReport
  llm_engine = elim (w.env "OPENAI_API_KEY") as (λ _. Effect EngineReport) [
    | none ↦ pure key_missing
    | some key ↦ choose (key == "") (pure key_missing) start_engine
  ]
