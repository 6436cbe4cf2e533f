-- ===== src/Scripts/Settling.antt =====
-- scripts/verify_settlement.py: a finalization by the sequencer, and the merchant's balance around it.
pub mod Laws
use cronos_stream.Prelude.{
  ℕ, ◌-◌, String, ◌<>◌, Bool, Option, none, some, List, [], ◌∷◌, ltb, not, ◌==◌, nat_has_eq,
  if◌then◌else◌,
}
use cronos_stream.Prelude.Int.{pos, int_has_eq}
use cronos_stream.Python.{
  Value, null, text, object, get, as_text, Outcome, ok, pure, from_outcome, bind_outcome, ◌>>=◌,
  choose, catch,
}
use cronos_stream.World.{World, Trace, Effect, post, wait_for_receipt}

abbrev pub settlement_sequencer_url : String
settlement_sequencer_url = "http://localhost:4001"

abbrev pub settled_channel : String
settled_channel = "0x6a99273cd613dcaa127d53981cbffc8f47c5b3ebacebf205c7cd310f48e1c0d3"

-- What is printed at the end.
pub data SettlementReport : Type 0 where
  finalize_failed sequencer_error receipt_error transaction_reverted : SettlementReport
  received : (amount : ℕ) → SettlementReport
  not_increased : SettlementReport

-- `get_balance`: the token's raw balance of the merchant at the moment. The division for the text
-- may fail too.
abbrev pub Balances : Type 0
Balances = Trace → Outcome ℕ

module _ (w : World) (balances : Balances) where
  abbrev pub read_balance : Effect ℕ
  read_balance past = (balances past, past)

  -- Step 3: the transaction's hash, as the answer has it; `none` for a refusal.
  unfoldable pub finalize_request : Effect (Option Value)
  finalize_request = do
    res ←
        post w (settlement_sequencer_url <> "/channel/finalize")
          (object (("channelId", text settled_channel) ∷ []))
    choose (res.status == 200)
        (do
          hash ←
              from_outcome (bind_outcome (res.json) (λ answer. get answer "transactionHash" null))
          pure (some hash))
        (pure none)

  -- Step 5.
  unfoldable pub compare_balances : ℕ → Effect SettlementReport
  compare_balances raw_before = do
    raw_after ← read_balance
    pure (if ltb raw_before raw_after then received (raw_after - raw_before) else not_increased)

  unfoldable pub report_receipt : ℕ → Option Bool → Effect SettlementReport
  report_receipt raw_before none = pure receipt_error
  report_receipt raw_before (some fine) =
      choose fine (compare_balances raw_before) (pure transaction_reverted)

  -- Whether the transaction of step 4 has status 1.
  unfoldable pub wait_for_settlement : Value → Effect Bool
  wait_for_settlement hash = do
    h ← from_outcome (as_text hash)
    status ← wait_for_receipt w h
    pure (status == pos 1)

  -- Steps 4 and 5; `none` stands for a request that raised.
  unfoldable pub report_finalized : ℕ → Option (Option Value) → Effect SettlementReport
  report_finalized raw_before none = pure sequencer_error
  report_finalized raw_before (some none) = pure finalize_failed
  report_finalized raw_before (some (some hash)) = do
    confirmed ← catch (do c ← wait_for_settlement hash; pure (some c)) (λ e. pure none)
    report_receipt raw_before confirmed

  -- `main`. The first balance is read outside the `try` blocks.
  unfoldable pub verify_settlement : Effect SettlementReport
  verify_settlement = do
    raw_before ← read_balance
    answer ← catch (do a ← finalize_request; pure (some a)) (λ e. pure none)
    report_finalized raw_before answer
