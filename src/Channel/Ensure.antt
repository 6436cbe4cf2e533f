-- ===== src/Channel/Ensure.antt =====
-- `ChannelManager.ensure_channel`: the fast path by the sequencer, and the way over the chain.
pub mod Sync
pub mod Keeps
pub mod Opening
pub mod Strict
use cronos_stream.Prelude.{
  ℕ, String, ◌<>◌, Bool, true, false, not, some, List, [], ◌∷◌, ◌==◌, nat_has_eq, string_has_eq,
}
use cronos_stream.Prelude.Int.{ℤ, pos, ltb_ℤ, int_has_eq}
use cronos_stream.Python.{
  insert, Value, int, text, array, object, truthy, str_int, to_int, Action, pure, raise, exception,
  from_outcome, ◌>>=◌, ◌>>◌, modify, gets, when, choose, catch, get, iterate, bind_outcome,
}
use cronos_stream.World.{
  World, Response, ContractCall, approve, open_channel, Transaction, send, channel_id_of,
  allowance_of, transaction_count, gas_price, Effect, perform, http_get_with, post, read_clock,
  sign_data, wait_for_receipt,
}
use cronos_stream.Channel.{Manager, Session, call, channel_data}

abbrev set_sequence : Value → Action Session (Unit {0})
set_sequence v = modify (λ s. record s { manager = record (s.manager) { sequence_number = v } })

abbrev set_amount : String → ℤ → Action Session (Unit {0})
set_amount k n = modify λ s. record s {
  manager = record (s.manager) { cumulative_amounts = insert k n s.manager.cumulative_amounts };
}

abbrev set_channel : String → Action Session (Unit {0})
set_channel k = modify (λ s. record s { manager = record (s.manager) { channel_id = k } })

-- The payload of step 5.
unfoldable pub seed_body : Manager → ℤ → ℤ → Value
seed_body m amount expiry = object (
    ("channelId", text m.channel_id)
    ∷ ("owner", text m.owner)
    ∷ ("balance", text (str_int amount))
    ∷ ("expiryTimestamp", int expiry)
    ∷ [])

module _ (w : World) where
  -- One round of the loop over the recipients of the sequencer's answer.
  unfoldable pub sync_recipient : Value → Action Session (Unit {0})
  sync_recipient r = do
    address ← from_outcome (get r "recipientAddress" Value.null)
    balance ← from_outcome (bind_outcome (get r "balance" (text "0")) to_int)
    when (truthy address)
        (catch (do key ← from_outcome (w.checksum address); set_amount key balance) (λ e. pure tt))

  unfoldable pub sync_recipients : List Value → Action Session (Unit {0})
  sync_recipients [] = pure tt
  sync_recipients (r ∷ rs) = sync_recipient r >> sync_recipients rs

  -- What is done with an answer of status 200.
  unfoldable pub sync_view : Response → Action Session (Unit {0})
  sync_view res = do
    view ← from_outcome (res.json)
    sequence ← from_outcome (get view "sequenceNumber" (int (pos 0)))
    set_sequence sequence
    recipients ← from_outcome (bind_outcome (get view "recipients" (array [])) iterate)
    sync_recipients recipients

  -- Step 1. The result says whether the method returns here.
  unfoldable pub check_sequencer : String → Action Session Bool
  check_sequencer url = do
    m ← gets (λ s. s.manager)
    choose (not (m.channel_id == ""))
        (catch
          (do
            res ← call (http_get_with w (url <> "/channel/" <> m.channel_id) [])
            choose (res.status == 200) (do sync_view res; pure true) (pure false))
          (λ e. pure false))
        (pure false)

  -- Building, signing and sending one transaction from the owner's account.
  unfoldable pub send_transaction : String → ContractCall → ℕ → String → Effect String
  send_transaction contract function gas owner = do
    count ← perform (transaction_count owner) (λ past. w.nonce past owner)
    price ← perform gas_price w.price
    let tx : Transaction = record {
      contract = contract;
      function = function;
      sender = owner;
      nonce = count;
      gas = some gas;
      gas_price = price;
    }
    perform (send tx) (λ past. w.send_reply past tx)

  -- Step 3. The receipt of the approval is awaited, and its status is not looked at.
  unfoldable pub ensure_allowance : ℤ → Action Session (Unit {0})
  ensure_allowance amount = do
    m ← gets (λ s. s.manager)
    allowed ← call (
        perform (allowance_of m.owner m.contract_address)
          (λ past. w.allowance past m.owner m.contract_address))
    when (ltb_ℤ allowed amount) (do
      hash ←
          call (send_transaction m.usdc_address (approve m.contract_address amount) 200000 m.owner)
      status ← call (wait_for_receipt w hash)
      pure tt)

  -- `_sign_open_channel`
  unfoldable pub sign_open_channel : ℤ → Action Session String
  sign_open_channel timestamp = do
    m ← gets (λ s. s.manager)
    call (sign_data w (channel_data m (int (pos 0)) timestamp [] []))

  -- The `try` block of step 4. Its handler prints and raises the exception again.
  unfoldable pub submit_opening : ℤ → ℤ → ℤ → String → Action Session (Unit {0})
  submit_opening amount expiry timestamp signature = do
    m ← gets (λ s. s.manager)
    catch
        (do
          hash ← call (
              send_transaction m.contract_address (open_channel amount expiry timestamp signature)
                500000 m.owner)
          status ← call (wait_for_receipt w hash)
          when (not (status == pos 1)) (raise (exception "Exception")))
        raise

  -- Step 4.
  unfoldable pub open_on_chain : ℤ → ℤ → Action Session (Unit {0})
  open_on_chain amount expiry = do
    timestamp ← call (read_clock w)
    signature ← sign_open_channel timestamp
    submit_opening amount expiry timestamp signature

  -- Step 5. A refusal by the sequencer is printed, and no more.
  unfoldable pub seed_sequencer : String → ℤ → ℤ → Action Session (Unit {0})
  seed_sequencer url amount expiry = do
    m ← gets (λ s. s.manager)
    res ← call (post w (url <> "/channel/seed") (seed_body m amount expiry))
    pure tt

  -- Step 2: the identifier that the contract would give.
  unfoldable pub predict_channel : ℤ → ℤ → Action Session (Unit {0})
  predict_channel amount expiry = do
    m ← gets (λ s. s.manager)
    id ← call (
        perform (channel_id_of m.owner expiry amount)
          (λ past. w.predicted_id past m.owner expiry amount))
    set_channel ("0x" <> id)

  -- Steps 2 to 5.
  unfoldable pub open_channel_path : String → ℤ → ℤ → Action Session (Unit {0})
  open_channel_path url amount expiry = do
    predict_channel amount expiry
    ensure_allowance amount
    open_on_chain amount expiry
    seed_sequencer url amount expiry

  unfoldable pub ensure_channel : String → String → ℤ → Action Session (Unit {0})
  ensure_channel url initial_balance expiry = do
    amount ← from_outcome (to_int (text initial_balance))
    found ← check_sequencer url
    choose found (pure tt) (open_channel_path url amount expiry)
