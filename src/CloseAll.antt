-- ===== src/CloseAll.antt =====
-- scripts/close_all_channels.py: the agent's channels are to be closed, each by a transaction of the
-- sequencer's account. The contract's views are the parameter `Views`.
pub mod Laws
pub mod Closing
use cronos_stream.Prelude.{
  ℕ, zero, suc, String, Bool, true, false, Option, none, some, List, [], ◌∷◌, ◌==◌, string_has_eq,
  if◌then◌else◌,
}
use cronos_stream.Prelude.Int.{ℤ, pos, ltb_ℤ, int_has_eq}
use cronos_stream.Python.{
  Value, int, Outcome, ok, raised, exception, Action, pure, raise, from_outcome, bind_outcome,
  ◌>>=◌, ◌>>◌, when, choose, catch,
}
use cronos_stream.World.{
  World, Trace, TypedData, final_close, Transaction, send, transaction_count, gas_price, Effect,
  perform, read_clock, sign_by, wait_for_receipt,
}
use cronos_stream.Channel.{channel_types}

-- `channels(id)`, without the owner.
pub record Stored : Type 0 where
  pub balance : ℤ
  pub expiry : ℤ
  pub sequence : ℤ

-- The views of the contract, and `list(set(…))`, whose order the language leaves open.
pub record Views : Type 0 where
  pub channel_count : String → Outcome ℕ
  pub channel_at : String → ℕ → Outcome String
  pub stored : Trace → String → Outcome Stored
  pub unique : List String → List String

abbrev pub stream_channel_address : String
stream_channel_address = "0xE118E04431853e9df5390E1AACF36dEF6A7a0254"

abbrev pub sequencer_private_key : String
sequencer_private_key = "006be97812c4c96d97f664c9b846f92e92957a3029c7d02957e1c242062ff7a2"

-- The document of `sign_channel_state`.
unfoldable pub channel_state : String → ℤ → ℤ → List String → List ℤ → TypedData
channel_state channel sequence timestamp recipients amounts = record {
  types = channel_types;
  domain_name = "StreamChannel";
  domain_version = "1";
  chain_id = pos 338;
  verifying_contract = stream_channel_address;
  primary_type = "ChannelData";
  channel_id = channel;
  sequence_number = int sequence;
  timestamp = timestamp;
  recipients = recipients;
  amounts = amounts;
}

module _ (w : World) (views : Views) where
  -- The `try` block: the transaction, which has no gas limit of its own, and its receipt.
  unfoldable pub submit_close : String → String → ℤ → ℤ → String → Effect Bool
  submit_close sequencer channel sequence timestamp user_sig = do
    count ← perform (transaction_count sequencer) (λ past. w.nonce past sequencer)
    price ← perform gas_price w.price
    let tx : Transaction = record {
      contract = stream_channel_address;
      function = final_close channel sequence timestamp [] [] user_sig;
      sender = sequencer;
      nonce = count;
      gas = none;
      gas_price = price;
    }
    hash ← perform (send tx) (λ past. w.send_reply past tx)
    status ← wait_for_receipt w hash
    pure (status == pos 1)

  -- The owner's account is made from the key when it signs.
  unfoldable pub close_via_dual_key : String → String → ℤ → Effect Bool
  close_via_dual_key key channel sequence = do
    timestamp ← read_clock w
    account ← from_outcome (w.account_of key)
    user_sig ← sign_by w account (channel_state channel sequence timestamp [] [])
    sequencer ← from_outcome (w.account_of sequencer_private_key)
    catch (submit_close sequencer channel sequence timestamp user_sig) (λ e. pure false)

  -- One round of the loop. `close_via_contract` is a name that nothing defines.
  unfoldable pub close_one : String → ℤ → String → Effect (Unit {0})
  close_one key now channel past =
      elim (views.stored past channel) as (λ _. Outcome (Unit {0}) × Trace) [
        | raised e ↦ (raised e, past)
        | ok c ↦
            when (ltb_ℤ (pos 0) c.balance)
              (choose (ltb_ℤ c.expiry now) (raise (exception "NameError"))
                (do closed ← close_via_dual_key key channel c.sequence; pure tt))
              past
      ]

  unfoldable pub close_each : String → ℤ → List String → Effect (Unit {0})
  close_each key now [] = pure tt
  close_each key now (channel ∷ channels) = close_one key now channel >> close_each key now channels

  -- The numbers `i` to `i + k - 1`.
  unfoldable pub channel_ids : String → ℕ → ℕ → Outcome (List String)
  channel_ids user zero i = ok []
  channel_ids user (suc k) i =
      let rest = channel_ids user k (suc i) in
      bind_outcome (views.channel_at user i)
        λ channel. bind_outcome rest λ channels. ok (channel ∷ channels)

  unfoldable pub close_all : String → Effect (Unit {0})
  close_all key = do
    user ← from_outcome (w.account_of key)
    count ← from_outcome (views.channel_count user)
    now ← read_clock w
    channels ← from_outcome (channel_ids user count 0)
    close_each key now (views.unique channels)

  -- `main`: without a key nothing is done.
  unfoldable pub main : Effect (Unit {0})
  main = elim (w.env "X402_AGENT_PRIVATE_KEY") [
    | none ↦ pure tt
    | some key ↦ choose (key == "") (pure tt) (close_all key)
  ]
