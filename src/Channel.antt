-- ===== src/Channel.antt =====
-- a2a/a2a-service/host/channel_manager.py: the state of `ChannelManager`, its constructor,
-- `get_state`, and the EIP-712 document that every signature is made of. The children model
-- `create_voucher`, `ensure_channel` and `close_channel`.
pub mod Voucher
pub mod Ensure
pub mod Close
use cronos_stream.Prelude.{String, List, [], ◌∷◌, map}
use cronos_stream.Prelude.Int.{ℤ, pos}
use cronos_stream.Python.{
  Dict, keys, get_or, Value, int, text, object, Outcome, ok, raised, bind_outcome, Action,
}
use cronos_stream.World.{World, Trace, TypedData, Effect}

-- The fields of a `ChannelManager` that change or that its calls read. `sequence_number` is a value,
-- since `ensure_channel` stores what the sequencer's answer holds.
pub record Manager : Type 0 where
  pub channel_id : String
  pub owner : String
  pub contract_address : String
  pub chain_id : ℤ
  pub usdc_address : String
  pub sequence_number : Value
  pub cumulative_amounts : Dict ℤ

-- A manager at work: its fields, and the calls made so far.
pub record Session : Type 0 where
  pub manager : Manager
  pub trace : Trace

-- A call from within a method.
abbrev pub call : {A : Type 0} → Effect A → Action Session A
call m s = let (r, past) = m s.trace in (r, record s { trace = past })

abbrev pub usdc_token : String
usdc_token = "0xc01efAaF7C5C61bEbFAeb358E1161b537b8bC0e0"

-- `ChannelManager(private_key, channel_id, owner)`, with the module's CHANNEL_MANAGER_ADDRESS and
-- CHAIN_ID. `Account.from_key` refuses a key that is none.
unfoldable pub new_manager : World → String → ℤ → String → String → String → Outcome Manager
new_manager w contract chain private_key channel owner =
    bind_outcome (w.account_of private_key) λ account. ok (record {
      channel_id = channel;
      owner = owner;
      contract_address = contract;
      chain_id = chain;
      usdc_address = usdc_token;
      sequence_number = int (pos 0);
      cumulative_amounts = [];
    })

-- The "types" table of the document.
abbrev pub channel_types : Dict (Dict String)
channel_types =
    (
      "EIP712Domain",
      ("name", "string")
          ∷ ("version", "string")
          ∷ ("chainId", "uint256")
          ∷ ("verifyingContract", "address")
          ∷ [],
    )
    ∷ (
      "ChannelData",
      ("channelId", "bytes32")
          ∷ ("sequenceNumber", "uint256")
          ∷ ("timestamp", "uint256")
          ∷ ("recipients", "address[]")
          ∷ ("amounts", "uint256[]")
          ∷ [],
    )
    ∷ []

-- The document for a sequence number, a time, recipients and amounts, under the manager's domain.
unfoldable pub channel_data : Manager → Value → ℤ → List String → List ℤ → TypedData
channel_data m sequence timestamp recipients amounts = record {
  types = channel_types;
  domain_name = "StreamChannel";
  domain_version = "1";
  chain_id = m.chain_id;
  verifying_contract = m.contract_address;
  primary_type = "ChannelData";
  channel_id = m.channel_id;
  sequence_number = sequence;
  timestamp = timestamp;
  recipients = recipients;
  amounts = amounts;
}

-- `[self.cumulative_amounts[r] for r in recipients_list]`: every key is there, so no look-up fails.
unfoldable pub amounts_list : Dict ℤ → List String → List ℤ
amounts_list amounts recipients = map (λ r. get_or r (pos 0) amounts) recipients

abbrev balances : Dict ℤ → Dict Value
balances = map (λ e. (e.0, int e.1))

-- `get_state`
unfoldable pub get_state : Manager → Value
get_state m = object (
    ("channelId", text m.channel_id)
    ∷ ("sequenceNumber", m.sequence_number)
    ∷ ("balances", object (balances m.cumulative_amounts))
    ∷ [])
