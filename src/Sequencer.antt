-- ===== src/Sequencer.antt =====
-- sequencer/src/model.rs and error.rs: the state that the sequencer keeps of each channel, its
-- requests and its answers. The children model the functions of service.rs.
pub mod Payment
pub mod Service
pub mod PayVoucher
pub mod Agent
use cronos_stream.Prelude.{ℕ, ◌+◌, ◌%◌, ◌^◌, String, Option, List}
use cronos_stream.Python.{Dict}

-- `U256` and `u64`, whose `+` goes round.
abbrev pub add_u256 : ℕ → ℕ → ℕ
add_u256 a b = (a + b) % 2 ^ 256

abbrev pub add_u64 : ℕ → ℕ → ℕ
add_u64 a b = (a + b) % 2 ^ 64

pub record RecipientBalance : Type 0 where
  pub recipient_address : ℕ
  pub balance : ℕ
  pub position : ℕ

pub record ChannelState : Type 0 where
  pub channel_id : ℕ
  pub owner : ℕ
  pub balance : ℕ
  pub expiry_ts : ℕ
  pub sequence_number : ℕ
  pub user_signature : String
  pub sequencer_signature : String
  pub signature_timestamp : ℕ
  pub recipients : List RecipientBalance

pub record FeeForPayment : Type 0 where
  pub fee_destination_address : String
  pub fee_amount : String

pub record PayInChannelRequest : Type 0 where
  pub channel_id : String
  pub amount : String
  pub receiver : String
  pub sequence_number : ℕ
  pub timestamp : ℕ
  pub user_signature : String
  pub purpose : Option String
  pub fee_for_payment : Option FeeForPayment

pub record SeedChannelRequest : Type 0 where
  pub channel_id : String
  pub owner : String
  pub balance : String
  pub expiry_timestamp : ℕ

pub record RecipientView : Type 0 where
  pub recipient_address : String
  pub balance : String

pub record ChannelView : Type 0 where
  pub channel_id : String
  pub owner : String
  pub balance : String
  pub expiry_timestamp : ℕ
  pub sequence_number : ℕ
  pub user_signature : String
  pub sequencer_signature : String
  pub signature_timestamp : ℕ
  pub recipients : List RecipientView

-- `AppError` of error.rs.
pub data SequencerError : Type 0 where
  channel_not_found : String → SequencerError
  channel_expired : SequencerError
  insufficient_balance : SequencerError
  invalid_signature : (expected actual : String) → SequencerError
  malformed_signature : String → SequencerError
  invalid_sequence_number : (expected actual : ℕ) → SequencerError
  balance_overflow : SequencerError
  database : String → SequencerError
  contract_call : String → SequencerError
  internal : String → SequencerError

pub data Result (A : Type 0) : Type 0 where
  success : A → Result A
  failure : SequencerError → Result A

abbrev pub try_result : {A B : Type 0} → Result A → (A → Result B) → Result B
try_result (success a) f = f a
try_result (failure e) f = failure e

-- What a channel update signs, of which crypto.rs makes the digest.
pub record Update : Type 0 where
  pub channel_id : ℕ
  pub sequence_number : ℕ
  pub timestamp : ℕ
  pub recipients : List ℕ
  pub amounts : List ℕ
  pub chain_id : ℕ
  pub verifying_contract : ℕ

-- What the service takes from its libraries and its configuration: reading and writing of
-- addresses, hashes and numbers, recovery of a signer and signing of an update, and the clock and
-- the database of the moment.
pub record Backend : Type 0 where
  pub address_from_str : String → Option ℕ
  pub b256_from_str : String → Option ℕ
  pub u256_from_str : String → Option ℕ
  pub hex_b256 : ℕ → String
  pub hex_address : ℕ → String
  pub decode_hex : String → Option (List ℕ)
  pub recover : Update → String → Result ℕ
  pub sign : Update → Result String
  pub chain_id : ℕ
  pub channel_manager : ℕ

pub record Moment : Type 0 where
  pub now : ℕ
  pub save_channel : ChannelState → Result (Unit {0})

-- The in-memory map, by the text of the identifier that a request gives.
abbrev pub Channels : Type 0
Channels = Dict ChannelState
