-- ===== src/Sequencer/Payment.antt =====
-- sequencer/src/service.rs: `compute_next_state` and `add_amount`, and what they call of crypto.rs.
pub mod Amounts
pub mod Laws
pub mod Solvency
pub mod Credits
pub mod Exact
use cronos_stream.Prelude.{
  ℕ, suc, ◌<◌, String, ◌<>◌, Bool, true, false, Option, none, some, List, [], ◌∷◌, map, length, ltb,
  ◌==◌, nat_has_eq, if◌then◌else◌,
}
use cronos_stream.Python.{str_int}
use cronos_stream.Sequencer.{
  add_u256, add_u64, RecipientBalance, ChannelState, FeeForPayment, PayInChannelRequest,
  channel_expired, insufficient_balance, invalid_signature, malformed_signature, balance_overflow,
  internal, Result, success, failure, try_result, Update, Backend,
}

-- The recipient's entry with the amount added, or a new last entry.
unfoldable pub enter_amount : List RecipientBalance → ℕ → ℕ → ℕ → List RecipientBalance
enter_amount [] address amount position =
    record { recipient_address = address; balance = amount; position = position } ∷ []
enter_amount (r ∷ rs) address amount position =
    let rest = enter_amount rs address amount position in
    if r.recipient_address == address
    then record r { balance = add_u256 r.balance amount } ∷ rs
    else r ∷ rest

-- `position` is an `i32`; the model counts without that bound.
unfoldable pub add_amount : List RecipientBalance → ℕ → ℕ → List RecipientBalance
add_amount recipients address amount =
    if amount == 0 then recipients else enter_amount recipients address amount (length recipients)

-- `recipients.iter().fold(U256::ZERO, |acc, r| acc + r.balance)`
unfoldable pub total_from : ℕ → List RecipientBalance → ℕ
total_from acc [] = acc
total_from acc (r ∷ rs) = total_from (add_u256 acc r.balance) rs

-- A payment, once its texts are read.
pub record Payment : Type 0 where
  pub receiver : ℕ
  pub amount : ℕ
  pub fee : Option (ℕ × ℕ)

module _ (b : Backend) where
  abbrev or_malformed : Option ℕ → String → Result ℕ
  or_malformed none message = failure (malformed_signature message)
  or_malformed (some n) message = success n

  unfoldable pub parse_address : String → Result ℕ
  parse_address input = or_malformed (b.address_from_str input) ("invalid address: " <> input)

  unfoldable pub parse_b256 : String → Result ℕ
  parse_b256 input = or_malformed (b.b256_from_str input) ("invalid channel id: " <> input)

  unfoldable pub parse_u256 : String → Result ℕ
  parse_u256 input = or_malformed (b.u256_from_str input) ("invalid uint256: " <> input)

  unfoldable pub validate_timestamp : ℕ → ℕ → ℕ → Result (Unit {0})
  validate_timestamp now timestamp expiry_ts =
      if ltb (add_u64 now 900) timestamp
      then failure (internal "timestamp is too far in the future")
      else if ltb expiry_ts timestamp
      then failure channel_expired
      else success tt

  -- The data of the digest: the two lists run in parallel.
  unfoldable pub channel_update : ℕ → ℕ → ℕ → List RecipientBalance → Update
  channel_update channel_id sequence_number timestamp recipients = record {
    channel_id = channel_id;
    sequence_number = sequence_number;
    timestamp = timestamp;
    recipients = map (λ r. r.recipient_address) recipients;
    amounts = map (λ r. r.balance) recipients;
    chain_id = b.chain_id;
    verifying_contract = b.channel_manager;
  }

  unfoldable pub parse_fee : Option FeeForPayment → Result (Option (ℕ × ℕ))
  parse_fee none = success none
  parse_fee (some fee) = try_result (parse_address fee.fee_destination_address) λ fee_address.
      try_result (parse_u256 fee.fee_amount) λ fee_amount. success (some (fee_address, fee_amount))

  unfoldable pub parse_payment : PayInChannelRequest → Result Payment
  parse_payment payload = try_result (parse_address payload.receiver) λ receiver.
      try_result (parse_u256 payload.amount) λ amount.
        try_result (parse_fee payload.fee_for_payment)
          λ fee. success (record { receiver = receiver; amount = amount; fee = fee })

  unfoldable pub next_recipients : List RecipientBalance → Payment → List RecipientBalance
  next_recipients recipients payment =
      let paid = add_amount recipients payment.receiver payment.amount in
      elim (payment.fee) [ none ↦ paid | some fee ↦ add_amount paid fee.0 fee.1 ]

  -- The state behind an accepted voucher.
  unfoldable pub updated_state :
      ChannelState → PayInChannelRequest → List RecipientBalance → ChannelState
  updated_state channel payload recipients = record channel {
    sequence_number = payload.sequence_number;
    user_signature = payload.user_signature;
    sequencer_signature = "";
    signature_timestamp = payload.timestamp;
    recipients = recipients;
  }

  -- Behind the sums: the signer has to be the owner.
  unfoldable pub check_signer :
      ChannelState → PayInChannelRequest → List RecipientBalance → Result ChannelState
  check_signer channel payload recipients =
      try_result
        (b.recover
          (channel_update channel.channel_id payload.sequence_number payload.timestamp recipients)
          payload.user_signature)
        λ recovered.
          if recovered == channel.owner
          then success (updated_state channel payload recipients)
          else failure (invalid_signature (b.hex_address channel.owner) (b.hex_address recovered))

  unfoldable pub compute_next_state : ℕ → ChannelState → PayInChannelRequest → Result ChannelState
  compute_next_state now channel payload = try_result (parse_payment payload) λ payment.
      if payment.amount == 0
      then failure insufficient_balance
      else try_result (validate_timestamp now payload.timestamp channel.expiry_ts) λ _.
        let recipients = next_recipients channel.recipients payment in
        if ltb channel.balance (total_from 0 recipients)
        then failure balance_overflow
        else check_signer channel payload recipients
