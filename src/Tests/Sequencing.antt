-- ===== src/Tests/Sequencing.antt =====
-- The sequencer with the small world's channel.
use cronos_stream.Prelude.{
  zero, suc, List, ◌++◌, ℕ, ◌+◌, ◌^◌, ◌≤◌, String, ◌≡◌, ◌↔◌, ◌≢◌, refl, Option, none, some, [], ◌∷◌,
  arith, ltb, ◌==◌, nat_has_eq, string_has_eq, if◌then◌else◌,
}
use cronos_stream.Prelude.Int.{ℤ, pos, negsuc}
use cronos_stream.Python.{parse_int}
use cronos_stream.Sequencer.{
  ChannelState, PayInChannelRequest, Result, success, failure, malformed_signature, database,
  try_result, Backend, Moment, Channels,
}
use cronos_stream.Sequencer.Payment.{
  Payment, enter_amount, add_amount, total_from, parse_address, parse_b256, parse_u256, parse_fee,
  parse_payment, validate_timestamp, next_recipients, updated_state, check_signer,
  compute_next_state,
}
use cronos_stream.Sequencer.Payment.Amounts.{owed, owed_to}
use cronos_stream.Sequencer.Payment.Exact.{IsDue, compute_next_state_iff}
use cronos_stream.Sequencer.Payment.Solvency.{due_to, compute_next_state-owed}
use cronos_stream.Sequencer.Service.{
  from_state, find_channel, cosign, store_next, accept_next, settle_channel, settle_found, settle,
  validate_pay_in_channel,
}
use cronos_stream.Sequencer.Service.Invariant.{AllSound, here, next, settles, Reach-AllSound}
use cronos_stream.Sequencer.Service.Replies.{settle-settle, settle_unsaved}
use cronos_stream.Sequencer.Service.Validation.{unsigned, validate_pay_in_channel-settle}

abbrev known_address : String → Option ℕ
known_address s =
    if s == "0xA"
    then some 1
    else if s == "0xB"
    then some 2
    else if s == "0xE"
    then some 7
    else none

abbrev word : Option ℤ → Option ℕ
word none = none
word (some (negsuc n)) = none
word (some (pos n)) = if ltb n (2 ^ 256) then some n else none

abbrev pub replicate : ℕ → ℕ → List ℕ
replicate zero x = []
replicate (suc n) x = x ∷ replicate n x

abbrev pub signature_bytes : List ℕ
signature_bytes = (9 ∷ replicate 31 0) ++ (1 ∷ replicate 31 0) ++ 27 ∷ []

abbrev pub recovered : String → Result ℕ
recovered sig = if sig == "0xsig" then success 9 else failure (malformed_signature "none")

-- A signature of 65 bytes: its first number is the signer, and its last is 27.
abbrev decoded : String → Option (List ℕ)
decoded s = if s == "sig" then some signature_bytes else none

abbrev pub backend : Backend
backend = record {
  address_from_str = known_address;
  b256_from_str = λ s. if s == "0xC" then some 100 else none;
  u256_from_str = λ s. word (parse_int s);
  hex_b256 = λ n. if n == 100 then "0xC" else "0x";
  hex_address = λ n. if n == 1 then "0xA" else if n == 2 then "0xB" else "0x";
  decode_hex = decoded;
  recover = λ u sig. recovered sig;
  sign = λ u. success "0xco";
  chain_id = 338;
  channel_manager = 7;
}

abbrev pub moment : Moment
moment = record { now = 1000; save_channel = λ c. success tt }

abbrev pub channel : ChannelState
channel = record {
  channel_id = 100;
  owner = 9;
  balance = 100;
  expiry_ts = 5000;
  sequence_number = 4;
  user_signature = "0xold";
  sequencer_signature = "0xco";
  signature_timestamp = 900;
  recipients =
      record { recipient_address = 1; balance = 10; position = 0 }
      ∷ record { recipient_address = 2; balance = 20; position = 1 }
      ∷ [];
}

abbrev pub channels : Channels
channels = ("0xC", channel) ∷ []

abbrev pub request : PayInChannelRequest
request = record {
  channel_id = "0xC";
  amount = "5";
  receiver = "0xB";
  sequence_number = 5;
  timestamp = 1000;
  user_signature = "0xsig";
  purpose = none;
  fee_for_payment = none;
}

abbrev pub payment : Payment
payment = record { receiver = 2; amount = 5; fee = none }

-- The channel behind the request, before and behind the sequencer's signature.
abbrev updated : ChannelState
updated = record channel {
  sequence_number = 5;
  user_signature = "0xsig";
  sequencer_signature = "";
  signature_timestamp = 1000;
  recipients =
      record { recipient_address = 1; balance = 10; position = 0 }
      ∷ record { recipient_address = 2; balance = 25; position = 1 }
      ∷ [];
}

abbrev pub settled : ChannelState
settled = record updated { sequencer_signature = "0xco" }

computed : compute_next_state backend 1000 channel request ≡ success updated
unfolding compute_next_state check_signer parse_payment parse_address parse_u256 parse_fee
    validate_timestamp next_recipients add_amount enter_amount total_from updated_state parse_int
computed = refl

pub answered :
    settle backend moment request channels
    ≡ (success (from_state backend settled), ("0xC", settled) ∷ [])
unfolding settle settle_found settle_channel find_channel accept_next store_next cosign parse_b256
answered = rw computed refl

compute_next_state_iff_example :
    (compute_next_state backend 1000 channel request ≡ success updated)
    ↔ ((payment : Payment) × IsDue backend 1000 channel request payment updated)
compute_next_state_iff_example = compute_next_state_iff backend 1000 channel updated request

sound : AllSound channels
unfolding AllSound total_from
sound = (((refl, (refl, tt)), omega arith), tt)

Reach-AllSound_example : AllSound (settle backend moment request channels).1
Reach-AllSound_example =
    Reach-AllSound backend channels (settle backend moment request channels).1 sound
      (next here (settles moment request channels))

pub read_payment : parse_payment backend request ≡ success payment
unfolding parse_payment parse_address parse_u256 parse_fee parse_int
read_payment = refl

compute_next_state-owed_example :
    (updated.balance ≡ 100)
    × (owed updated.recipients ≡ 35)
    × (owed updated.recipients ≤ 100)
    × ((j : ℕ) → owed_to j updated.recipients ≡ owed_to j channel.recipients + due_to j payment)
compute_next_state-owed_example =
    compute_next_state-owed backend 1000 channel request read_payment (omega arith) computed

read_channel : parse_b256 backend "0xC" ≡ success 100
unfolding parse_b256
read_channel = refl

validate_pay_in_channel-settle_example :
    unsigned (validate_pay_in_channel backend 1000 request channels)
    ≡ unsigned (settle backend moment request channels).0
validate_pay_in_channel-settle_example =
    validate_pay_in_channel-settle backend moment (λ u. "0xco") (λ u. refl) (λ u. refl) request
      channels read_channel

settle-settle_example :
    settle backend moment request (("0xC", settled) ∷ [])
    ≡ (success (from_state backend settled), ("0xC", settled) ∷ [])
settle-settle_example = settle-settle backend moment moment request channels answered

computed_and_signed :
    try_result (compute_next_state backend 1000 channel request) (cosign backend) ≡ success settled
unfolding cosign
computed_and_signed = rw computed refl

-- A database that is down.
abbrev down : Moment
down = record moment { save_channel = λ c. failure (database "down") }

settle_unsaved_example :
    (settle backend down request channels ≡ (failure (database "down"), ("0xC", settled) ∷ []))
    × (settle backend moment request (("0xC", settled) ∷ [])
        ≡ (success (from_state backend settled), ("0xC", settled) ∷ []))
settle_unsaved_example =
    settle_unsaved backend down moment request channels read_channel refl refl computed_and_signed
      refl

pub new_number : ◌≢◌ {A = ℕ} 5 4
new_number h = omega arith

new_time : ◌≢◌ {A = ℕ} 1000 0
new_time h = omega arith

pub signed : ◌≢◌ {A = String} "0xsig" ""
signed h = cc

pub in_time : validate_timestamp backend 1100 1000 5000 ≡ success tt
unfolding validate_timestamp
in_time = refl
