-- ===== src/Tests/Agreement.antt =====
-- The small world's manager and the sequencer's channel, and a payment that wraps round.
use cronos_stream.Prelude.{
  ℕ, ◌-◌, ◌^◌, ◌<◌, String, ◌≡◌, ◌≢◌, refl, none, some, [], ◌∷◌, arith, eq_iff, nat_has_eq,
  string_has_eq,
}
use cronos_stream.Prelude.Int.{pos, ◌+ℤ◌}
use cronos_stream.Python.{int, str_int, parse_int, ok, add_one}
use cronos_stream.Python.Number.RoundTrip.{parse_int-str_int}
use cronos_stream.Channel.Voucher.{create_voucher, voucher_of}
use cronos_stream.Sequencer.{ChannelState, PayInChannelRequest, success}
use cronos_stream.Sequencer.Payment.Amounts.{owed, owed_to}
use cronos_stream.Sequencer.Payment.{
  Payment, enter_amount, add_amount, total_from, parse_address, parse_u256, parse_fee,
  parse_payment, validate_timestamp, next_recipients, updated_state, check_signer,
  compute_next_state,
}
use cronos_stream.Sequencer.Payment.Solvency.{compute_next_state-wraps}
use cronos_stream.Sequencer.Agent.{OneSpelling, Agrees, SignsAs}
use cronos_stream.Sequencer.Agent.Accepted.{create_voucher-settle}
use cronos_stream.Tests.{demo, manager, start}
use cronos_stream.Tests.Sequencing.{backend, moment, channel, channels, request}

pub signs_as : SignsAs backend demo 9
signs_as past doc u sig encodes signed =
    ground (arith, eq_iff sig "0xsig", eq_iff sig "", eq_iff "0xsig" "")

pub decimal : (n : ℕ) → n < 2 ^ 256 → backend.u256_from_str (str_int (pos n)) ≡ some n
decimal n h = rw (parse_int-str_int (pos n)) (ground arith)

pub agrees : Agrees backend manager channel
agrees = record {
  channel = refl;
  chain = refl;
  contract = refl;
  number = refl;
  distinct = (refl, (refl, tt));
  books = (refl, refl, (refl, refl, tt));
}

pub one_spelling : OneSpelling backend "0xB" 2 manager.cumulative_amounts
one_spelling = (λ h. cc, (λ h. refl, tt))

named : ◌≢◌ {A = String} "p1" ""
named h = cc

pub known : ◌≢◌ {A = String} "0xC" ""
known h = cc

pub to_whom : ◌≢◌ {A = String} "0xB" ""
to_whom h = cc

pub issued :
    (create_voucher demo "0xB" (pos 5) start).0
    ≡ ok (
        voucher_of
          (record manager { sequence_number = int (pos 5) })
          "0xB"
          (pos 5)
          (pos 1000)
          "0xsig"
          (pos 25))
unfolding create_voucher add_one voucher_of ◌+ℤ◌
issued = refl

create_voucher-settle_example :
    (u : ChannelState) × Agrees backend (create_voucher demo "0xB" (pos 5) start).1.manager u
    × (owed u.recipients ≡ 35)
create_voucher-settle_example =
    let (_, _, u, _, agree, _, _, _, raised) =
      create_voucher-settle demo backend moment (λ u. "0xco") (λ u. refl) (λ u. refl) start channel
        channels "p1" "0xB" 2 5 1000 0 signs_as decimal agrees refl refl one_spelling named known
        to_whom (omega arith) (omega arith) (omega arith) (omega arith) (omega arith) refl
        (omega arith) (omega arith) (omega arith) issued in
    (u, agree, raised)

-- A voucher for 2^256 − 20, to one who is owed 20.
abbrev wrapping : PayInChannelRequest
wrapping = record request {
  amount = "115792089237316195423570985008687907853269984665640564039457584007913129639916";
}

abbrev huge : Payment
huge = record { receiver = 2; amount = 2 ^ 256 - 20; fee = none }

abbrev emptied : ChannelState
emptied = record channel {
  sequence_number = 5;
  user_signature = "0xsig";
  sequencer_signature = "";
  signature_timestamp = 1000;
  recipients =
      record { recipient_address = 1; balance = 10; position = 0 }
      ∷ record { recipient_address = 2; balance = 0; position = 1 }
      ∷ [];
}

accepted : compute_next_state backend 1000 channel wrapping ≡ success emptied
unfolding compute_next_state check_signer parse_payment parse_address parse_u256 parse_fee
    validate_timestamp next_recipients add_amount enter_amount total_from updated_state parse_int
accepted = refl

read_huge : parse_payment backend wrapping ≡ success huge
unfolding parse_payment parse_address parse_u256 parse_fee parse_int
read_huge = refl

compute_next_state-wraps_example : owed_to 2 emptied.recipients ≡ 0
compute_next_state-wraps_example =
    compute_next_state-wraps backend 1000 channel wrapping read_huge refl refl (omega arith)
      accepted
