-- ===== src/Sequencer/Agent/Request.antt =====
-- The sequencer's next state for a request that the agent's books stand behind.
use cronos_stream.Prelude.{
  ℕ, ◌+◌, ◌^◌, ◌≤◌, ◌<◌, String, ◌≡◌, ◌≢◌, refl, none, some, arith, nat_has_eq, string_has_eq,
}
use cronos_stream.Prelude.Int.{pos}
use cronos_stream.Python.{str_int}
use cronos_stream.Channel.{Manager}
use cronos_stream.Sequencer.{ChannelState, success, Backend}
use cronos_stream.Sequencer.Payment.{
  Payment, parse_payment, parse_address, parse_u256, parse_b256, parse_fee, validate_timestamp,
  channel_update, next_recipients, add_amount, updated_state, compute_next_state,
}
use cronos_stream.Sequencer.Payment.Amounts.{owed, total_from-eq-owed, owed-add_amount}
use cronos_stream.Sequencer.Payment.Laws.{Accepts-compute_next_state}
use cronos_stream.Sequencer.Agent.Signing.{request_for}

module _ (b : Backend) where
  pub parse_b256_lem :
      (input : String) {id : ℕ} → b.b256_from_str input ≡ some id → parse_b256 b input ≡ success id
  unfolding parse_b256
  parse_b256_lem input read = rw read refl

  pub timely :
      (now t expiry : ℕ)
      → now + 900 < 2 ^ 64
      → t ≤ now + 900
      → t ≤ expiry
      → validate_timestamp b now t expiry ≡ success tt
  unfolding validate_timestamp
  timely now t expiry clock_fits soon before = ground arith

  -- The sequencer's next state for such a request.
  abbrev pub credited : Manager → ChannelState → String → ℕ → ℕ → ℕ → String → ChannelState
  credited m c r address a t sig =
      updated_state b c (request_for m r a (c.sequence_number + 1) t sig)
        (add_amount c.recipients address a)

  pub request_accepted :
      (now : ℕ) (m : Manager) (c : ChannelState) (r sig : String) (address a t : ℕ)
      → b.address_from_str r ≡ some address
      → b.u256_from_str (str_int (pos a)) ≡ some a
      → a ≢ 0
      → owed c.recipients + a ≤ c.balance
      → c.balance < 2 ^ 256
      → validate_timestamp b now t c.expiry_ts ≡ success tt
      → b.recover
          (channel_update b c.channel_id
            (c.sequence_number + 1)
            t
            (add_amount c.recipients address a))
          sig
        ≡ success c.owner
      → compute_next_state b now c (request_for m r a (c.sequence_number + 1) t sig)
        ≡ success (credited m c r address a t sig)
  unfolding parse_payment parse_address parse_u256 parse_fee next_recipients
  request_accepted now m c r sig address a t spelt read some_amount covered fits in_time recovered =
      let payment : Payment = record { receiver = address; amount = a; fee = none } in
      let raised = owed-add_amount address a c.recipients (omega arith) in
      let summed = total_from-eq-owed (add_amount c.recipients address a) (omega (arith, raised)) in
      Accepts-compute_next_state b now c (request_for m r a (c.sequence_number + 1) t sig) payment
        (credited m c r address a t sig)
        (
          rw (spelt, read) refl,
          some_amount,
          in_time,
          omega (arith, raised, summed),
          recovered,
          refl,
        )
