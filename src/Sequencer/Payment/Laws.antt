-- ===== src/Sequencer/Payment/Laws.antt =====
-- What `compute_next_state` accepts, and the state that it gives.
use cronos_stream.Prelude.{
  ℕ, ◌+◌, ◌^◌, ◌≤◌, ◌<◌, ◌≡◌, ◌≢◌, refl, List, arith, nat_has_eq, nat_eq_iff,
}
use cronos_stream.Sequencer.{
  RecipientBalance, ChannelState, PayInChannelRequest, Result, success, failure, try_result,
  Backend,
}
use cronos_stream.Sequencer.Payment.{
  total_from, Payment, validate_timestamp, channel_update, parse_payment, next_recipients,
  updated_state, check_signer, compute_next_state,
}
use cronos_stream.Sequencer.Payment.Amounts.{
  owed, Distinct, cost, add_amount-Distinct, owed-add_amount,
}

pub try_result-eq-success :
    {A B : Type 0} (m : Result A) (f : A → Result B) {v : B}
    → try_result m f ≡ success v
    → (a : A) × (m ≡ success a) × (f a ≡ success v)
try_result-eq-success (success a) f h = (a, refl, h)
try_result-eq-success (failure e) f h = cc

-- The voucher is for a payment that is not nothing, in time, within the balance by the code's own
-- sum, and signed by the owner for the recipients behind the payment; `u` is the state with them.
abbrev pub Accepts :
    Backend → ℕ → ChannelState → PayInChannelRequest → Payment → ChannelState → Type 0
Accepts b now c payload payment u =
    let recipients = next_recipients b c.recipients payment in
    (parse_payment b payload ≡ success payment)
    × (payment.amount ≢ 0)
    × (validate_timestamp b now payload.timestamp c.expiry_ts ≡ success tt)
    × (total_from 0 recipients ≤ c.balance)
    × (b.recover
          (channel_update b c.channel_id payload.sequence_number payload.timestamp recipients)
          payload.user_signature
        ≡ success c.owner)
    × (u ≡ updated_state b c payload recipients)

module _ (b : Backend) (now : ℕ) (c : ChannelState) (payload : PayInChannelRequest) where
  check_signer-eq-success :
      (recipients : List RecipientBalance) {u : ChannelState}
      → check_signer b c payload recipients ≡ success u
      → (b.recover
            (channel_update b c.channel_id payload.sequence_number payload.timestamp recipients)
            payload.user_signature
          ≡ success c.owner)
        × (u ≡ updated_state b c payload recipients)
  unfolding check_signer
  check_signer-eq-success recipients h = ground arith

  past_amount :
      (payment : Payment) {u : ChannelState}
      → parse_payment b payload ≡ success payment
      → compute_next_state b now c payload ≡ success u
      → let recipients = next_recipients b c.recipients payment in
        (payment.amount ≢ 0)
        × (validate_timestamp b now payload.timestamp c.expiry_ts ≡ success tt)
        × (total_from 0 recipients ≤ c.balance)
        × (check_signer b c payload recipients ≡ success u)
  unfolding compute_next_state
  past_amount payment e h = ground arith

  pub compute_next_state-Accepts :
      {u : ChannelState}
      → compute_next_state b now c payload ≡ success u
      → (payment : Payment) × Accepts b now c payload payment u
  unfolding compute_next_state
  compute_next_state-Accepts h =
      let (payment, e, _) = try_result-eq-success (parse_payment b payload) _ h in
      let (positive, timely, funded, signed) = past_amount payment e h in
      let (recovered, run) = check_signer-eq-success _ signed in
      (payment, (e, positive, timely, funded, recovered, run))

  pub Accepts-compute_next_state :
      (payment : Payment) (u : ChannelState)
      → Accepts b now c payload payment u
      → compute_next_state b now c payload ≡ success u
  unfolding compute_next_state check_signer
  Accepts-compute_next_state payment u (e, positive, timely, funded, signed, run) =
      ground (arith, nat_eq_iff c.owner c.owner)

  pub next_recipients-Distinct :
      (rs : List RecipientBalance) (payment : Payment)
      → Distinct rs
      → Distinct (next_recipients b rs payment)
  unfolding next_recipients
  next_recipients-Distinct rs payment h = grind (arith, add_amount-Distinct)

  pub owed-next_recipients :
      (rs : List RecipientBalance) (payment : Payment)
      → owed rs + cost payment < 2 ^ 256
      → owed (next_recipients b rs payment) ≡ owed rs + cost payment
  unfolding next_recipients
  owed-next_recipients rs payment h = grind (arith, owed-add_amount)
