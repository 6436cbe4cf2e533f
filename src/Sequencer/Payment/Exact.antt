-- ===== src/Sequencer/Payment/Exact.antt =====
-- `compute_next_state` beside a description of what it should accept and give, which uses none of
-- its helpers.
use cronos_stream.Prelude.{
  ℕ, ◌+◌, ◌^◌, ◌%◌, ◌≤◌, ◌<◌, ◌≡◌, ◌≢◌, ◌↔◌, ◌∙◌, refl, sym, ap, Option, none, some, List, [], ◌∷◌,
  map, arith, nat_has_eq,
}
use mathlib.Core.Path.{subst}
use cronos_stream.Sequencer.{
  add_u256, RecipientBalance, ChannelState, FeeForPayment, PayInChannelRequest, success, Backend,
}
use cronos_stream.Sequencer.Payment.{
  add_amount, total_from, Payment, validate_timestamp, channel_update, parse_payment, parse_fee,
  parse_address, parse_u256, next_recipients, updated_state, compute_next_state,
}
use cronos_stream.Sequencer.Payment.Amounts.{owed}
use cronos_stream.Sequencer.Payment.Laws.{
  Accepts, compute_next_state-Accepts, Accepts-compute_next_state,
}
use cronos_stream.Sequencer.Payment.Credits.{Credits, Credits-add_amount, add_amount-Credits}

abbrev pub ReadsFee : Backend → Option FeeForPayment → Option (ℕ × ℕ) → Type 0
ReadsFee b none none = Unit
ReadsFee b none (some _) = ⊥
ReadsFee b (some _) none = ⊥
ReadsFee b (some fee) (some read) =
    (b.address_from_str fee.fee_destination_address ≡ some read.0)
    × (b.u256_from_str fee.fee_amount ≡ some read.1)

-- What a request says, once its texts are read.
abbrev pub Reads : Backend → PayInChannelRequest → Payment → Type 0
Reads b payload payment =
    (b.address_from_str payload.receiver ≡ some payment.receiver)
    × (b.u256_from_str payload.amount ≡ some payment.amount)
    × ReadsFee b payload.fee_for_payment payment.fee

abbrev pub CreditsFee : Option (ℕ × ℕ) → List RecipientBalance → List RecipientBalance → Type 0
CreditsFee none rs rs' = rs' ≡ rs
CreditsFee (some fee) rs rs' = Credits fee.0 fee.1 rs rs'

-- The recipients behind a payment and its fee.
abbrev pub CreditsPayment : Payment → List RecipientBalance → List RecipientBalance → Type 0
CreditsPayment payment rs rs' =
    (paid : List RecipientBalance) × Credits payment.receiver payment.amount rs paid
    × CreditsFee payment.fee paid rs'

-- The voucher is for a payment that is not nothing; its time is at most 15 minutes ahead, round at
-- 2^64, and not behind the expiry; the recipients with the payment and its fee entered owe no more
-- than the balance, round at 2^256; and the owner is recovered from the signature of that update.
-- The next state has them and the voucher's number, signature and time, and no signature of the
-- sequencer.
abbrev pub IsDue :
    Backend → ℕ → ChannelState → PayInChannelRequest → Payment → ChannelState → Type 0
IsDue b now c payload payment u =
    Reads b payload payment
    × (payment.amount ≢ 0)
    × (payload.timestamp ≤ (now + 900) % 2 ^ 64)
    × (payload.timestamp ≤ c.expiry_ts)
    × CreditsPayment payment c.recipients u.recipients
    × (owed u.recipients % 2 ^ 256 ≤ c.balance)
    × (b.recover
          (record {
            channel_id = c.channel_id;
            sequence_number = payload.sequence_number;
            timestamp = payload.timestamp;
            recipients = map (λ r. r.recipient_address) u.recipients;
            amounts = map (λ r. r.balance) u.recipients;
            chain_id = b.chain_id;
            verifying_contract = b.channel_manager;
          })
          payload.user_signature
        ≡ success c.owner)
    × (u ≡ record {
      channel_id = c.channel_id;
      owner = c.owner;
      balance = c.balance;
      expiry_ts = c.expiry_ts;
      sequence_number = payload.sequence_number;
      user_signature = payload.user_signature;
      sequencer_signature = "";
      signature_timestamp = payload.timestamp;
      recipients = u.recipients;
    })

total_from-owed :
    (acc : ℕ) (rs : List RecipientBalance)
    → acc < 2 ^ 256
    → total_from acc rs ≡ (acc + owed rs) % 2 ^ 256
unfolding total_from
total_from-owed acc [] h = omega arith
total_from-owed acc (r ∷ rs) h =
    total_from-owed (add_u256 acc r.balance) rs (omega arith) ∙ omega arith

total_from_round : (rs : List RecipientBalance) → total_from 0 rs ≡ owed rs % 2 ^ 256
total_from_round rs = total_from-owed 0 rs (omega arith) ∙ omega arith

CreditsFee-iff :
    (fee : Option (ℕ × ℕ)) (rs rs' : List RecipientBalance)
    → (rs' ≡ elim fee [ none ↦ rs | some f ↦ add_amount rs f.0 f.1 ]) ↔ CreditsFee fee rs rs'
CreditsFee-iff none rs rs' = (λ h. h, λ h. h)
CreditsFee-iff (some fee) rs rs' = (
  λ h. subst (Credits fee.0 fee.1 rs) (sym h) (add_amount-Credits fee.0 fee.1 rs),
  λ h. Credits-add_amount fee.0 fee.1 h,
)

module _ (b : Backend) where
  parse_fee_iff :
      (fee : Option FeeForPayment) (read : Option (ℕ × ℕ))
      → (parse_fee b fee ≡ success read) ↔ ReadsFee b fee read
  unfolding parse_fee parse_address parse_u256
  parse_fee_iff none none = (λ h. tt, λ h. refl)
  parse_fee_iff none (some r) = (λ h. ground arith, λ h. absurd h)
  parse_fee_iff (some fee) none = (λ h. ground arith, λ h. absurd h)
  parse_fee_iff (some fee) (some r) = (λ h. ground arith, λ h. ground arith)

  parse_payment_iff :
      (payload : PayInChannelRequest) (payment : Payment)
      → (parse_payment b payload ≡ success payment) ↔ Reads b payload payment
  unfolding parse_payment parse_address parse_u256
  parse_payment_iff payload payment =
      let (reads, read) = parse_fee_iff payload.fee_for_payment payment.fee in
      (λ h. ground (arith, reads), λ (receiver, amount, fee). ground (arith, read fee))

  next_recipients_iff :
      (rs rs' : List RecipientBalance) (payment : Payment)
      → (rs' ≡ next_recipients b rs payment) ↔ CreditsPayment payment rs rs'
  unfolding next_recipients
  next_recipients_iff rs rs' payment =
      let paid = add_amount rs payment.receiver payment.amount in
      (
        λ h. (
          paid,
          add_amount-Credits payment.receiver payment.amount rs,
          (CreditsFee-iff payment.fee paid rs').0 h,
        ),
        λ (middle, credited, fee). (CreditsFee-iff payment.fee paid rs').1 (
            subst (λ l. CreditsFee payment.fee l rs')
              (Credits-add_amount payment.receiver payment.amount credited) fee),
      )

  validate_timestamp_iff :
      (now timestamp expiry : ℕ)
      → (validate_timestamp b now timestamp expiry ≡ success tt)
        ↔ ((timestamp ≤ (now + 900) % 2 ^ 64) × (timestamp ≤ expiry))
  unfolding validate_timestamp
  validate_timestamp_iff now timestamp expiry = (λ h. ground arith, λ h. ground arith)

  module _ (now : ℕ) (c : ChannelState) (payload : PayInChannelRequest) (payment : Payment) where
    Accepts-IsDue :
        (u : ChannelState) → Accepts b now c payload payment u → IsDue b now c payload payment u
    unfolding updated_state channel_update
    Accepts-IsDue u (read, positive, timely, funded, signed, run) =
        let rs = next_recipients b c.recipients payment in
        let same : u.recipients ≡ rs = ap (λ x. x.recipients) run in
        let (soon, unexpired) =
          (validate_timestamp_iff now payload.timestamp c.expiry_ts).0 timely in
        (
          (parse_payment_iff payload payment).0 read,
          positive,
          soon,
          unexpired,
          (next_recipients_iff c.recipients u.recipients payment).0 same,
          rw same (rw (sym (total_from_round rs)) funded),
          rw same signed,
          subst (λ l. u ≡ updated_state b c payload l) (sym same) run,
        )

    IsDue-Accepts :
        (u : ChannelState) → IsDue b now c payload payment u → Accepts b now c payload payment u
    unfolding updated_state channel_update
    IsDue-Accepts u (reads, positive, soon, unexpired, credits, covered, signed, run) =
        let same = (next_recipients_iff c.recipients u.recipients payment).1 credits in
        (
          (parse_payment_iff payload payment).1 reads,
          positive,
          (validate_timestamp_iff now payload.timestamp c.expiry_ts).1 (soon, unexpired),
          rw (sym same) (rw (total_from_round u.recipients) covered),
          rw (sym same) signed,
          rw (sym same) run,
        )

  -- `compute_next_state` gives a state exactly for a voucher that is due: its texts can be read; it
  -- is for a payment that is not nothing; its time is at most 15 minutes ahead, round at 2^64, and
  -- not behind the expiry; the recipients with the payment and its fee entered owe together, round
  -- at 2^256, no more than the balance; and the owner is recovered from the signature of the update
  -- with them. The state has those recipients, in which the payment and then the fee raises the
  -- entry of its address, round at 2^256, or becomes the last; the voucher's number, signature and
  -- time; no signature of the sequencer; and the rest of the channel as it was.
  pub compute_next_state_iff :
      (now : ℕ) (c u : ChannelState) (payload : PayInChannelRequest)
      → (compute_next_state b now c payload ≡ success u)
        ↔ ((payment : Payment) × IsDue b now c payload payment u)
  compute_next_state_iff now c u payload = (
    λ h.
        let (payment, accepted) = compute_next_state-Accepts b now c payload h in
        (payment, Accepts-IsDue now c payload payment u accepted),
    λ (payment, due).
        Accepts-compute_next_state b now c payload payment u
          (IsDue-Accepts now c payload payment u due),
  )
