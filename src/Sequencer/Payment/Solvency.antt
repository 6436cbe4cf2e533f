-- ===== src/Sequencer/Payment/Solvency.antt =====
-- What an accepted voucher does to the amounts that the recipients are owed.
use cronos_stream.Prelude.{
  ℕ, ◌+◌, ◌^◌, ◌≤◌, ◌<◌, ◌≡◌, refl, true, none, some, List, [], ◌∷◌, length, arith, ◌==◌,
  nat_has_eq, if◌then◌else◌,
}
use mathlib.Core.Path.{subst}
use cronos_stream.Sequencer.{RecipientBalance, ChannelState, PayInChannelRequest, success, Backend}
use cronos_stream.Sequencer.Payment.{
  enter_amount, add_amount, Payment, parse_payment, next_recipients, updated_state,
  compute_next_state,
}
use cronos_stream.Sequencer.Payment.Amounts.{
  owed, owed_to, is_listed, cost, owed_to-add_amount, owed-add_amount, total_from-eq-owed,
}
use cronos_stream.Sequencer.Payment.Laws.{Accepts, compute_next_state-Accepts, owed-next_recipients}

-- What a payment gives to one address, its fee included.
abbrev pub due_to : ℕ → Payment → ℕ
due_to j payment =
    (if payment.receiver == j then payment.amount else 0)
    + elim (payment.fee) [ none ↦ 0 | some fee ↦ (if fee.0 == j then fee.1 else 0) ]

module _ (b : Backend) where
  owed_to-next_recipients :
      (j : ℕ) (rs : List RecipientBalance) (payment : Payment)
      → owed rs + cost payment < 2 ^ 256
      → owed_to j (next_recipients b rs payment) ≡ owed_to j rs + due_to j payment
  unfolding next_recipients
  owed_to-next_recipients j rs payment h = grind (arith, owed_to-add_amount, owed-add_amount)

  -- The payment that an accepted voucher carries is the one that its texts give.
  accepted_payment :
      (now : ℕ) (c : ChannelState) (payload : PayInChannelRequest) {payment : Payment}
      {u : ChannelState}
      → parse_payment b payload ≡ success payment
      → compute_next_state b now c payload ≡ success u
      → Accepts b now c payload payment u
  accepted_payment now c payload {payment} {u} e h =
      let (other, accepted) = compute_next_state-Accepts b now c payload h in
      let same : other ≡ payment = ground arith in
      subst (λ p. Accepts b now c payload p u) same accepted

  -- A voucher is accepted, its payment read as `payment`, while the amounts owed and the payment
  -- with its fee fit a word together. Then each address is owed what it was owed and what the
  -- payment gives it, all recipients together are owed the cost of the payment more, and that is
  -- covered by the balance, which stays.
  pub compute_next_state-owed :
      (now : ℕ) (c : ChannelState) (payload : PayInChannelRequest) {payment : Payment}
      {u : ChannelState}
      → parse_payment b payload ≡ success payment
      → owed c.recipients + cost payment < 2 ^ 256
      → compute_next_state b now c payload ≡ success u
      → (u.balance ≡ c.balance)
        × (owed u.recipients ≡ owed c.recipients + cost payment)
        × (owed u.recipients ≤ c.balance)
        × ((j : ℕ) → owed_to j u.recipients ≡ owed_to j c.recipients + due_to j payment)
  unfolding updated_state
  compute_next_state-owed now c payload {payment} {u} e fits h =
      let (_, _, _, funded, _, run) = accepted_payment now c payload e h in
      let raised = owed-next_recipients b now c payload c.recipients payment fits in
      let summed =
        total_from-eq-owed (next_recipients b c.recipients payment) (omega (arith, raised)) in
      rw run (
        refl,
        raised,
        omega (arith, funded, summed),
        λ j. owed_to-next_recipients j c.recipients payment fits,
      )

  owed_to-enter_wraps :
      (a n p : ℕ) (rs : List RecipientBalance)
      → owed_to a rs + n ≡ 2 ^ 256
      → is_listed a rs ≡ true
      → owed_to a (enter_amount rs a n p) ≡ 0
  unfolding enter_amount
  owed_to-enter_wraps a n p [] h l = cc
  owed_to-enter_wraps a n p (r ∷ rs) h l = ground (arith, owed_to-enter_wraps a n p rs)

  -- A voucher without a fee pays a listed recipient the amount by which what it is owed falls short
  -- of 2^256. If the voucher is accepted, the recipient is owed nothing in the new state.
  pub compute_next_state-wraps :
      (now : ℕ) (c : ChannelState) (payload : PayInChannelRequest) {payment : Payment}
      {u : ChannelState}
      → parse_payment b payload ≡ success payment
      → payment.fee ≡ none
      → is_listed payment.receiver c.recipients ≡ true
      → owed_to payment.receiver c.recipients + payment.amount ≡ 2 ^ 256
      → compute_next_state b now c payload ≡ success u
      → owed_to payment.receiver u.recipients ≡ 0
  unfolding updated_state next_recipients add_amount
  compute_next_state-wraps now c payload {payment} {u} e free listed wraps h =
      let (_, positive, _, _, _, run) = accepted_payment now c payload e h in
      let zeroed =
        owed_to-enter_wraps payment.receiver payment.amount (length c.recipients) c.recipients wraps
          listed in
      ground arith
