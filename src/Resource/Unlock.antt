-- ===== src/Resource/Unlock.antt =====
-- a2a/resource-service: which payment ids the handler of POST /api/pay-voucher entitles.
use cronos_stream.Prelude.{
  ℕ, String, ◌≡◌, refl, sym, ap, Bool, Option, true, false, none, some, inl, inr, ◌⊎◌, arith, ◌==◌,
  nat_has_eq, string_has_eq, eq_iff, Bool-cases,
}
use cronos_stream.Python.{Dict, lookup, lookup-insert, Value, text}
use cronos_stream.Sequencer.{
  PayInChannelRequest, ChannelView, Result, success, failure, Backend, Moment, Channels,
}
use cronos_stream.Sequencer.PayVoucher.{truthy_field, pay_voucher}
use cronos_stream.Sequencer.Service.{settle}
use cronos_stream.Resource.{
  Shop, Transport, arrived, unreachable, answer_lost, is_paid, entitled, mark_settled, response_ok,
  handle_voucher_payment, sequencer_settle, record_result, settle_voucher, pay_by_id,
  post_pay_voucher,
}

pub truthy_field-eq-some :
    (k : String) (body : Dict Value) {v : Value}
    → truthy_field k body ≡ some v
    → lookup k body ≡ some v
truthy_field-eq-some k body h = ground arith

-- Setting the record of one id entitles no other.
pub mark_settled-is_paid :
    (at : ℕ) (id : Value) (tx : Option String) (shop : Shop) (key : String)
    → is_paid key (mark_settled at id tx shop).paid ≡ true
    → (is_paid key shop.paid ≡ true) ⊎ (id ≡ text key)
mark_settled-is_paid at (text id) tx shop key h = elim (Bool-cases (key == id)) [
  | inl same ↦ inr (ground (arith, eq_iff key id))
  | inr other ↦ inl (ground (arith, lookup-insert key id (entitled at tx) shop.paid))
]
mark_settled-is_paid at _ tx shop key h = inl h

pub handle_voucher_payment-channels :
    (at : ℕ) (id : Value) (shop : Shop)
    → (handle_voucher_payment at id shop).channels ≡ shop.channels
unfolding handle_voucher_payment
handle_voucher_payment-channels at (text id) shop = refl
handle_voucher_payment-channels at _ shop = refl

record_result-is_paid :
    (at : ℕ) (id : Value) (shop : Shop) (r : Bool × Channels) (key : String)
    → is_paid key (record_result at id shop r).1.paid ≡ true
    → (is_paid key shop.paid ≡ true)
      ⊎ ((id ≡ text key) × (r ≡ (true, (record_result at id shop r).1.channels)))
unfolding handle_voucher_payment
record_result-is_paid at id shop (false, after) key h = inl h
record_result-is_paid at id shop (true, after) key h =
    let shop' : Shop = record shop { channels = after } in
    elim (mark_settled-is_paid at id none shop' key h) [
      | inl before ↦ inl before
      | inr same ↦
          inr (same, ap (λ c. (true, c)) (sym (handle_voucher_payment-channels at id shop')))
    ]

response_ok-eq-true :
    (answer : Result ChannelView × Channels) {after : Channels}
    → response_ok answer ≡ (true, after)
    → (view : ChannelView) × (answer ≡ (success view, after))
response_ok-eq-true (success view, c) h = (view, ground arith)
response_ok-eq-true (failure e, c) h = ground arith

module _ (b : Backend) (moment : Moment) where
  -- The client's result is ok only where the sequencer's answer came and was a success.
  pub sequencer_settle-eq-ok :
      (transport : Transport) (payload : PayInChannelRequest) (channels : Channels)
      {after : Channels}
      → sequencer_settle b moment transport payload channels ≡ (true, after)
      → (view : ChannelView) × (settle b moment payload channels ≡ (success view, after))
  unfolding sequencer_settle
  sequencer_settle-eq-ok unreachable payload channels h = ground arith
  sequencer_settle-eq-ok answer_lost payload channels h = ground arith
  sequencer_settle-eq-ok arrived payload channels h =
      response_ok-eq-true (settle b moment payload channels) h

  module _ (transport : Transport) (date_now : ℕ) where
    settle_voucher-is_paid :
        (id : Value) (payload : PayInChannelRequest) (shop : Shop) (key : String)
        → let after = (settle_voucher b moment transport date_now id payload shop).1 in
          is_paid key after.paid ≡ true
          → (is_paid key shop.paid ≡ true)
            ⊎ ((id ≡ text key)
                × (view : ChannelView) × (settle b moment payload shop.channels
                    ≡ (success view, after.channels)))
    unfolding settle_voucher
    settle_voucher-is_paid id payload shop key h =
        elim (record_result-is_paid date_now id shop _ key h) [
          | inl before ↦ inl before
          | inr (same, accepted) ↦
              let (view, answer) =
                sequencer_settle-eq-ok transport payload shop.channels accepted in
              inr (same, view, answer)
        ]

    pay_by_id-is_paid :
        (named : Option Value) (read : Option PayInChannelRequest) (shop : Shop) (key : String)
        → let after = (pay_by_id b moment transport date_now named read shop).1 in
          is_paid key after.paid ≡ true
          → (is_paid key shop.paid ≡ true)
            ⊎ ((named ≡ some (text key))
                × (payload : PayInChannelRequest) × (read ≡ some payload)
                × (view : ChannelView) × (settle b moment payload shop.channels
                    ≡ (success view, after.channels)))
    unfolding pay_by_id
    pay_by_id-is_paid none read shop key h = inl h
    pay_by_id-is_paid (some id) none shop key h = inl h
    pay_by_id-is_paid (some id) (some payload) shop key h =
        elim (settle_voucher-is_paid id payload shop key h) [
          | inl before ↦ inl before
          | inr (same, view, accepted) ↦ inr (ap some same, payload, refl, view, accepted)
        ]

    -- POST /api/pay-voucher entitles no payment id but the one that the body names, and that one
    -- only where the sequencer's `settle` answers the body's voucher with success, which leaves
    -- the sequencer's channels as that answer does. Every other id is entitled afterwards only if
    -- it was before, whatever becomes of the request to the sequencer.
    pub post_pay_voucher-is_paid :
        (body : Dict Value) (shop : Shop) (key : String)
        → let after = (post_pay_voucher b moment transport date_now body shop).1 in
          is_paid key after.paid ≡ true
          → (is_paid key shop.paid ≡ true)
            ⊎ ((lookup "paymentId" body ≡ some (text key))
                × (payload : PayInChannelRequest) × (pay_voucher date_now body ≡ some payload)
                × (view : ChannelView) × (settle b moment payload shop.channels
                    ≡ (success view, after.channels)))
    unfolding post_pay_voucher
    post_pay_voucher-is_paid body shop key h =
        elim (pay_by_id-is_paid (truthy_field "paymentId" body) (pay_voucher date_now body) shop key
          h) [
            | inl before ↦ inl before
            | inr (named, payload, read, view, accepted) ↦
                inr (truthy_field-eq-some "paymentId" body named, payload, read, view, accepted)
          ]
