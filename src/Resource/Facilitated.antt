-- ===== src/Resource/Facilitated.antt =====
-- a2a/resource-service: which payment ids the handler of POST /api/pay entitles.
use cronos_stream.Prelude.{
  ℕ, String, ◌≡◌, refl, ap, Bool, Option, true, false, none, some, inl, inr, ◌⊎◌,
}
use cronos_stream.Python.{Dict, lookup, Value, text}
use cronos_stream.Sequencer.PayVoucher.{truthy_field}
use cronos_stream.Resource.{
  Shop, is_paid, Facilitator, record_settlement, settle_verified, handle_x402_payment, pay_with,
  post_pay,
}
use cronos_stream.Resource.Unlock.{truthy_field-eq-some, mark_settled-is_paid}

record_settlement-is_paid :
    (at : ℕ) (id : Value) (shop : Shop) (r : Option (Option (Option String))) (key : String)
    → is_paid key (record_settlement at id shop r).1.paid ≡ true
    → (is_paid key shop.paid ≡ true)
      ⊎ ((id ≡ text key) × (tx : Option String) × (r ≡ some (some tx)))
record_settlement-is_paid at id shop none key h = inl h
record_settlement-is_paid at id shop (some none) key h = inl h
record_settlement-is_paid at id shop (some (some tx)) key h =
    elim (mark_settled-is_paid at id tx shop key h) [
      | inl before ↦ inl before
      | inr same ↦ inr (same, tx, refl)
    ]

module _ (f : Facilitator) (date_now : ℕ) where
  settle_verified-is_paid :
      (id header requirements : Value) (shop : Shop) (r : Option Bool) (key : String)
      → is_paid key (settle_verified f date_now id header requirements shop r).1.paid ≡ true
      → (is_paid key shop.paid ≡ true)
        ⊎ ((id ≡ text key)
            × (r ≡ some true)
            × (tx : Option String) × (f.settle_payment header requirements ≡ some (some tx)))
  settle_verified-is_paid id header requirements shop none key h = inl h
  settle_verified-is_paid id header requirements shop (some false) key h = inl h
  settle_verified-is_paid id header requirements shop (some true) key h =
      elim (record_settlement-is_paid date_now id shop _ key h) [
        | inl before ↦ inl before
        | inr (same, tx, done) ↦ inr (same, refl, tx, done)
      ]

  pay_with-is_paid :
      (named header requirements : Option Value) (shop : Shop) (key : String)
      → is_paid key (pay_with f date_now named header requirements shop).1.paid ≡ true
      → (is_paid key shop.paid ≡ true)
        ⊎ ((named ≡ some (text key))
            × (h r : Value) × (header ≡ some h)
            × (requirements ≡ some r)
            × (f.verify_payment h r ≡ some true)
            × (tx : Option String) × (f.settle_payment h r ≡ some (some tx)))
  unfolding pay_with handle_x402_payment
  pay_with-is_paid (some id) (some header) (some requirements) shop key h =
      elim (settle_verified-is_paid id header requirements shop _ key h) [
        | inl before ↦ inl before
        | inr (same, valid, tx, done) ↦
            inr (ap some same, header, requirements, refl, refl, valid, tx, done)
      ]
  pay_with-is_paid none _ _ shop key h = inl h
  pay_with-is_paid (some id) none _ shop key h = inl h
  pay_with-is_paid (some id) (some header) none shop key h = inl h

  -- POST /api/pay entitles no payment id but the one that the body names, and that one only where
  -- the facilitator has answered that the body's payment is valid for the body's requirements, and
  -- then that it is settled. Every other id is entitled afterwards only if it was before.
  pub post_pay-is_paid :
      (body : Dict Value) (shop : Shop) (key : String)
      → is_paid key (post_pay f date_now body shop).1.paid ≡ true
      → (is_paid key shop.paid ≡ true)
        ⊎ ((lookup "paymentId" body ≡ some (text key))
            × (h r : Value) × (lookup "paymentHeader" body ≡ some h)
            × (lookup "paymentRequirements" body ≡ some r)
            × (f.verify_payment h r ≡ some true)
            × (tx : Option String) × (f.settle_payment h r ≡ some (some tx)))
  unfolding post_pay
  post_pay-is_paid body shop key paid =
      elim (pay_with-is_paid (truthy_field "paymentId" body) (truthy_field "paymentHeader" body)
        (truthy_field "paymentRequirements" body) shop key paid) [
          | inl before ↦ inl before
          | inr (named, h, r, header, requirements, valid, tx, done) ↦ inr (
            truthy_field-eq-some "paymentId" body named,
            h,
            r,
            truthy_field-eq-some "paymentHeader" body header,
            truthy_field-eq-some "paymentRequirements" body requirements,
            valid,
            tx,
            done,
          )
        ]
