-- ===== src/Service/Streaming/Laws.antt =====
-- A payment by voucher: which voucher is submitted, and in which order.
use cronos_stream.Prelude.{
  ◌<◌, String, ◌<>◌, ◌≡◌, refl, ap, ◌∙◌, sym, Bool, true, false, [], ◌∷◌, arith, nat_has_eq,
}
use mathlib.Core.Path.{subst}
use cronos_stream.Prelude.Int.{ℤ}
use cronos_stream.Python.{
  Dict, Value, null, text, object, insert, get, to_int, Outcome, ok, bind_outcome, is_ok,
  is_ok-value,
}
use cronos_stream.World.{World, Response, Trace, http_get, http_post}
use cronos_stream.Channel.{Manager, Session}
use cronos_stream.Channel.Voucher.{create_voucher}
use cronos_stream.Service.{Has, x_payment_id_header}
use cronos_stream.Service.Streaming.{voucher_for, submit_voucher, pay_by_voucher}

module _ (w : World) (resource_url base_url sequencer_url : String) (payment_id : Value) where
  abbrev pub retry_call : Dict Value
  retry_call = (x_payment_id_header, payment_id) ∷ []

  -- The voucher was posted and not refused, the resource asked for again, and `v` holds the answer.
  abbrev pub Submitted : Dict Value → Trace → Value → Trace → Type 0
  Submitted voucher past v after =
      let posted = http_post (base_url <> "/api/pay-voucher") (object voucher) ∷ past in
      (res : Response) × (retry : Response) × (content : Value) × (w.post_reply past
          (base_url <> "/api/pay-voucher") (object voucher)
        ≡ ok res)
      × (res.status < 400)
      × (w.get_reply posted resource_url retry_call ≡ ok retry)
      × (retry.status ≡ 200)
      × (retry.json ≡ ok content)
      × (after ≡ http_get resource_url retry_call ∷ posted)
      × Has v "data" content

  module _ (pay_to : Value) (amount : ℤ) (cm : Manager) (voucher : Dict Value) (past : Trace) where
    abbrev submission : Outcome Value × Trace
    submission =
        submit_voucher w resource_url base_url sequencer_url payment_id pay_to amount cm voucher
          past

    abbrev posted : Trace
    posted = http_post (base_url <> "/api/pay-voucher") (object voucher) ∷ past

    submit_voucher_posts :
        {v : Value}
        → submission.0 ≡ ok v
        → is_ok (w.post_reply past (base_url <> "/api/pay-voucher") (object voucher)) ≡ true
    unfolding submit_voucher
    submit_voucher_posts h = ground arith

    submit_voucher_asks :
        {v : Value} {res : Response}
        → submission.0 ≡ ok v
        → w.post_reply past (base_url <> "/api/pay-voucher") (object voucher) ≡ ok res
        → (res.status < 400)
          × (is_ok (w.get_reply posted resource_url retry_call) ≡ true)
          × (submission.1 ≡ http_get resource_url retry_call ∷ posted)
    unfolding submit_voucher
    submit_voucher_asks h e = ground arith

    submit_voucher_reads :
        {v : Value} {res retry : Response}
        → submission.0 ≡ ok v
        → w.post_reply past (base_url <> "/api/pay-voucher") (object voucher) ≡ ok res
        → w.get_reply posted resource_url retry_call ≡ ok retry
        → (retry.status ≡ 200) × (is_ok (retry.json) ≡ true)
    unfolding submit_voucher
    submit_voucher_reads h e f = ground arith

    submit_voucher_gives :
        {v content : Value} {res retry : Response}
        → submission.0 ≡ ok v
        → w.post_reply past (base_url <> "/api/pay-voucher") (object voucher) ≡ ok res
        → w.get_reply posted resource_url retry_call ≡ ok retry
        → retry.json ≡ ok content
        → Has v "data" content
    unfolding submit_voucher get
    submit_voucher_gives h e f g = ground arith

    submit_voucher-Submitted :
        {v : Value} → submission.0 ≡ ok v → Submitted voucher past v submission.1
    submit_voucher-Submitted h =
        let (res, e) = is_ok-value _ (submit_voucher_posts h) in
        let (accepted, answered, newest) = submit_voucher_asks h e in
        let (retry, f) = is_ok-value _ answered in
        let (good, readable) = submit_voucher_reads h e f in
        let (content, g) = is_ok-value _ readable in
        (res, retry, content, e, accepted, f, good, g, newest, submit_voucher_gives h e f g)

  abbrev is_text_value : Value → Bool
  is_text_value (text s) = true
  is_text_value _ = false

  is_text_value-text : (v : Value) → is_text_value v ≡ true → (s : String) × (v ≡ text s)
  is_text_value-text (text s) h = (s, refl)
  is_text_value-text null h = cc
  is_text_value-text (Value.bool b) h = cc
  is_text_value-text (Value.int n) h = cc
  is_text_value-text (Value.float m k) h = cc
  is_text_value-text (Value.list vs) h = cc
  is_text_value-text (Value.dict fs) h = cc

  module _ (accepts : Value) (cm : Manager) (past : Trace) where
    abbrev payment : Outcome Value × Trace
    payment = pay_by_voucher w resource_url base_url sequencer_url payment_id accepts cm past

    -- The manager at work on its voucher.
    abbrev pub working : Session
    working = record { manager = cm; trace = past }

    abbrev pub asked_amount : Outcome ℤ
    asked_amount = bind_outcome (get accepts "maxAmountRequired" (text "0")) to_int

    pay_by_voucher_reads :
        {v : Value}
        → payment.0 ≡ ok v
        → (is_ok asked_amount ≡ true) × (is_ok (get accepts "payTo" null) ≡ true)
    unfolding pay_by_voucher
    pay_by_voucher_reads h = ground arith

    pay_by_voucher_names :
        {v : Value} {amount : ℤ}
        → (pay_to : Value) → payment.0 ≡ ok v
        → asked_amount ≡ ok amount
        → get accepts "payTo" null ≡ ok pay_to
        → is_text_value pay_to ≡ true
    unfolding pay_by_voucher voucher_for
    pay_by_voucher_names pay_to h e f = ground arith

    pay_by_voucher_issues :
        {v : Value} {amount : ℤ} {recipient : String}
        → payment.0 ≡ ok v
        → asked_amount ≡ ok amount
        → get accepts "payTo" null ≡ ok (text recipient)
        → is_ok ((create_voucher w recipient amount working).0) ≡ true
    unfolding pay_by_voucher voucher_for
    pay_by_voucher_issues h e f = ground arith

    pay_by_voucher_run :
        {amount : ℤ} {recipient : String} {voucher : Dict Value}
        → asked_amount ≡ ok amount
        → get accepts "payTo" null ≡ ok (text recipient)
        → (create_voucher w recipient amount working).0 ≡ ok voucher
        → payment
          ≡ submit_voucher w resource_url base_url sequencer_url payment_id
              (text recipient)
              amount
              (create_voucher w recipient amount working).1.manager
              (insert "paymentId" payment_id voucher)
              (create_voucher w recipient amount working).1.trace
    unfolding pay_by_voucher voucher_for
    pay_by_voucher_run e f g = ground arith

    -- A payment by voucher that returns a result has issued a voucher for the offer's recipient and
    -- amount on the given manager, posted it with the payment's identifier added, and was not
    -- refused; then it asked for the resource again with that identifier. The second answer has
    -- status 200, and its JSON is the result's "data".
    pub pay_by_voucher-Submitted :
        {v : Value}
        → payment.0 ≡ ok v
        → (amount : ℤ) × (recipient : String) × (voucher : Dict Value) × (asked_amount ≡ ok amount)
          × (get accepts "payTo" null ≡ ok (text recipient))
          × ((create_voucher w recipient amount working).0 ≡ ok voucher)
          × Submitted
              (insert "paymentId" payment_id voucher)
              (create_voucher w recipient amount working).1.trace
              v
              payment.1
    pay_by_voucher-Submitted {v} h =
        let (has_amount, has_recipient) = pay_by_voucher_reads h in
        let (amount, e) = is_ok-value _ has_amount in
        let (pay_to, named) = is_ok-value _ has_recipient in
        let (recipient, same) = is_text_value-text pay_to (pay_by_voucher_names pay_to h e named) in
        let f = named ∙ ap ok same in
        let (voucher, g) = is_ok-value _ (pay_by_voucher_issues h e f) in
        let run = pay_by_voucher_run e f g in
        (
          amount,
          recipient,
          voucher,
          e,
          f,
          g,
          subst (Submitted (insert "paymentId" payment_id voucher) _ v) (ap (λ p. p.1) (sym run)) (
              submit_voucher-Submitted (text recipient) amount _ _ _ (ap (λ p. p.0) (sym run) ∙ h)),
        )
