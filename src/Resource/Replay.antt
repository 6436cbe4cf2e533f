-- ===== src/Resource/Replay.antt =====
-- a2a/resource-service: one voucher, sent again with another payment id.
use cronos_stream.Prelude.{
  ℕ, String, ◌≡◌, ◌≢◌, ◌∙◌, refl, sym, ap, Bool, Option, true, false, none, some, arith, nat_has_eq,
  string_has_eq, eq_iff,
}
use cronos_stream.Prelude.Int.{ℤ}
use cronos_stream.Python.{Dict, lookup, insert, lookup-insert, Value, text, int}
use cronos_stream.Sequencer.{PayInChannelRequest, ChannelView, success, Backend, Moment, Channels}
use cronos_stream.Sequencer.PayVoucher.{
  text_field, number_field, truthy_field, and_then, voucher_request, pay_voucher,
}
use cronos_stream.Sequencer.Service.{settle}
use cronos_stream.Sequencer.Service.Replies.{settle-settle}
use cronos_stream.Resource.{
  Shop, Transport, arrived, settled_reply, content, entitled, handle_voucher_payment, trim,
  record_result, get_data, sequencer_settle, settle_voucher, pay_by_id, post_pay_voucher,
}
use cronos_stream.Resource.Unlock.{sequencer_settle-eq-ok, handle_voucher_payment-channels}

-- The same voucher under another payment id.
abbrev pub readdressed : String → Dict Value → Dict Value
readdressed other body = insert "paymentId" (text other) body

pub readdressed-named :
    (other : String) (body : Dict Value)
    → other ≢ ""
    → truthy_field "paymentId" (readdressed other body) ≡ some (text other)
readdressed-named other body named =
    ground (arith, eq_iff other "", lookup-insert "paymentId" "paymentId" (text other) body)

-- The sequencer reads no payment id, so that it gets the same request.
voucher_request-readdressed :
    (now later : ℕ) (other : String) (body : Dict Value) {t : ℤ}
    → lookup "timestamp" body ≡ some (int t)
    → voucher_request later (readdressed other body) ≡ voucher_request now body
voucher_request-readdressed now later other body timed =
    let kept = λ (k : String). lookup-insert k "paymentId" (text other) body in
    rw
      (
        voucher_request,
        text_field,
        number_field,
        kept "channelId",
        kept "amount",
        kept "receiver",
        kept "userSignature",
        kept "sequenceNumber",
        kept "timestamp",
        timed,
      )
      refl

and_then-eq-some :
    {A B : Type 0} (o : Option A) (r : Option B) {v : B} → and_then o (λ _. r) ≡ some v → r ≡ some v
and_then-eq-some none r h = ground arith
and_then-eq-some (some a) r h = h

pay_voucher-readdressed :
    (now later : ℕ) (other : String) (body : Dict Value) {t : ℤ} {payload : PayInChannelRequest}
    → other ≢ ""
    → lookup "timestamp" body ≡ some (int t)
    → pay_voucher now body ≡ some payload
    → pay_voucher later (readdressed other body) ≡ some payload
unfolding pay_voucher
pay_voucher-readdressed now later other body named timed read =
    rw (readdressed-named other body named) (
      voucher_request-readdressed now later other body timed
      ∙ and_then-eq-some (truthy_field "paymentId" body) _ read)

record_result-settled :
    (at : ℕ) (id : Value) (shop : Shop) (r : Bool × Channels)
    → (record_result at id shop r).0 ≡ settled_reply
    → r ≡ (true, (record_result at id shop r).1.channels)
record_result-settled at id shop (false, after) h = ground arith
record_result-settled at id shop (true, after) h =
    ap (λ c. (true, c))
      (sym (handle_voucher_payment-channels at id (record shop { channels = after })))

-- The paywall is open for an id that the map has.
pub get_data-entitled :
    (fresh id : String) (now : ℕ) (shop : Shop) (after : Channels)
    → id ≢ ""
    → trim id ≡ id
    → get_data fresh
        (some id)
        (record { paid = insert id (entitled now none) shop.paid; channels = after })
      ≡ content
unfolding get_data
get_data-entitled fresh id now shop after named trimmed =
    ground (arith, eq_iff id "", lookup-insert id id (entitled now none) shop.paid, eq_iff id id)

module _ (b : Backend) where
  -- A reply of success is one of the sequencer's.
  pay_by_id-settled :
      (moment : Moment) (transport : Transport) (now : ℕ) (named : Option Value)
      (read : Option PayInChannelRequest) (shop : Shop)
      → let (reply, after) = pay_by_id b moment transport now named read shop in
        reply ≡ settled_reply
        → (payload : PayInChannelRequest) × (read ≡ some payload)
          × (view : ChannelView) × (settle b moment payload shop.channels
              ≡ (success view, after.channels))
  unfolding pay_by_id settle_voucher
  pay_by_id-settled moment transport now none read shop h = ground arith
  pay_by_id-settled moment transport now (some id) none shop h = ground arith
  pay_by_id-settled moment transport now (some id) (some payload) shop h =
      let (view, answer) =
        sequencer_settle-eq-ok b moment transport payload shop.channels
          (record_result-settled now id shop _ h) in
      (payload, refl, view, answer)

  pub pay_by_id-accepted :
      (moment : Moment) (now : ℕ) (id : String) (payload : PayInChannelRequest) (shop : Shop)
      {view : ChannelView} {after : Channels}
      → settle b moment payload shop.channels ≡ (success view, after)
      → pay_by_id b moment arrived now (some (text id)) (some payload) shop ≡ (
        settled_reply,
        record { paid = insert id (entitled now none) shop.paid; channels = after },
      )
  unfolding pay_by_id settle_voucher sequencer_settle handle_voucher_payment
  pay_by_id-accepted moment now id payload shop accepted = rw accepted refl

  -- A body of POST /api/pay-voucher that is answered with success, sent again with any other
  -- payment id, is answered with success a second time; the sequencer's channels stay as they are,
  -- and the new id gets the paid content at GET /api/data. This is so for a body that carries its
  -- timestamp, for an id that is not empty and has no white space at its ends, on the channels and
  -- the entitlements that the first answer leaves, where the sequencer's second answer arrives.
  pub post_pay_voucher-replayed :
      (moment later : Moment) (transport : Transport) (now then : ℕ) (fresh other : String)
      (body : Dict Value) (shop : Shop) {t : ℤ}
      → other ≢ ""
      → trim other ≡ other
      → lookup "timestamp" body ≡ some (int t)
      → (post_pay_voucher b moment transport now body shop).0 ≡ settled_reply
      → let after = (post_pay_voucher b moment transport now body shop).1 in
        let (reply, again) = post_pay_voucher b later arrived then (readdressed other body) after in
        (reply ≡ settled_reply)
        × (again.channels ≡ after.channels)
        × (get_data fresh (some other) again ≡ content)
  unfolding post_pay_voucher
  post_pay_voucher-replayed moment later transport now then fresh other body shop named trimmed
        timed settled =
      let (payload, read, view, accepted) =
        pay_by_id-settled moment transport now (truthy_field "paymentId" body)
          (pay_voucher now body) shop settled in
      let after = (post_pay_voucher b moment transport now body shop).1 in
      rw
        (
          readdressed-named other body named,
          pay_voucher-readdressed now then other body named timed read,
          pay_by_id-accepted later then other payload after
              (settle-settle b moment later payload shop.channels accepted),
        )
        (refl, refl, get_data-entitled fresh other then after after.channels named trimmed)
