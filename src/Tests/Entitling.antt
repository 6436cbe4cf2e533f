-- ===== src/Tests/Entitling.antt =====
-- The paywall of the resource service in front of the small world's sequencer.
use cronos_stream.Prelude.{
  ◌+◌, ◌^◌, String, ◌≡◌, ◌≢◌, refl, true, Option, some, ◌⊎◌, [], ◌∷◌, arith, nat_has_eq,
  string_has_eq,
}
use cronos_stream.Prelude.Int.{pos}
use cronos_stream.Python.{Dict, lookup, insert, Value, text, int, float, object}
use cronos_stream.Channel.Voucher.{create_voucher, voucher_of}
use cronos_stream.Sequencer.{ChannelState, PayInChannelRequest, ChannelView, success}
use cronos_stream.Sequencer.Payment.Amounts.{owed}
use cronos_stream.Sequencer.PayVoucher.{large_number, pay_voucher}
use cronos_stream.Sequencer.Service.{settle}
use cronos_stream.Sequencer.Agent.{Agrees}
use cronos_stream.Resource.{
  Shop, arrived, settled_reply, content, is_paid, trim, Facilitator, get_data, sequencer_settle,
  settle_voucher, pay_by_id, handle_voucher_payment, post_pay_voucher, handle_x402_payment,
  pay_with, post_pay,
}
use cronos_stream.Resource.Unlock.{post_pay_voucher-is_paid}
use cronos_stream.Resource.Facilitated.{post_pay-is_paid}
use cronos_stream.Resource.Replay.{readdressed, post_pay_voucher-replayed}
use cronos_stream.Resource.Streaming.{create_voucher-get_data}
use cronos_stream.Tests.{demo, manager, start}
use cronos_stream.Tests.Sequencing.{backend, moment, channel, channels, request, answered}
use cronos_stream.Tests.Agreement.{signs_as, decimal, agrees, one_spelling, known, to_whom, issued}

abbrev shop : Shop
shop = record { paid = []; channels = channels }

abbrev body : Dict Value
body =
    ("paymentId", text "p1")
    ∷ ("channelId", text "0xC")
    ∷ ("amount", text "5")
    ∷ ("receiver", text "0xB")
    ∷ ("sequenceNumber", int (pos 5))
    ∷ ("timestamp", int (pos 1000))
    ∷ ("userSignature", text "0xsig")
    ∷ []

read : pay_voucher 0 body ≡ some request
unfolding pay_voucher
read = refl

entitles : is_paid "p1" (post_pay_voucher backend moment arrived 7 body shop).1.paid ≡ true
unfolding post_pay_voucher pay_by_id settle_voucher sequencer_settle handle_voucher_payment
    pay_voucher
entitles = rw answered refl

replied : (post_pay_voucher backend moment arrived 7 body shop).0 ≡ settled_reply
unfolding post_pay_voucher pay_by_id settle_voucher sequencer_settle handle_voucher_payment
    pay_voucher
replied = rw answered refl

another : ◌≢◌ {A = String} "p2" ""
another h = cc

trimmed : trim "p2" ≡ "p2"
unfolding trim
trimmed = refl

post_pay_voucher-replayed_example :
    let after = (post_pay_voucher backend moment arrived 7 body shop).1 in
    let (reply, again) = post_pay_voucher backend moment arrived 8 (readdressed "p2" body) after in
    (reply ≡ settled_reply)
    × (again.channels ≡ after.channels)
    × (get_data "pay_1" (some "p2") again ≡ content)
post_pay_voucher-replayed_example =
    post_pay_voucher-replayed backend moment moment arrived 7 8 "pay_1" "p2" body shop another
      trimmed refl replied

post_pay_voucher-is_paid_example :
    let after = (post_pay_voucher backend moment arrived 7 body shop).1 in
    (is_paid "p1" [] ≡ true)
    ⊎ ((lookup "paymentId" body ≡ some (text "p1"))
        × (payload : PayInChannelRequest) × (pay_voucher 7 body ≡ some payload)
        × (view : ChannelView) × (settle backend moment payload channels
            ≡ (success view, after.channels)))
post_pay_voucher-is_paid_example =
    post_pay_voucher-is_paid backend moment arrived 7 body shop "p1" entitles

-- A facilitator that settles every payment.
abbrev facilitator : Facilitator
facilitator = record {
  verify_payment = λ h r. some true;
  settle_payment = λ h r. some (some (some "0xtx"));
}

abbrev exact : Dict Value
exact =
    ("paymentId", text "p1") ∷ ("paymentHeader", text "h") ∷ ("paymentRequirements", object []) ∷ []

exact_entitles : is_paid "p1" (post_pay facilitator 7 exact shop).1.paid ≡ true
unfolding post_pay pay_with handle_x402_payment
exact_entitles = refl

post_pay-is_paid_example :
    (is_paid "p1" [] ≡ true)
    ⊎ ((lookup "paymentId" exact ≡ some (text "p1"))
        × (h r : Value) × (lookup "paymentHeader" exact ≡ some h)
        × (lookup "paymentRequirements" exact ≡ some r)
        × (facilitator.verify_payment h r ≡ some true)
        × (tx : Option String) × (facilitator.settle_payment h r ≡ some (some tx)))
post_pay-is_paid_example = post_pay-is_paid facilitator 7 exact shop "p1" exact_entitles

abbrev voucher : Dict Value
voucher =
    voucher_of (record manager { sequence_number = int (pos 5) }) "0xB" (pos 5) (pos 1000) "0xsig"
      (pos 25)

create_voucher-get_data_example :
    let (reply, after) =
      post_pay_voucher backend moment arrived 0 (insert "paymentId" (text "p2") voucher) shop in
    (reply ≡ settled_reply)
    × (get_data "pay_1" (some "p2") after ≡ content)
    × (u : ChannelState) × (lookup "0xC" after.channels ≡ some u)
    × Agrees backend (create_voucher demo "0xB" (pos 5) start).1.manager u
    × (owed u.recipients ≡ 35)
create_voucher-get_data_example =
    create_voucher-get_data demo backend moment (λ u. "0xco") (λ u. refl) (λ u. refl) start channel
      shop "pay_1" "p2" "0xB" 2 5 1000 0 signs_as decimal agrees refl refl one_spelling another
      trimmed known to_whom (omega arith) (omega arith) (omega arith) (omega arith) (omega arith)
      refl (omega arith) (omega arith) (omega arith) issued

-- JavaScript writes 2^60 with fewer digits, and 2^53 + 1 as its neighbour.
rounded :
    (large_number (2 ^ 60) ≡ some 1152921504606847000)
    × (large_number (2 ^ 53 + 1) ≡ some 9007199254740992)
unfolding large_number
rounded = (refl, refl)

-- A number with a decimal point is written without it.
whole : pay_voucher 0 (insert "sequenceNumber" (float (pos 50) 1) body) ≡ some request
unfolding pay_voucher
whole = refl
