-- ===== src/Resource.antt =====
-- a2a/resource-service: the paid resource, what unlocks it, and the two ways to pay.
pub mod Replay
pub mod Unlock
pub mod Facilitated
pub mod Streaming
use cronos_stream.Prelude.{
  ℕ, String, Char, code, Bool, true, false, not, ◌||◌, ◌&&◌, Option, none, some, List, [], ◌∷◌, leb,
  ◌==◌, nat_has_eq, string_has_eq, if◌then◌else◌,
}
use cronos_stream.Python.{Dict, lookup, insert, Value, null, bool, int, float, text, list, dict}
use cronos_stream.Prelude.Int.{pos, int_has_eq}
use cronos_stream.Sequencer.{
  PayInChannelRequest, ChannelView, Result, success, failure, Backend, Moment, Channels,
}
use cronos_stream.Sequencer.PayVoucher.{truthy_field, pay_voucher}
use cronos_stream.Sequencer.Service.{settle}

-- `PaidRecord`
pub record PaidRecord : Type 0 where
  pub settled : Bool
  pub tx_hash : Option String
  pub at : ℕ

-- The module's map `paid`, and the sequencer's channels, which a payment by voucher changes.
pub record Shop : Type 0 where
  pub paid : Dict PaidRecord
  pub channels : Channels

-- What becomes of the request that the service sends to the sequencer.
pub data Transport : Type 0 where
  arrived unreachable answer_lost : Transport

pub data Reply : Type 0 where
  content settled_reply bad_request not_settled server_error : Reply
  challenge : (payment_id : String) → Reply

-- The white space of JavaScript's `trim`.
is_space : ℕ → Bool
is_space c =
    (leb 9 c && leb c 13)
    || c == 32
    || c == 160
    || c == 5760
    || (leb 8192 c && leb c 8202)
    || c == 8232
    || c == 8233
    || c == 8239
    || c == 8287
    || c == 12288
    || c == 65279

trim_start : String → String
unfolding is_space
trim_start String.[] = ""
trim_start (String.◌∷◌ c s) =
    let rest = trim_start s in if is_space (code c) then rest else String.◌∷◌ c s

trim_end : String → String
unfolding is_space
trim_end String.[] = ""
trim_end (String.◌∷◌ c s) =
    let rest = trim_end s in if rest == "" && is_space (code c) then "" else String.◌∷◌ c rest

unfoldable pub trim : String → String
unfolding trim_start trim_end
trim s = trim_end (trim_start s)

-- `paid.get(key)?.settled`
abbrev pub is_paid : String → Dict PaidRecord → Bool
is_paid key paid = elim (lookup key paid) [ none ↦ false | some r ↦ r.settled ]

-- GET /api/data with the header x-payment-id, or without it: the middleware of
-- `requireX402Payment`, and `getSecret` behind it. `fresh` is a new identifier.
unfoldable pub get_data : String → Option String → Shop → Reply
get_data fresh header shop =
    let key = trim (elim header [ none ↦ "" | some h ↦ h ]) in
    if not (key == "") && is_paid key shop.paid then content else challenge fresh

-- A record of `paid.set`.
abbrev pub entitled : ℕ → Option String → PaidRecord
entitled at tx = record { settled = true; tx_hash = tx; at = at }

-- `paid.set`. An identifier that is no text is a key that no header can name.
abbrev pub mark_settled : ℕ → Value → Option String → Shop → Shop
mark_settled at (text id) tx shop = record shop { paid = insert id (entitled at tx) shop.paid }
mark_settled at _ tx shop = shop

-- `handleVoucherPayment`
unfoldable pub handle_voucher_payment : ℕ → Value → Shop → Shop
handle_voucher_payment at id shop = mark_settled at id none shop

-- Whether the sequencer's answer has a status that is ok.
abbrev pub response_ok : Result ChannelView × Channels → Bool × Channels
response_ok (success view, after) = (true, after)
response_ok (failure e, after) = (false, after)

-- `settleVoucher` of sequencer.client.ts: whether its result is ok.
unfoldable pub sequencer_settle :
    Backend → Moment → Transport → PayInChannelRequest → Channels → Bool × Channels
sequencer_settle b moment unreachable payload channels = (false, channels)
sequencer_settle b moment answer_lost payload channels =
    (false, (settle b moment payload channels).1)
sequencer_settle b moment arrived payload channels = response_ok (settle b moment payload channels)

-- What `settleVoucher` of resource.service.ts does with the result, and the handler's answer.
abbrev pub record_result : ℕ → Value → Shop → Bool × Channels → Reply × Shop
record_result at id shop (true, after) =
    (settled_reply, handle_voucher_payment at id (record shop { channels = after }))
record_result at id shop (false, after) = (not_settled, record shop { channels = after })

module _ (b : Backend) (moment : Moment) (transport : Transport) (date_now : ℕ) where
  unfoldable pub settle_voucher : Value → PayInChannelRequest → Shop → Reply × Shop
  settle_voucher id payload shop =
      record_result date_now id shop (sequencer_settle b moment transport payload shop.channels)

  -- A voucher that `pay_voucher` refuses is one with a missing field, or one that the sequencer
  -- cannot read; each is an answer of status 400.
  unfoldable pub pay_by_id : Option Value → Option PayInChannelRequest → Shop → Reply × Shop
  pay_by_id none read shop = (bad_request, shop)
  pay_by_id (some id) none shop = (bad_request, shop)
  pay_by_id (some id) (some payload) shop = settle_voucher id payload shop

  -- POST /api/pay-voucher
  unfoldable pub post_pay_voucher : Dict Value → Shop → Reply × Shop
  post_pay_voucher body shop =
      pay_by_id (truthy_field "paymentId" body) (pay_voucher date_now body) shop

-- The facilitator's two answers, each of which may be an exception: whether the payment is valid,
-- and the transaction's hash where the event says that it is settled.
pub record Facilitator : Type 0 where
  pub verify_payment : Value → Value → Option Bool
  pub settle_payment : Value → Value → Option (Option (Option String))

-- What follows the facilitator's answer on the settlement.
abbrev pub record_settlement : ℕ → Value → Shop → Option (Option (Option String)) → Reply × Shop
record_settlement at id shop none = (server_error, shop)
record_settlement at id shop (some none) = (not_settled, shop)
record_settlement at id shop (some (some tx)) = (settled_reply, mark_settled at id tx shop)

module _ (f : Facilitator) (date_now : ℕ) where
  abbrev pub settle_verified : Value → Value → Value → Shop → Option Bool → Reply × Shop
  settle_verified id header requirements shop none = (server_error, shop)
  settle_verified id header requirements shop (some false) = (not_settled, shop)
  settle_verified id header requirements shop (some true) =
      record_settlement date_now id shop (f.settle_payment header requirements)

  -- `handleX402Payment`
  unfoldable pub handle_x402_payment : Value → Value → Value → Shop → Reply × Shop
  handle_x402_payment id header requirements shop =
      settle_verified id header requirements shop (f.verify_payment header requirements)

  unfoldable pub pay_with : Option Value → Option Value → Option Value → Shop → Reply × Shop
  pay_with (some id) (some header) (some requirements) shop =
      handle_x402_payment id header requirements shop
  pay_with _ _ _ shop = (bad_request, shop)

  -- POST /api/pay
  unfoldable pub post_pay : Dict Value → Shop → Reply × Shop
  post_pay body shop =
      pay_with (truthy_field "paymentId" body) (truthy_field "paymentHeader" body)
        (truthy_field "paymentRequirements" body) shop
