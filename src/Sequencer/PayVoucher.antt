-- ===== src/Sequencer/PayVoucher.antt =====
-- a2a/resource-service: the body of POST /api/pay-voucher, which `payVoucher` of
-- controllers/resource.controller.ts and `settleVoucher` of services/resource.service.ts pass on to
-- the sequencer.
use cronos_stream.Prelude.{
  ℕ, zero, suc, ◌+◌, ◌*◌, ◌/◌, ◌%◌, ◌^◌, String, Bool, true, false, not, ◌&&◌, ◌||◌, Option, none,
  some, ltb, leb, ◌==◌, nat_has_eq, string_has_eq, if◌then◌else◌,
}
use cronos_stream.Prelude.Int.{pos, int_has_eq}
use cronos_stream.Python.{Dict, lookup, Value, null, bool, int, float, text, list, dict}
use cronos_stream.Sequencer.{PayInChannelRequest}

-- A text that is not empty; the sequencer reads no other kind of value here.
abbrev some_text : Value → Option String
some_text (text s) = if s == "" then none else some s
some_text _ = none

abbrev pub text_field : String → Dict Value → Option String
text_field k body = elim (lookup k body) [ none ↦ none | some v ↦ some_text v ]

-- A truthy value of JavaScript; lists and objects all are.
abbrev pub js_truthy : Value → Bool
js_truthy null = false
js_truthy (bool b) = b
js_truthy (int n) = not (n == pos 0)
js_truthy (float m k) = not (m == pos 0)
js_truthy (text s) = not (s == "")
js_truthy (list vs) = true
js_truthy (dict fs) = true

abbrev pub truthy_field : String → Dict Value → Option Value
truthy_field k body = elim (lookup k body) [
  | none ↦ none
  | some v ↦ if js_truthy v then some v else none
]

-- The multiple of `unit` that is nearest to `n`, and of two the even one.
abbrev nearest : ℕ → ℕ → ℕ
nearest unit n =
    let below = n / unit * unit in
    let twice = 2 * (n % unit) in
    if ltb twice unit || (twice == unit && n / unit % 2 == 0) then below else below + unit

-- How far apart the numbers of 64-bit floating point stand at `n`, from 2^53 to 2^64.
abbrev spacing : ℕ → ℕ → ℕ
spacing zero n = 1
spacing (suc e) n = let rest = spacing e n in if leb (2 ^ (53 + e)) n then 2 ^ suc e else rest

abbrev double : ℕ → ℕ
double n = nearest (spacing 11 n) n

-- JavaScript writes as few digits as tell `v` from other numbers, and then zeros.
abbrev shortest : ℕ → ℕ → ℕ
shortest zero v = v
shortest (suc j) v =
    let rest = shortest j v in
    let short = nearest (10 ^ suc j) v in if double short == v then short else rest

-- A number of 2^53 or more, read and written again, and then read as a `u64`.
unfoldable pub large_number : ℕ → Option ℕ
large_number n =
    let written = shortest 19 (double n) in
    if ltb n (2 ^ 64) && ltb written (2 ^ 64) then some written else none

-- A whole number as it reaches the sequencer. Where there is none, a default. A decimal that is
-- not whole does not; one that is so near to a whole number that JavaScript reads that is left out.
abbrev some_number : ℕ → Value → Option ℕ
some_number default null = some default
some_number default (int (pos n)) = if ltb n (2 ^ 53) then some n else large_number n
some_number default (float (pos m) k) =
    if m % 10 ^ k == 0
    then (if ltb (m / 10 ^ k) (2 ^ 53) then some (m / 10 ^ k) else large_number (m / 10 ^ k))
    else none
some_number default _ = none

abbrev pub number_field : ℕ → String → Dict Value → Option ℕ
number_field default k body = elim (lookup k body) [
  | none ↦ some default
  | some v ↦ some_number default v
]

abbrev pub and_then : {A B : Type 0} → Option A → (A → Option B) → Option B
and_then none f = none
and_then (some a) f = f a

-- The request that goes to the sequencer, which has no payment id.
abbrev pub voucher_request : ℕ → Dict Value → Option PayInChannelRequest
voucher_request date_now body = and_then (text_field "channelId" body) λ channel_id.
    and_then (text_field "amount" body) λ amount. and_then (text_field "receiver" body) λ receiver.
      and_then (text_field "userSignature" body) λ user_signature.
        and_then (number_field 0 "sequenceNumber" body) λ sequence_number.
          and_then (number_field date_now "timestamp" body) λ timestamp. some (record {
            channel_id = channel_id;
            amount = amount;
            receiver = receiver;
            sequence_number = sequence_number;
            timestamp = timestamp;
            user_signature = user_signature;
            purpose = none;
            fee_for_payment = none;
          })

-- `none` stands for an answer of status 400. `date_now` is `Date.now()`.
unfoldable pub pay_voucher : ℕ → Dict Value → Option PayInChannelRequest
pay_voucher date_now body =
    and_then (truthy_field "paymentId" body) λ payment_id. voucher_request date_now body
