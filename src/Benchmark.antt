-- ===== src/Benchmark.antt =====
-- scripts/benchmark_suite.py: `BenchmarkClient`, its state, `sync_state`, `get_voucher` and
-- `setup_channel`. The children model the two benchmarks, the closing and `main`.
pub mod Runs
pub mod Ends
pub mod Vouchers
pub mod Counts
pub mod Presigned
pub mod Masked
use cronos_stream.Prelude.{
  ℕ, ◌/◌, String, ◌<>◌, Option, none, some, List, [], ◌∷◌, ◌==◌, nat_has_eq,
}
use cronos_stream.Prelude.Int.{ℤ, pos, ◌+ℤ◌}
use cronos_stream.Python.{
  Dict, get_or, insert, Value, int, text, object, index, iterate, to_int, str_int, as_text, lower,
  Outcome, ok, raised, exception, bind_outcome, Action, pure, from_outcome, ◌>>=◌, ◌>>◌, modify,
  gets, choose,
}
use cronos_stream.World.{
  World, Trace, TypedData, clock, token_hex, Effect, perform, http_get_with, post, sign_data,
}
use cronos_stream.Channel.{channel_types}

abbrev pub bench_sequencer_url : String
bench_sequencer_url = "http://localhost:4001"

abbrev pub bench_service_url : String
bench_service_url = "http://localhost:8787/api/pay-voucher"

abbrev pub bench_contract : String
bench_contract = "0xE118E04431853e9df5390E1AACF36dEF6A7a0254"

abbrev pub merchant : String
merchant = "0x2aece1250b1774f3fc462424475705cf4cf539de"

-- The empty text stands for a `channel_id` of None, and `none` for `balances` before its first
-- assignment.
pub record BenchClient : Type 0 where
  pub address : String
  pub channel_id : String
  pub sequence_number : ℤ
  pub balances : Option (Dict ℤ)

pub record Bench : Type 0 where
  pub client : BenchClient
  pub trace : Trace

abbrev pub reach : {A : Type 0} → Effect A → Action Bench A
reach m s = let (r, past) = m s.trace in (r, record s { trace = past })

abbrev pub set_number : ℤ → Action Bench (Unit {0})
set_number n = modify (λ s. record s { client = record (s.client) { sequence_number = n } })

abbrev pub set_balances : Dict ℤ → Action Bench (Unit {0})
set_balances d = modify (λ s. record s { client = record (s.client) { balances = some d } })

unfoldable pub new_bench_client : World → String → Outcome BenchClient
new_bench_client w private_key = bind_outcome (w.account_of private_key) λ account.
    ok (record { address = account; channel_id = ""; sequence_number = pos 0; balances = none })

-- `self.balances`
unfoldable pub held_balances : BenchClient → Outcome (Dict ℤ)
held_balances c = elim (c.balances) [ none ↦ raised (exception "AttributeError") | some d ↦ ok d ]

-- The document that both `get_voucher` and `close_channel` sign.
unfoldable pub bench_data : String → ℤ → ℤ → List String → List ℤ → TypedData
bench_data channel number timestamp recipients amounts = record {
  types = channel_types;
  domain_name = "StreamChannel";
  domain_version = "1";
  chain_id = pos 338;
  verifying_contract = bench_contract;
  primary_type = "ChannelData";
  channel_id = channel;
  sequence_number = int number;
  timestamp = timestamp;
  recipients = recipients;
  amounts = amounts;
}

unfoldable pub bench_payload : String → ℤ → ℤ → String → Value
bench_payload channel number timestamp signature = object (
    ("channelId", text channel)
    ∷ ("amount", text (str_int (pos 1)))
    ∷ ("receiver", text merchant)
    ∷ ("sequenceNumber", int number)
    ∷ ("timestamp", int timestamp)
    ∷ ("userSignature", text signature)
    ∷ ("paymentId", text "bench-payment-id")
    ∷ [])

unfoldable pub bench_seed : String → String → ℤ → Value
bench_seed channel address expiry = object (
    ("channelId", text channel)
    ∷ ("owner", text address)
    ∷ ("balance", text "1000000000")
    ∷ ("expiryTimestamp", int expiry)
    ∷ [])

-- `time.time()` in microseconds, and `int(time.time())`.
module _ (w : World) (ticks : Trace → ℕ) where
  abbrev pub read_time : Effect ℕ
  read_time = perform clock (λ past. ok (ticks past))

  abbrev pub whole_seconds : ℕ → ℤ
  whole_seconds t = pos (t / 1000000)

  -- One round of the loop over the recipients. The dict is there: it was just made.
  unfoldable pub enter_balance : Value → Action Bench (Unit {0})
  enter_balance r = do
    address ← from_outcome (bind_outcome (index r "recipientAddress") as_text)
    amount ← from_outcome (bind_outcome (index r "balance") to_int)
    c ← gets (λ s. s.client)
    held ← from_outcome (held_balances c)
    set_balances (insert (lower address) amount held)

  unfoldable pub enter_balances : List Value → Action Bench (Unit {0})
  enter_balances [] = pure tt
  enter_balances (r ∷ rs) = enter_balance r >> enter_balances rs

  unfoldable pub sync_from : Value → Action Bench (Unit {0})
  sync_from view = do
    number ← from_outcome (bind_outcome (index view "sequenceNumber") to_int)
    set_number number
    set_balances []
    recipients ← from_outcome (bind_outcome (index view "recipients") iterate)
    enter_balances recipients

  unfoldable pub sync_state : Action Bench (Unit {0})
  sync_state = do
    c ← gets (λ s. s.client)
    res ← reach (http_get_with w (bench_sequencer_url <> "/channel/" <> c.channel_id) [])
    choose (res.status == 200) (do view ← from_outcome (res.json); sync_from view) (set_balances [])

  -- The payload and the balances behind it. The client's own balances stay.
  unfoldable pub get_voucher : ℤ → Action Bench (Value × Dict ℤ)
  get_voucher number = do
    now ← reach read_time
    c ← gets (λ s. s.client)
    held ← from_outcome (held_balances c)
    let total = get_or merchant (pos 0) held +ℤ pos 1
    let seconds = whole_seconds now
    signature ←
        reach (sign_data w (bench_data c.channel_id number seconds (merchant ∷ []) (total ∷ [])))
    pure (bench_payload c.channel_id number seconds signature, insert merchant total held)

  -- A refusal by the sequencer is printed, and no more.
  unfoldable pub setup_channel : Action Bench (Unit {0})
  setup_channel = do
    id ← reach (perform token_hex (λ past. ok (w.random_hex past)))
    modify (λ s. record s { client = record (s.client) { channel_id = "0x" <> id } })
    c ← gets (λ s. s.client)
    now ← reach read_time
    res ← reach (
        post w (bench_sequencer_url <> "/channel/seed")
          (bench_seed c.channel_id c.address (whole_seconds now +ℤ pos 3600)))
    pure tt
