-- ===== src/Tests/Benchmarking.antt =====
-- The benchmarks in the small world, whose sequencer does not know the channel.
use cronos_stream.Prelude.{ℕ, ◌*◌, ◌≤◌, ◌<◌, ◌≡◌, ◌≢◌, refl, none, some, [], ◌∷◌, length, arith}
use cronos_stream.Prelude.Int.{pos, ◌+ℤ◌}
use cronos_stream.Python.{lower, ok, raised, exception}
use cronos_stream.World.{World, Call, Trace, clock}
use cronos_stream.Benchmark.{BenchClient, Bench, sync_state, get_voucher, held_balances}
use cronos_stream.Benchmark.Runs.{
  send_live, live_round, live_rounds, finish_live, run_live_signing, presign, send_presigned,
  send_timed, finish_presigned, run_presigned, bench_body,
}
use cronos_stream.Benchmark.Ends.{run_live_signing_ends}
use cronos_stream.Benchmark.Vouchers.{purse}
use cronos_stream.Benchmark.Counts.{run_live_signing-Counted}
use cronos_stream.Benchmark.Presigned.{Stale, run_presigned-Stale}
use cronos_stream.Benchmark.Masked.{seeding, bench_body_masked}
use cronos_stream.Tests.{demo}

lowered : lower "0xAbCd" ≡ "0xabcd"
unfolding lower
lowered = refl

-- Each call takes a second.
abbrev ticks : Trace → ℕ
ticks past = 1000000 * length past

passes : (c : Call) (past : Trace) → ticks past < ticks (c ∷ past)
passes c past = omega arith

abbrev client : BenchClient
client = record { address = "0xU"; channel_id = "0xff"; sequence_number = pos 3; balances = none }

abbrev bench : Bench
bench = record { client = client; trace = [] }

run_live_signing_ends_example : (run_live_signing demo ticks 10 bench).0 ≢ ok none
run_live_signing_ends_example = run_live_signing_ends demo ticks passes 10 bench

live : (run_live_signing demo ticks 10 bench).0 ≡ ok (some (2, 2))
unfolding run_live_signing sync_state live_rounds live_round get_voucher send_live finish_live
    held_balances ◌+ℤ◌
live = refl

run_live_signing-Counted_example :
    ((run_live_signing demo ticks 10 bench).1.client.sequence_number ≡ pos 5)
    × (purse (run_live_signing demo ticks 10 bench).1.client ≡ pos 2)
    × (2 ≤ 2)
unfolding sync_state ◌+ℤ◌
run_live_signing-Counted_example = run_live_signing-Counted demo ticks 10 bench live

presigned : (run_presigned demo ticks 3 bench).0 ≡ ok 3
unfolding run_presigned sync_state presign get_voucher held_balances send_presigned send_timed
    finish_presigned ◌+ℤ◌
presigned = refl

run_presigned-Stale_example :
    Stale demo ticks 3
      (sync_state demo ticks bench).1.client
      (run_presigned demo ticks 3 bench).1.client
    × (3 ≤ 3)
run_presigned-Stale_example = run_presigned-Stale demo ticks 3 bench presigned

-- No post gets through.
abbrev offline : World
offline = record demo { post_reply = λ past url json. raised (exception "ConnectError") }

bench_body_masked_example :
    ((bench_body offline ticks bench).0 ≡ raised (exception "AttributeError"))
    × ((bench_body offline ticks bench).1.trace ≡ clock ∷ seeding offline ticks bench)
bench_body_masked_example = bench_body_masked offline ticks bench refl refl
