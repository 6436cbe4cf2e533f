-- ===== src/Benchmark/Runs.antt =====
-- scripts/benchmark_suite.py: `run_live_signing`, `run_presigned`, `close_channel` and `main`.
use cronos_stream.Prelude.{
  ℕ, zero, suc, ◌+◌, ◌*◌, String, ◌<>◌, not, Option, none, some, List, [], ◌∷◌, ltb, ◌==◌,
  nat_has_eq, string_has_eq, if◌then◌else◌,
}
use cronos_stream.Prelude.Int.{ℤ, pos, ◌+ℤ◌}
use cronos_stream.Python.{
  Dict, keys, Value, null, text, object, get, Outcome, ok, raised, exception, bind_outcome, Action,
  pure, raise, from_outcome, ◌>>=◌, ◌>>◌, gets, when, choose, catch, finally,
}
use cronos_stream.World.{World, Trace, Effect, post, sign_data}
use cronos_stream.Channel.{amounts_list}
use cronos_stream.Benchmark.{
  bench_sequencer_url, bench_service_url, BenchClient, Bench, reach, set_number, set_balances,
  new_bench_client, held_balances, bench_data, read_time, whole_seconds, sync_state, get_voucher,
  setup_channel,
}

-- A division by the time that has passed, between two readings of the clock.
abbrev pub divide_by_elapsed : ℕ → ℕ → Action Bench (Unit {0})
divide_by_elapsed from until = when (from == until) (raise (exception "ZeroDivisionError"))

module _ (w : World) (ticks : Trace → ℕ) where
  -- The `try` block of a live round: the successes and the answers that it counts, 0 or 1 each.
  unfoldable pub send_live : Value → Dict ℤ → Action Bench (ℕ × ℕ)
  send_live payload next =
      catch
        (do
          res ← reach (post w bench_service_url payload)
          choose (res.status == 200) (do set_balances next; pure (1, 1)) (pure (0, 1)))
        (λ e. pure (0, 0))

  unfoldable pub live_round : ℤ → Action Bench (ℕ × ℕ)
  live_round number = do v ← get_voucher w ticks (number +ℤ pos 1); send_live v.0 v.1

  -- The `while` loop, on fuel, with its sequence number and its two counts; `none` means that the
  -- fuel ran out.
  unfoldable pub live_rounds : ℕ → ℕ → ℤ → ℕ → ℕ → Action Bench (Option (ℤ × ℕ × ℕ))
  live_rounds zero end_time number won answered = pure none
  live_rounds (suc fuel) end_time number won answered = do
    now ← reach (read_time w ticks)
    choose (ltb now end_time)
        (do
          r ← live_round number
          live_rounds fuel end_time (number +ℤ pos r.0) (won + r.0) (answered + r.1))
        (pure (some (number, won, answered)))

  -- Behind the loop.
  unfoldable pub finish_live : ℕ → Option (ℤ × ℕ × ℕ) → Action Bench (Option (ℕ × ℕ))
  finish_live duration none = pure none
  finish_live duration (some (number, won, answered)) = do
    set_number number
    when (duration == 0) (raise (exception "ZeroDivisionError"))
    pure (some (won, answered))

  -- Fuel for one round in each microsecond.
  unfoldable pub run_live_signing : ℕ → Action Bench (Option (ℕ × ℕ))
  run_live_signing duration = do
    start ← reach (read_time w ticks)
    sync_state w ticks
    c ← gets (λ s. s.client)
    result ←
        live_rounds (suc (duration * 1000000)) (start + duration * 1000000) c.sequence_number 0 0
    finish_live duration result

  -- The vouchers, each behind the balances of the one before.
  unfoldable pub presign : ℕ → ℤ → Action Bench (List Value)
  presign zero number = pure []
  presign (suc count) number = do
    v ← get_voucher w ticks number
    set_balances v.1
    rest ← presign count (number +ℤ pos 1)
    pure (v.0 ∷ rest)

  -- The count of successes, up to the first refusal.
  unfoldable pub send_presigned : List Value → ℕ → Action Bench ℕ
  send_presigned [] won = pure won
  send_presigned (payload ∷ rest) won = do
    res ← reach (post w bench_service_url payload)
    choose (res.status == 200) (send_presigned rest (won + 1)) (pure won)

  unfoldable pub send_timed : List Value → Action Bench ℕ
  send_timed payloads = do
    t0 ← reach (read_time w ticks)
    won ← send_presigned payloads 0
    t1 ← reach (read_time w ticks)
    divide_by_elapsed t0 t1
    pure won

  -- Behind the generation, which began at `t0`.
  unfoldable pub finish_presigned : ℕ → List Value → Action Bench ℕ
  finish_presigned t0 payloads = do
    t1 ← reach (read_time w ticks)
    divide_by_elapsed t0 t1
    send_timed payloads

  unfoldable pub run_presigned : ℕ → Action Bench ℕ
  run_presigned count = do
    sync_state w ticks
    c ← gets (λ s. s.client)
    t0 ← reach (read_time w ticks)
    payloads ← presign count (c.sequence_number +ℤ pos 1)
    finish_presigned t0 payloads

  -- The `try` block of `close_channel`.
  unfoldable pub request_finalize : String → Action Bench (Unit {0})
  request_finalize channel = do
    res ← reach (
        post w (bench_sequencer_url <> "/channel/finalize")
          (object (("channelId", text channel) ∷ [])))
    when (res.status == 200) (do
      hash ← from_outcome (bind_outcome (res.json) (λ v. get v "transactionHash" null))
      pure tt)

  -- The signature is made and not used.
  unfoldable pub bench_close : Action Bench (Unit {0})
  bench_close = do
    now ← reach (read_time w ticks)
    c ← gets (λ s. s.client)
    held ← from_outcome (held_balances c)
    let recipients = keys held
    signature ← reach (
        sign_data w (
          bench_data c.channel_id c.sequence_number (whole_seconds w ticks now) recipients
            (amounts_list held recipients)))
    catch (request_finalize c.channel_id) (λ e. pure tt)

  unfoldable pub bench_work : Action Bench (Unit {0})
  bench_work = do
    setup_channel w ticks
    live ← run_live_signing 10
    won ← run_presigned 1000
    pure tt

  unfoldable pub bench_cleanup : Action Bench (Unit {0})
  bench_cleanup = do c ← gets (λ s. s.client); when (not (c.channel_id == "")) bench_close

  unfoldable pub bench_body : Action Bench (Unit {0})
  bench_body = finally bench_work bench_cleanup

  unfoldable pub bench_started : Outcome BenchClient → Trace → Outcome (Unit {0}) × Trace
  bench_started (raised e) past = (raised e, past)
  bench_started (ok c) past =
      let (r, s) = bench_body (record { client = c; trace = past }) in (r, s.trace)

  -- A missing or empty key ends the program at once.
  unfoldable pub bench_main : Effect (Unit {0})
  bench_main past = elim (w.env "X402_AGENT_PRIVATE_KEY") as (λ _. Outcome (Unit {0}) × Trace) [
    | none ↦ (ok tt, past)
    | some key ↦ if key == "" then (ok tt, past) else bench_started (new_bench_client w key) past
  ]
