-- ===== src/Benchmark/Masked.antt =====
-- `main` of scripts/benchmark_suite.py when the sequencer cannot be reached.
use cronos_stream.Prelude.{
  ℕ, String, ◌<>◌, ◌≡◌, ◌≢◌, ap, sym, ◌∙◌, none, ◌∷◌, arith, eq_iff, string_has_eq,
}
use text.Mathlib.TextLemmas.{cons≢nil, cons-append}
use cronos_stream.Prelude.Int.{pos, ◌+ℤ◌}
use cronos_stream.Python.{
  Value, Outcome, raised, Exn, exception, Action, pure, ◌>>=◌, >>=-elim, finally,
}
use cronos_stream.World.{World, Trace, clock, token_hex, http_post}
use cronos_stream.Benchmark.{
  bench_sequencer_url, Bench, held_balances, bench_seed, setup_channel, whole_seconds,
}
use cronos_stream.Benchmark.Runs.{
  run_live_signing, run_presigned, bench_close, bench_work, bench_cleanup, bench_body,
}

prefix-ne-empty : (x : String) → ("0x" <> x) ≢ ""
prefix-ne-empty x h = cons≢nil (sym (cons-append "0" "x" x) ∙ h)

module _ (w : World) (ticks : Trace → ℕ) (s : Bench) where
  -- The seed of the channel that is made up, and the calls up to its post.
  abbrev pub seed_call : Value
  seed_call =
      bench_seed ("0x" <> w.random_hex s.trace) s.client.address
        (whole_seconds w ticks (ticks (token_hex ∷ s.trace)) +ℤ pos 3600)

  abbrev pub seeding : Trace
  seeding =
      http_post (bench_sequencer_url <> "/channel/seed") seed_call ∷ clock ∷ token_hex ∷ s.trace

  -- The client then, with no balances.
  abbrev pub seeded : Bench
  seeded = record {
    client = record (s.client) { channel_id = "0x" <> w.random_hex s.trace };
    trace = seeding;
  }

  setup_channel_fails :
      {e : Exn}
      → w.post_reply
          (clock ∷ token_hex ∷ s.trace)
          (bench_sequencer_url <> "/channel/seed")
          seed_call
        ≡ raised e
      → setup_channel w ticks s ≡ (raised e, seeded)
  unfolding setup_channel
  setup_channel_fails {e} refused = ground arith

  bench_work_fails :
      {e : Exn}
      → w.post_reply
          (clock ∷ token_hex ∷ s.trace)
          (bench_sequencer_url <> "/channel/seed")
          seed_call
        ≡ raised e
      → bench_work w ticks s ≡ (raised e, seeded)
  unfolding bench_work
  bench_work_fails {e} refused =
      >>=-elim (λ p. p ≡ (raised e, seeded)) (setup_channel w ticks)
        (λ _. do live ← run_live_signing w ticks 10; won ← run_presigned w ticks 1000; pure tt) s
        (λ e' h. let ends = setup_channel_fails {e = e} refused in ground arith)
        (λ _ h. let ends = setup_channel_fails {e = e} refused in absurd (ground arith))

  bench_cleanup_fails :
      s.client.balances ≡ none
      → bench_cleanup w ticks seeded
        ≡ (raised (exception "AttributeError"), record seeded { trace = clock ∷ seeding })
  unfolding bench_cleanup bench_close held_balances
  bench_cleanup_fails fresh =
      ground
        (arith, eq_iff ("0x" <> w.random_hex s.trace) "", prefix-ne-empty (w.random_hex s.trace))

  finally_raises :
      (body cleanup : Action Bench (Unit {0})) {r : Outcome (Unit {0})} {s' t : Bench} {e : Exn}
      → body s ≡ (r, s')
      → cleanup s' ≡ (raised e, t)
      → finally body cleanup s ≡ (raised e, t)
  finally_raises body cleanup h k = ground arith

  -- A client that is new has no balances. When the post of its seed raises, the closing that `main`
  -- attempts fails on the missing balances: its `AttributeError` takes the place of the exception,
  -- and behind the seed only the clock was read.
  pub bench_body_masked :
      {e : Exn}
      → s.client.balances ≡ none
      → w.post_reply
          (clock ∷ token_hex ∷ s.trace)
          (bench_sequencer_url <> "/channel/seed")
          seed_call
        ≡ raised e
      → ((bench_body w ticks s).0 ≡ raised (exception "AttributeError"))
        × ((bench_body w ticks s).1.trace ≡ clock ∷ seeding)
  unfolding bench_body
  bench_body_masked {e} fresh refused =
      let run =
        finally_raises (bench_work w ticks) (bench_cleanup w ticks)
          (bench_work_fails {e = e} refused) (bench_cleanup_fails fresh) in
      (ap (λ p. p.0) run, ap (λ p. p.1.trace) run)
