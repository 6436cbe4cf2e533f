-- ===== src/Benchmark/Counts.antt =====
-- What the live benchmark counts, beside the client's sequence number and the merchant's balance.
use cronos_stream.Prelude.{
  ℕ, zero, suc, ◌+◌, ◌*◌, ◌≤◌, ◌≡◌, ◌∙◌, ap, sym, refl, Option, none, some, ◌∷◌, arith, ltb,
  nat_has_eq, string_has_eq, Bool-cases, inl, inr,
}
use mathlib.Core.Path.{subst}
use cronos_stream.Prelude.Int.{ℤ, pos, ◌+ℤ◌, int_laws}
use cronos_stream.Python.{Dict, get_or, Value, Outcome, ok, ◌>>=◌, gets, >>=-elim}
use cronos_stream.World.{World, Trace, clock}
use cronos_stream.Benchmark.{merchant, Bench, sync_state, get_voucher}
use cronos_stream.Benchmark.Runs.{send_live, live_round, live_rounds, finish_live, run_live_signing}
use cronos_stream.Benchmark.Vouchers.{purse, add_zero, get_voucher_keeps, get_voucher-eq-ok}

same_counts :
    {a b : ℤ × ℕ × ℕ} → ◌≡◌ {A = Outcome (Option (ℤ × ℕ × ℕ))} (ok (some a)) (ok (some b)) → a ≡ b
same_counts h = cc

shift : (x y : ℤ) (m k n : ℕ) → x +ℤ pos (m + k) ≡ y +ℤ pos k +ℤ pos n → x +ℤ pos m ≡ y +ℤ pos n
shift x y m k n h = grind int_laws

module _ (w : World) (ticks : Trace → ℕ) where
  send_live-eq-ok :
      (payload : Value) (next : Dict ℤ) (s : Bench) {r : ℕ × ℕ}
      → get_or merchant (pos 0) next ≡ purse s.client +ℤ pos 1
      → (send_live w ticks payload next s).0 ≡ ok r
      → let t = (send_live w ticks payload next s).1 in
        (purse t.client ≡ purse s.client +ℤ pos r.0) × (r.0 ≤ r.1)
  unfolding send_live
  send_live-eq-ok payload next s paid h = grind (arith, add_zero)

  live_round-eq-ok :
      (n : ℤ) (s : Bench) {r : ℕ × ℕ}
      → (live_round w ticks n s).0 ≡ ok r
      → (purse (live_round w ticks n s).1.client ≡ purse s.client +ℤ pos r.0) × (r.0 ≤ r.1)
  unfolding live_round
  live_round-eq-ok n s {r} =
      >>=-elim (λ p. p.0 ≡ ok r → (purse p.1.client ≡ purse s.client +ℤ pos r.0) × (r.0 ≤ r.1))
        (get_voucher w ticks (n +ℤ pos 1)) (λ v. send_live w ticks v.0 v.1) s (λ e _ h. cc)
        (λ v made h.
          let t = (get_voucher w ticks (n +ℤ pos 1) s).1 in
          let kept : purse t.client ≡ purse s.client =
            ap purse (get_voucher_keeps w ticks (n +ℤ pos 1) s) in
          let (_, paid) = get_voucher-eq-ok w ticks (n +ℤ pos 1) s {v = v} made in
          let (credited, counted) =
            send_live-eq-ok v.0 v.1 t {r = r} (paid ∙ ap (λ x. x +ℤ pos 1) (sym kept)) h in
          (credited ∙ ap (λ x. x +ℤ pos r.0) kept, counted))

  -- The counts of a loop that has started with the counts `won` and `answered`.
  Counted : ℤ → ℕ → ℕ → Bench → Bench → ℤ × ℕ × ℕ → Type 0
  Counted n won answered s t r =
      (r.0 +ℤ pos won ≡ n +ℤ pos r.1)
      × (purse t.client +ℤ pos won ≡ purse s.client +ℤ pos r.1)
      × (r.1 + answered ≤ won + r.2)

  Counted-start :
      (n : ℤ) (won answered : ℕ) (s t : Bench)
      → t.client ≡ s.client
      → Counted n won answered s t (n, won, answered)
  unfolding Counted
  Counted-start n won answered s t same = (refl, ap (λ c. purse c +ℤ pos won) same, omega arith)

  Counted-round :
      (n : ℤ) (won answered : ℕ) (s s' t : Bench) (q : ℕ × ℕ) (r : ℤ × ℕ × ℕ)
      → purse s'.client ≡ purse s.client +ℤ pos q.0
      → q.0 ≤ q.1
      → Counted (n +ℤ pos q.0) (won + q.0) (answered + q.1) s' t r
      → Counted n won answered s t r
  unfolding Counted
  Counted-round n won answered s s' t q r paid counted (a, b, c) = (
    shift r.0 n won q.0 r.1 a,
    shift (purse t.client) (purse s.client) won q.0 r.1 (b ∙ ap (λ x. x +ℤ pos r.1) paid),
    omega arith,
  )

  live_rounds-Counted :
      (fuel end_time : ℕ) (n : ℤ) (won answered : ℕ) (s : Bench) {r : ℤ × ℕ × ℕ}
      → (live_rounds w ticks fuel end_time n won answered s).0 ≡ ok (some r)
      → Counted n won answered s (live_rounds w ticks fuel end_time n won answered s).1 r
  unfolding live_rounds
  live_rounds-Counted zero end_time n won answered s = λ h. cc
  live_rounds-Counted (suc fuel) end_time n won answered s {r} =
      let s' : Bench = record s { trace = clock ∷ s.trace } in
      elim (Bool-cases (ltb (ticks s.trace) end_time)) [
        | inl more ↦ rw more (
            >>=-elim (λ p. p.0 ≡ ok (some r) → Counted n won answered s p.1 r)
              (live_round w ticks n)
              (λ q. live_rounds w ticks fuel end_time (n +ℤ pos q.0) (won + q.0) (answered + q.1))
              s' (λ e _ h'. cc)
              (λ q made h'.
                let (paid, counted) = live_round-eq-ok n s' {r = q} made in
                let t = (live_round w ticks n s').1 in
                Counted-round n won answered s t
                  (live_rounds w ticks fuel end_time (n +ℤ pos q.0) (won + q.0) (answered + q.1)
                    t).1
                  q r paid counted
                  (live_rounds-Counted fuel end_time (n +ℤ pos q.0) (won + q.0) (answered + q.1) t
                    {r = r} h')))
        | inr over ↦ rw over λ h.
            subst (Counted n won answered s s') {x = (n, won, answered)} {y = r} (same_counts h)
              (Counted-start n won answered s s' refl)
      ]

  finish_live-Counted :
      (duration : ℕ) (before : ℤ) (s t : Bench) (r : Option (ℤ × ℕ × ℕ)) {won answered : ℕ}
      → ((q : ℤ × ℕ × ℕ) → r ≡ some q → Counted before 0 0 s t q)
      → (finish_live w ticks duration r t).0 ≡ ok (some (won, answered))
      → let c = (finish_live w ticks duration r t).1.client in
        (c.sequence_number ≡ before +ℤ pos won)
        × (purse c ≡ purse s.client +ℤ pos won)
        × (won ≤ answered)
  unfolding finish_live Counted
  finish_live-Counted duration before s t none counted h = cc
  finish_live-Counted duration before s t (some (n, won', answered')) {won} {answered} counted h =
      let (number, paid, few) = counted (n, won', answered') refl in
      let numbered = sym (add_zero n) ∙ number in
      let balanced = sym (add_zero (purse t.client)) ∙ paid in ground arith

  -- A live benchmark that ends with its counts has moved the sequence number and the merchant's
  -- balance by its successes, from where its synchronisation had put them, and has had no more
  -- successes than answers.
  pub run_live_signing-Counted :
      (duration : ℕ) (s : Bench) {won answered : ℕ}
      → (run_live_signing w ticks duration s).0 ≡ ok (some (won, answered))
      → let synced = (sync_state w ticks (record s { trace = clock ∷ s.trace })).1.client in
        let c = (run_live_signing w ticks duration s).1.client in
        (c.sequence_number ≡ synced.sequence_number +ℤ pos won)
        × (purse c ≡ purse synced +ℤ pos won)
        × (won ≤ answered)
  unfolding run_live_signing
  run_live_signing-Counted duration s {won} {answered} =
      let s' : Bench = record s { trace = clock ∷ s.trace } in
      let t = (sync_state w ticks s').1 in
      let rounds =
        live_rounds w ticks (suc (duration * 1000000)) (ticks s.trace + duration * 1000000)
          t.client.sequence_number 0 0 in
      let Wanted : Outcome (Option (ℕ × ℕ)) × Bench → Type 0 = λ p.
        p.0 ≡ ok (some (won, answered))
        → (p.1.client.sequence_number ≡ t.client.sequence_number +ℤ pos won)
          × (purse p.1.client ≡ purse t.client +ℤ pos won)
          × (won ≤ answered) in
      >>=-elim Wanted (sync_state w ticks)
        (λ _. do
          c ← gets (λ s. s.client)
          result ←
              live_rounds w ticks (suc (duration * 1000000)) (ticks s.trace + duration * 1000000)
                c.sequence_number 0 0
          finish_live w ticks duration result)
        s' (λ e _ h. cc)
        (λ _ _.
          >>=-elim Wanted rounds (finish_live w ticks duration) t (λ e _ h. cc)
            (λ r made h.
              finish_live-Counted duration t.client.sequence_number t (rounds t).1 r
                (λ q e.
                  live_rounds-Counted (suc (duration * 1000000))
                    (ticks s.trace + duration * 1000000) t.client.sequence_number 0 0 t {r = q}
                    (made ∙ ap ok e))
                h))
