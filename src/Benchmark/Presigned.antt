-- ===== src/Benchmark/Presigned.antt =====
-- The pre-signed benchmark: its vouchers, and the client behind it.
use cronos_stream.Prelude.{
  ℕ, zero, suc, ◌+◌, ◌≤◌, ◌≡◌, ◌∙◌, ap, sym, refl, some, List, [], ◌∷◌, length, arith, nat_has_eq,
  string_has_eq,
}
use mathlib.Core.Path.{subst}
use cronos_stream.Prelude.Int.{ℤ, pos, ◌+ℤ◌, int_laws}
use cronos_stream.Python.{Value, Outcome, ok, pure, ◌>>=◌, ◌>>◌, ok_injective, gets, >>=-elim}
use cronos_stream.World.{World, Trace, http_post, clock}
use cronos_stream.Benchmark.{
  bench_service_url, BenchClient, Bench, reach, set_balances, read_time, sync_state, get_voucher,
}
use cronos_stream.Benchmark.Runs.{
  presign, send_presigned, send_timed, finish_presigned, run_presigned,
}
use cronos_stream.Benchmark.Vouchers.{
  purse, IsVoucher, AreVouchers, add_zero, get_voucher_keeps, get_voucher-eq-ok,
}

next_total : (a : ℤ) (k : ℕ) → a +ℤ pos 1 +ℤ pos k ≡ a +ℤ pos (suc k)
next_total a k = omega int_laws

module _ (w : World) (ticks : Trace → ℕ) where
  -- What `presign` leaves and returns.
  Presigned : ℕ → ℤ → Bench → Bench → List Value → Type 0
  Presigned count n s t payloads =
      AreVouchers w s.client.channel_id n (purse s.client) payloads
      × (length payloads ≡ count)
      × (purse t.client ≡ purse s.client +ℤ pos count)
      × (t.client.sequence_number ≡ s.client.sequence_number)

  Presigned-nothing : (n : ℤ) (s : Bench) → Presigned zero n s s []
  unfolding Presigned
  Presigned-nothing n s = (tt, refl, sym (add_zero (purse s.client)), refl)

  Presigned-more :
      (count : ℕ) (n : ℤ) (s s' t : Bench) (v : Value) (rest : List Value)
      → IsVoucher w s.client.channel_id n (purse s.client +ℤ pos 1) v
      → s'.client.channel_id ≡ s.client.channel_id
      → s'.client.sequence_number ≡ s.client.sequence_number
      → purse s'.client ≡ purse s.client +ℤ pos 1
      → Presigned count (n +ℤ pos 1) s' t rest
      → Presigned (suc count) n s t (v ∷ rest)
  unfolding Presigned
  Presigned-more count n s s' t v rest issued channel number paid
        (vouchers, counted, raises, kept) =
      (
        (
          issued,
          subst (λ x. AreVouchers w x (n +ℤ pos 1) (purse s.client +ℤ pos 1) rest) channel
              (subst (λ x. AreVouchers w s'.client.channel_id (n +ℤ pos 1) x rest) paid vouchers),
        ),
        ap suc counted,
        raises ∙ ap (λ x. x +ℤ pos count) paid ∙ next_total (purse s.client) count,
        kept ∙ number,
      )

  presign-Presigned :
      (count : ℕ) (n : ℤ) (s : Bench) {payloads : List Value}
      → (presign w ticks count n s).0 ≡ ok payloads
      → Presigned count n s (presign w ticks count n s).1 payloads
  unfolding presign
  presign-Presigned zero n s {payloads} = λ h.
      subst (Presigned zero n s s) {x = []} {y = payloads} (ok_injective [] payloads h)
        (Presigned-nothing n s)
  presign-Presigned (suc count) n s {payloads} =
      let Wanted : Outcome (List Value) × Bench → Type 0 =
        λ p. p.0 ≡ ok payloads → Presigned (suc count) n s p.1 payloads in
      >>=-elim Wanted (get_voucher w ticks n)
        (λ v. do set_balances v.1; rest ← presign w ticks count (n +ℤ pos 1); pure (v.0 ∷ rest)) s
        (λ e _ h. cc)
        (λ v made.
          let (issued, paid) = get_voucher-eq-ok w ticks n s {v = v} made in
          let client = get_voucher_keeps w ticks n s in
          let t = (get_voucher w ticks n s).1 in
          let s' : Bench = record t { client = record (t.client) { balances = some v.1 } } in
          >>=-elim Wanted (presign w ticks count (n +ℤ pos 1)) (λ rest. pure (v.0 ∷ rest)) s'
            (λ e _ h. cc)
            (λ rest more h.
              subst (Presigned (suc count) n s (presign w ticks count (n +ℤ pos 1) s').1)
                {x = v.0 ∷ rest} {y = payloads} (ok_injective _ payloads h)
                (Presigned-more count n s s' (presign w ticks count (n +ℤ pos 1) s').1 v.0 rest
                  issued (ap (λ c. c.channel_id) client) (ap (λ c. c.sequence_number) client) paid
                  (presign-Presigned count (n +ℤ pos 1) s' more))))

  send_presigned_keeps :
      (payloads : List Value) (won : ℕ) (s : Bench)
      → (send_presigned w ticks payloads won s).1.client ≡ s.client
  unfolding send_presigned
  send_presigned_keeps [] won s = refl
  send_presigned_keeps (p ∷ ps) won s = ground (
    arith,
    send_presigned_keeps ps (won + 1)
        (record s { trace = http_post bench_service_url p ∷ s.trace }),
  )

  send_presigned-le :
      (payloads : List Value) (won : ℕ) (s : Bench) {n : ℕ}
      → (send_presigned w ticks payloads won s).0 ≡ ok n
      → n ≤ won + length payloads
  unfolding send_presigned
  send_presigned-le [] won s h = ground arith
  send_presigned-le (p ∷ ps) won s {n} h = ground (
    arith,
    send_presigned-le ps (won + 1) (record s { trace = http_post bench_service_url p ∷ s.trace })
        {n = n},
  )

  finish_presigned_lem :
      (t0 : ℕ) (payloads : List Value) (s : Bench)
      → ((finish_presigned w ticks t0 payloads s).1.client ≡ s.client)
        × ((n : ℕ) → (finish_presigned w ticks t0 payloads s).0 ≡ ok n → n ≤ length payloads)
  unfolding finish_presigned send_timed
  finish_presigned_lem t0 payloads s =
      let t : Bench = record s { trace = clock ∷ clock ∷ s.trace } in
      let kept = send_presigned_keeps payloads 0 t in
      (ground arith, λ n h. ground (arith, send_presigned-le payloads 0 t {n = n}))

  -- What a pre-signed benchmark leaves of a client that was synchronised.
  abbrev pub Stale : ℕ → BenchClient → BenchClient → Type 0
  Stale count synced c =
      (payloads : List Value) × AreVouchers w synced.channel_id (synced.sequence_number +ℤ pos 1)
        (purse synced) payloads
      × (length payloads ≡ count)
      × (purse c ≡ purse synced +ℤ pos count)
      × (c.sequence_number ≡ synced.sequence_number)

  generated :
      (count t0 : ℕ) (s t : Bench) (payloads : List Value) {won : ℕ}
      → Presigned count (s.client.sequence_number +ℤ pos 1) s t payloads
      → (finish_presigned w ticks t0 payloads t).0 ≡ ok won
      → Stale count s.client (finish_presigned w ticks t0 payloads t).1.client × (won ≤ count)
  unfolding Presigned
  generated count t0 s t payloads {won} (vouchers, counted, paid, number) h =
      let (kept, bounded) = finish_presigned_lem t0 payloads t in
      (
        (
          payloads,
          vouchers,
          counted,
          ap purse kept ∙ paid,
          ap (λ c. c.sequence_number) kept ∙ number,
        ),
        omega (arith, bounded won h, counted),
      )

  -- A pre-signed benchmark that returns has made as many vouchers as were asked for, with rising
  -- numbers and totals, from those that its synchronisation had found, and had at most as many
  -- successes. However many they were, the client's balance counts every voucher, and its sequence
  -- number none.
  pub run_presigned-Stale :
      (count : ℕ) (s : Bench) {won : ℕ}
      → (run_presigned w ticks count s).0 ≡ ok won
      → Stale count (sync_state w ticks s).1.client (run_presigned w ticks count s).1.client
        × (won ≤ count)
  unfolding run_presigned
  run_presigned-Stale count s {won} =
      let t = (sync_state w ticks s).1 in
      let t' : Bench = record t { trace = clock ∷ t.trace } in
      let Wanted : Outcome ℕ × Bench → Type 0 =
        λ p. p.0 ≡ ok won → Stale count t.client p.1.client × (won ≤ count) in
      >>=-elim Wanted (sync_state w ticks)
        (λ _. do
          c ← gets (λ s. s.client)
          t0 ← reach (read_time w ticks)
          payloads ← presign w ticks count (c.sequence_number +ℤ pos 1)
          finish_presigned w ticks t0 payloads)
        s (λ e _ h. cc)
        (λ _ _.
          >>=-elim Wanted (presign w ticks count (t.client.sequence_number +ℤ pos 1))
            (finish_presigned w ticks (ticks t.trace)) t' (λ e _ h. cc)
            (λ payloads made.
              generated count (ticks t.trace) t' _ payloads
                (presign-Presigned count (t.client.sequence_number +ℤ pos 1) t' made)))
