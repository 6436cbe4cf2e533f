-- ===== src/Benchmark/Ends.antt =====
-- The clock of the live benchmark, and its `while` loop.
use cronos_stream.Prelude.{
  ℕ, zero, suc, ◌+◌, ◌*◌, ◌≤◌, ◌<◌, ◌≢◌, ◌∙◌, ap, refl, Bool, true, false, Option, none, some, List,
  [], ◌∷◌, arith, ltb, nat_has_eq, Bool-cases, inl, inr,
}
use cronos_stream.Prelude.Int.{ℤ, pos, ◌+ℤ◌}
use cronos_stream.Python.{
  Dict, Value, Outcome, ok, raised, Exn, app, exception, interrupt, Action, pure, from_outcome,
  ◌>>=◌, gets, choose, catch, >>=-elim,
}
use cronos_stream.World.{World, Call, Trace, perform, clock}
use cronos_stream.Benchmark.{
  Bench, reach, set_number, set_balances, sync_state, sync_from, enter_balance, enter_balances,
  get_voucher,
}
use cronos_stream.Benchmark.Runs.{send_live, live_round, finish_live, live_rounds, run_live_signing}

module _ (w : World) (ticks : Trace → ℕ)
    (passes : (c : Call) (past : Trace) → ticks past < ticks (c ∷ past)) where
  -- The clock is not set back by an action.
  Later : {A : Type 0} → Action Bench A → Type 0
  Later m = (s : Bench) → ticks s.trace ≤ ticks (m s).1.trace

  pure-Later : {A : Type 0} (a : A) → Later (pure a)
  unfolding Later
  pure-Later a s = omega arith

  from_outcome-Later : {A : Type 0} (r : Outcome A) → Later (from_outcome r)
  unfolding Later
  from_outcome-Later r s = omega arith

  gets-Later : {A : Type 0} (f : Bench → A) → Later (gets f)
  unfolding Later
  gets-Later f s = omega arith

  set_balances-Later : (d : Dict ℤ) → Later (set_balances d)
  unfolding Later
  set_balances-Later d s = omega arith

  set_number-Later : (n : ℤ) → Later (set_number n)
  unfolding Later
  set_number-Later n s = omega arith

  reach-Later :
      {A : Type 0} (c : Call) (reply : Trace → Outcome A) → Later (reach (perform c reply))
  unfolding Later
  reach-Later c reply s = omega (arith, passes c s.trace)

  >>=-Later :
      {A B : Type 0} (m : Action Bench A) (f : A → Action Bench B)
      → Later m
      → ((a : A) → Later (f a))
      → Later (m >>= f)
  unfolding Later
  >>=-Later m f h k s =
      >>=-elim (λ p. ticks s.trace ≤ ticks p.1.trace) m f s (λ e _. h s)
        (λ a _. omega (arith, h s, k a (m s).1))

  choose-Later :
      {A : Type 0} (b : Bool) (m k : Action Bench A) → Later m → Later k → Later (choose b m k)
  choose-Later true m k h j = h
  choose-Later false m k h j = j

  catch-Later :
      {A : Type 0} (m : Action Bench A) (handler : Exn → Action Bench A)
      → Later m
      → ((e : Exn) → Later (handler e))
      → Later (catch m handler)
  unfolding Later
  catch-Later {A} m handler h k s = go (m s) (h s)
    where
      go :
          (p : Outcome A × Bench)
          → ticks s.trace ≤ ticks p.1.trace
          → ticks s.trace ≤ ticks (catch (λ _. p) handler s).1.trace
      go (ok a, s') le = le
      go (raised (app kind message), s') le = omega (arith, k (app kind message) s')
      go (raised (exception name), s') le = omega (arith, k (exception name) s')
      go (raised (interrupt name), s') le = le

  ruleset clock_rules = (
    pure-Later, from_outcome-Later, gets-Later, set_balances-Later, set_number-Later, reach-Later,
    >>=-Later, choose-Later, catch-Later,
  )

  send_live-Later : (payload : Value) (next : Dict ℤ) → Later (send_live w ticks payload next)
  unfolding send_live
  send_live-Later payload next = search clock_rules

  get_voucher-Later : (n : ℤ) → Later (get_voucher w ticks n)
  unfolding get_voucher
  get_voucher-Later n = search clock_rules

  live_round-Later : (n : ℤ) → Later (live_round w ticks n)
  unfolding live_round
  live_round-Later n = search (clock_rules, get_voucher-Later, send_live-Later)

  enter_balance-Later : (r : Value) → Later (enter_balance w ticks r)
  unfolding enter_balance
  enter_balance-Later r = search clock_rules depth 8

  enter_balances-Later : (rs : List Value) → Later (enter_balances w ticks rs)
  unfolding enter_balances
  enter_balances-Later [] = search clock_rules
  enter_balances-Later (r ∷ rs) = search (clock_rules, enter_balance-Later, enter_balances-Later rs)

  sync_from-Later : (view : Value) → Later (sync_from w ticks view)
  unfolding sync_from
  sync_from-Later view = search (clock_rules, enter_balances-Later) depth 8

  sync_state-Later : Later (sync_state w ticks)
  unfolding sync_state
  sync_state-Later = search (clock_rules, sync_from-Later) depth 8

  -- A round for each microsecond that is left is enough for the loop.
  live_rounds_end :
      (fuel end_time : ℕ) (number : ℤ) (won answered : ℕ) (s : Bench)
      → end_time ≤ ticks s.trace + fuel
      → (live_rounds w ticks (suc fuel) end_time number won answered s).0 ≢ ok none
  unfolding live_rounds Later
  live_rounds_end zero end_time number won answered s h = ground arith
  live_rounds_end (suc fuel) end_time number won answered s h =
      elim (Bool-cases (ltb (ticks s.trace) end_time)) [
        | inl more ↦
            let s' : Bench = record s { trace = clock ∷ s.trace } in
            rw more (
              >>=-elim (λ p. p.0 ≢ ok none) (live_round w ticks number)
                (λ r.
                  live_rounds w ticks (suc fuel) end_time (number +ℤ pos r.0) (won + r.0)
                    (answered + r.1))
                s' (λ e _ h'. cc)
                (λ r _.
                  live_rounds_end fuel end_time (number +ℤ pos r.0) (won + r.0) (answered + r.1)
                    (live_round w ticks number s').1
                    (omega (arith, passes clock s.trace, live_round-Later number s'))))
        | inr over ↦ rw over (λ h'. cc)
      ]

  finish_live-ne-none :
      (duration : ℕ) (r : Option (ℤ × ℕ × ℕ)) (s : Bench)
      → r ≢ none
      → (finish_live w ticks duration r s).0 ≢ ok none
  unfolding finish_live
  finish_live-ne-none duration none s h = absurd (h refl)
  finish_live-ne-none duration (some (number, won, answered)) s h = ground arith

  -- While each call takes the clock on by a microsecond or more, the `while` loop of
  -- `run_live_signing` ends, whatever is answered: the run never stops for want of fuel.
  pub run_live_signing_ends :
      (duration : ℕ) (s : Bench) → (run_live_signing w ticks duration s).0 ≢ ok none
  unfolding run_live_signing Later
  run_live_signing_ends duration s =
      let s' : Bench = record s { trace = clock ∷ s.trace } in
      >>=-elim (λ p. p.0 ≢ ok none) (sync_state w ticks)
        (λ _. do
          c ← gets (λ s. s.client)
          result ←
              live_rounds w ticks (suc (duration * 1000000)) (ticks s.trace + duration * 1000000)
                c.sequence_number 0 0
          finish_live w ticks duration result)
        s' (λ e _ h'. cc)
        (λ _ _.
          let t = (sync_state w ticks s').1 in
          let ends =
            live_rounds_end (duration * 1000000) (ticks s.trace + duration * 1000000)
              t.client.sequence_number 0 0 t
              (omega (arith, passes clock s.trace, sync_state-Later s')) in
          >>=-elim (λ p. p.0 ≢ ok none)
            (live_rounds w ticks (suc (duration * 1000000)) (ticks s.trace + duration * 1000000)
              t.client.sequence_number 0 0)
            (finish_live w ticks duration) t (λ e _ h'. cc)
            (λ r e. finish_live-ne-none duration r _ (λ empty. ends (e ∙ ap ok empty))))
