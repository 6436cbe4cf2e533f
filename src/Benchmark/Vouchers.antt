-- ===== src/Benchmark/Vouchers.antt =====
-- The vouchers of scripts/benchmark_suite.py, and the client's balance for the merchant.
use cronos_stream.Prelude.{
  ℕ, String, ◌≡◌, ◌∙◌, ap, sym, refl, none, some, List, [], ◌∷◌, arith, nat_has_eq, string_has_eq,
  eq_iff, Option-cases, inl, inr,
}
use mathlib.Core.Path.{subst}
use cronos_stream.Prelude.Int.{ℤ, pos, ◌+ℤ◌, int_laws}
use cronos_stream.Python.{
  Dict, get_or, insert, lookup-insert, Value, ok, raised, exception, bind_outcome,
  bind_outcome-eq-ok, ok_injective,
}
use cronos_stream.World.{World, Trace, TypedData, clock}
use cronos_stream.Benchmark.{
  merchant, BenchClient, Bench, held_balances, bench_data, bench_payload, whole_seconds,
  get_voucher,
}

-- What the client holds for the merchant.
abbrev pub purse : BenchClient → ℤ
purse c = elim (c.balances) [ none ↦ pos 0 | some d ↦ get_or merchant (pos 0) d ]

-- A payload with a signature, made at some time, of the document with this number and total.
abbrev pub IsVoucher : World → String → ℤ → ℤ → Value → Type 0
IsVoucher w channel n total payload =
    (t : ℤ) × (sig : String) × (past : Trace) × (payload ≡ bench_payload channel n t sig)
    × (w.signature past (bench_data channel n t (merchant ∷ []) (total ∷ [])) ≡ ok sig)

-- Vouchers with rising numbers and totals.
abbrev pub AreVouchers : World → String → ℤ → ℤ → List Value → Type 0
AreVouchers w channel n held [] = Unit
AreVouchers w channel n held (v ∷ vs) =
    IsVoucher w channel n (held +ℤ pos 1) v × AreVouchers w channel (n +ℤ pos 1) (held +ℤ pos 1) vs

pub get_or-insert_self : (k : String) (v : ℤ) (d : Dict ℤ) → get_or k (pos 0) (insert k v d) ≡ v
get_or-insert_self k v d = ground (arith, lookup-insert k k v d, eq_iff k k)

pub add_zero : (a : ℤ) → a +ℤ pos 0 ≡ a
add_zero a = omega int_laws

module _ (w : World) (ticks : Trace → ℕ) where
  pub get_voucher_keeps : (n : ℤ) (s : Bench) → (get_voucher w ticks n s).1.client ≡ s.client
  unfolding get_voucher held_balances
  get_voucher_keeps n s = ground arith

  abbrev seconds_at : Trace → ℤ
  seconds_at past = whole_seconds w ticks (ticks past)

  -- The document of a voucher, by the balances held.
  abbrev voucher_data : ℤ → Bench → Dict ℤ → TypedData
  voucher_data n s d =
      bench_data s.client.channel_id n (seconds_at s.trace) (merchant ∷ [])
        ((get_or merchant (pos 0) d +ℤ pos 1) ∷ [])

  get_voucher_run :
      (n : ℤ) (s : Bench) (d : Dict ℤ)
      → s.client.balances ≡ some d
      → (get_voucher w ticks n s).0
        ≡ bind_outcome (w.signature (clock ∷ s.trace) (voucher_data n s d)) λ sig. ok (
          bench_payload s.client.channel_id n (seconds_at s.trace) sig,
          insert merchant (get_or merchant (pos 0) d +ℤ pos 1) d,
        )
  unfolding get_voucher held_balances
  get_voucher_run n s d held = ground arith

  get_voucher_unheld :
      (n : ℤ) (s : Bench)
      → s.client.balances ≡ none
      → (get_voucher w ticks n s).0 ≡ raised (exception "AttributeError")
  unfolding get_voucher held_balances
  get_voucher_unheld n s missing = ground arith

  -- A voucher is for one more than the client holds for the merchant.
  pub get_voucher-eq-ok :
      (n : ℤ) (s : Bench) {v : Value × Dict ℤ}
      → (get_voucher w ticks n s).0 ≡ ok v
      → IsVoucher w s.client.channel_id n (purse s.client +ℤ pos 1) v.0
        × (get_or merchant (pos 0) v.1 ≡ purse s.client +ℤ pos 1)
  get_voucher-eq-ok n s {v} h = elim (Option-cases (s.client.balances)) [
    | inl missing ↦ absurd (let clash = get_voucher_unheld n s missing in cc)
    | inr (d, held) ↦
        let (sig, signed, made) =
          bind_outcome-eq-ok (w.signature (clock ∷ s.trace) (voucher_data n s d)) _
            (rw (get_voucher_run n s d held) at h) in
        let same = ok_injective _ v made in
        let total = get_or merchant (pos 0) d +ℤ pos 1 in
        let mine : purse s.client ≡ get_or merchant (pos 0) d = rw held refl in
        (
          (
            seconds_at s.trace,
            sig,
            clock ∷ s.trace,
            ap (λ x. x.0) (sym same),
            subst
                (λ p.
                  w.signature (clock ∷ s.trace) (
                    bench_data s.client.channel_id n (seconds_at s.trace) (merchant ∷ [])
                      ((p +ℤ pos 1) ∷ []))
                  ≡ ok sig)
                (sym mine) signed,
          ),
          ap (λ x. get_or merchant (pos 0) x.1) (sym same)
              ∙ get_or-insert_self merchant total d
              ∙ ap (λ x. x +ℤ pos 1) (sym mine),
        )
  ]
