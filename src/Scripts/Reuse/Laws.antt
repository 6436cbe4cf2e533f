-- ===== src/Scripts/Reuse/Laws.antt =====
-- The numbers of two vouchers issued one after the other.
use cronos_stream.Prelude.{String, ◌≡◌, refl, ap, true, ◌∷◌}
use mathlib.Core.Path.{subst}
use cronos_stream.Prelude.Int.{ℤ, pos, ◌+ℤ◌, int_has_eq, int_eq_iff}
use cronos_stream.Python.{
  Dict, Value, int, index, to_int, Outcome, ok, bind_outcome-eq-ok, ok_injective, pure, ◌>>=◌,
  >>=-elim,
}
use cronos_stream.World.{World, clock}
use cronos_stream.Channel.{Session}
use cronos_stream.Channel.Voucher.{create_voucher, voucher_of}
use cronos_stream.Channel.Voucher.Laws.{signed_document, create_voucher_run}
use cronos_stream.Scripts.Reuse.{voucher_number, numbers_follow, two_vouchers}

module _ (w : World) (r : String) where
  voucher_of-number :
      (a n : ℤ) (s : Session) {v : Dict Value}
      → s.manager.sequence_number ≡ int n
      → (create_voucher w r a s).0 ≡ ok v
      → voucher_number v ≡ ok (n +ℤ pos 1)
  unfolding voucher_number voucher_of index to_int
  voucher_of-number a n s {v} counted h =
      let (sig, signed, made) =
        bind_outcome-eq-ok (w.signature (clock ∷ s.trace) (signed_document w r a s n)) _
          (rw (create_voucher_run w r a s n counted) at h) in
      subst (λ d. voucher_number d ≡ ok (n +ℤ pos 1)) (ok_injective _ v made) refl

  counted_on :
      (a n : ℤ) (s : Session)
      → s.manager.sequence_number ≡ int n
      → (create_voucher w r a s).1.manager.sequence_number ≡ int (n +ℤ pos 1)
  counted_on a n s counted = rw (create_voucher_run w r a s n counted) refl

  -- Where the manager counts by a whole number, two vouchers that it issues one after the other pass
  -- the check: the script never reports that the number did not increment.
  pub two_vouchers-numbers_follow :
      (n : ℤ) (s : Session) {vs : Dict Value × Dict Value}
      → s.manager.sequence_number ≡ int n
      → (two_vouchers w r s).0 ≡ ok vs
      → numbers_follow vs.0 vs.1 ≡ ok true
  unfolding two_vouchers numbers_follow
  two_vouchers-numbers_follow n s {vs} counted =
      let Wanted : Outcome (Dict Value × Dict Value) × Session → Type 0 =
        λ p. p.0 ≡ ok vs → numbers_follow vs.0 vs.1 ≡ ok true in
      >>=-elim Wanted (create_voucher w r (pos 1000000))
        (λ v1. do v2 ← create_voucher w r (pos 2000000); pure (v1, v2)) s (λ e _ h. cc)
        (λ v1 first.
          let t = (create_voucher w r (pos 1000000) s).1 in
          >>=-elim Wanted (create_voucher w r (pos 2000000)) (λ v2. pure (v1, v2)) t (λ e _ h. cc)
            (λ v2 second h.
              let n1 = voucher_of-number (pos 1000000) n s {v = v1} counted first in
              let n2 =
                voucher_of-number (pos 2000000) (n +ℤ pos 1) t {v = v2}
                  (counted_on (pos 1000000) n s counted) second in
              let next = n +ℤ pos 1 +ℤ pos 1 in
              let same = ok_injective (v1, v2) vs h in
              subst (λ p. numbers_follow p.0 p.1 ≡ ok true) same
                (rw (n1, n2) (ap ok ((int_eq_iff next next).1 refl)))))
