-- ===== src/Scripts/Settling/Laws.antt =====
-- What a reported success means.
use cronos_stream.Prelude.{
  ℕ, ◌+◌, ◌<◌, String, ◌<>◌, Bool, true, false, Option, none, refl, ◌≡◌, ap, ◌∙◌, nat_eq_iff, some,
  [], ◌∷◌, arith, nat_has_eq,
}
use cronos_stream.Prelude.Int.{pos, int_has_eq, int_eq_iff}
use cronos_stream.Python.{
  Value, text, object, get, as_text, ok, is_ok-value, pure, catch, ◌>>=◌, >>=-eq-ok,
  attempt-eq-some,
}
use cronos_stream.World.{World, Trace, Response, http_post, receipt_of}
use cronos_stream.Scripts.Settling.{
  settlement_sequencer_url, settled_channel, received, Balances, finalize_request, read_balance,
  compare_balances, report_receipt, report_finalized, wait_for_settlement, verify_settlement,
}

as_text-eq-ok : (v : Value) {s : String} → as_text v ≡ ok s → v ≡ text s
unfolding as_text
as_text-eq-ok (text t) h = ground arith
as_text-eq-ok Value.null h = cc
as_text-eq-ok (Value.bool b) h = cc
as_text-eq-ok (Value.int n) h = cc
as_text-eq-ok (Value.float m k) h = cc
as_text-eq-ok (Value.list vs) h = cc
as_text-eq-ok (Value.dict fs) h = cc

abbrev pub finalize_url : String
finalize_url = settlement_sequencer_url <> "/channel/finalize"

abbrev pub finalize_body : Value
finalize_body = object (("channelId", text settled_channel) ∷ [])

module _ (w : World) (balances : Balances) where
  finalize_request-answers :
      (past : Trace) (v : Value) (after : Trace)
      → finalize_request w balances past ≡ (ok (some v), after)
      → (res : Response) × (answer : Value) × (after ≡ http_post finalize_url finalize_body ∷ past)
        × (w.post_reply past finalize_url finalize_body ≡ ok res)
        × (res.status ≡ 200)
        × (res.json ≡ ok answer)
        × (get answer "transactionHash" Value.null ≡ ok v)
  unfolding finalize_request
  finalize_request-answers past v after h =
      let (res, e1) = is_ok-value (w.post_reply past finalize_url finalize_body) (ground arith) in
      let fine : res.status ≡ 200 = ground (arith, nat_eq_iff (res.status) 200) in
      let (answer, e2) = is_ok-value (res.json) (ground arith) in
      (res, answer, ground arith, e1, fine, e2, ground arith)

  wait_for_settlement-confirms :
      (v : Value) (past after : Trace)
      → wait_for_settlement w balances v past ≡ (ok true, after)
      → (hash : String) × (v ≡ text hash)
        × (after ≡ receipt_of hash ∷ past)
        × (w.receipt_status past hash ≡ ok (pos 1))
  unfolding wait_for_settlement
  wait_for_settlement-confirms v past after h =
      let (hash, e4) = is_ok-value (as_text v) (ground arith) in
      let (status, e5) = is_ok-value (w.receipt_status past hash) (ground arith) in
      let confirmed : status ≡ pos 1 = ground (arith, int_eq_iff status (pos 1)) in
      (hash, as_text-eq-ok v e4, ground arith, e5 ∙ ap ok confirmed)

  compare_balances-received :
      (before : ℕ) (past after : Trace) {amount : ℕ}
      → compare_balances w balances before past ≡ (ok (received amount), after)
      → (after ≡ past) × (balances past ≡ ok (before + amount)) × (0 < amount)
  unfolding compare_balances
  compare_balances-received before past after h = ground arith

  report_receipt-received :
      (before : ℕ) (confirmed : Option Bool) (past after : Trace) {amount : ℕ}
      → report_receipt w balances before confirmed past ≡ (ok (received amount), after)
      → (confirmed ≡ some true)
        × (compare_balances w balances before past ≡ (ok (received amount), after))
  unfolding report_receipt
  report_receipt-received before none past after h = cc
  report_receipt-received before (some true) past after h = (refl, h)
  report_receipt-received before (some false) past after h = cc

  report_finalized-received :
      (before : ℕ) (answer : Option (Option Value)) (past after : Trace) {amount : ℕ}
      → report_finalized w balances before answer past ≡ (ok (received amount), after)
      → (v : Value) × (answer ≡ some (some v))
        × (wait_for_settlement w balances v past ≡ (ok true, after))
        × (balances after ≡ ok (before + amount))
        × (0 < amount)
  unfolding report_finalized
  report_finalized-received before none past after h = cc
  report_finalized-received before (some none) past after h = cc
  report_finalized-received before (some (some v)) past after h =
      let waits =
        catch (wait_for_settlement w balances v >>= λ c. pure (some c)) (λ e. pure none) in
      let (confirmed, e, h') = >>=-eq-ok waits (report_receipt w balances before) past h in
      let (fine, compared) = report_receipt-received before confirmed (waits past).1 after h' in
      let (same, grown, positive) =
        compare_balances-received before (waits past).1 after compared in
      (
        v,
        refl,
        attempt-eq-some (wait_for_settlement w balances v) past (e ∙ ground (arith, fine, same)),
        rw same grown,
        positive,
      )

  -- Where the script reports an amount as received, it has made two calls: the request to finalize
  -- the channel, answered by status 200 and a transaction's hash, and the wait for that
  -- transaction's receipt, whose status is 1. The merchant's balance behind them is the one before
  -- them and the amount, which is not 0.
  pub verify_settlement-received :
      (past after : Trace) (amount : ℕ)
      → verify_settlement w balances past ≡ (ok (received amount), after)
      → (res : Response) × (answer : Value) × (hash : String) × (before : ℕ) × (after
          ≡ receipt_of hash ∷ http_post finalize_url finalize_body ∷ past)
        × (w.post_reply past finalize_url finalize_body ≡ ok res)
        × (res.status ≡ 200)
        × (res.json ≡ ok answer)
        × (get answer "transactionHash" Value.null ≡ ok (text hash))
        × (w.receipt_status (http_post finalize_url finalize_body ∷ past) hash ≡ ok (pos 1))
        × (balances past ≡ ok before)
        × (balances after ≡ ok (before + amount))
        × (0 < amount)
  unfolding verify_settlement
  verify_settlement-received past after amount h =
      let asks = catch (finalize_request w balances >>= λ a. pure (some a)) (λ e. pure none) in
      let (before, e0, h1) =
        >>=-eq-ok (read_balance w balances) (λ b. asks >>= report_finalized w balances b) past h in
      let (answer, e1, h2) = >>=-eq-ok asks (report_finalized w balances before) past h1 in
      let (v, said, waited, grown, positive) =
        report_finalized-received before answer (asks past).1 after h2 in
      let asked = attempt-eq-some (finalize_request w balances) past (e1 ∙ ground (arith, said)) in
      let (res, body, posted, replied, fine, read, hashed) =
        finalize_request-answers past v (asks past).1 asked in
      let (hash, is_hash, traced, confirmed) =
        wait_for_settlement-confirms v (asks past).1 after waited in
      (
        res,
        body,
        hash,
        before,
        traced ∙ ap (λ l. receipt_of hash ∷ l) posted,
        replied,
        fine,
        read,
        hashed ∙ ap ok is_hash,
        rw (← posted) confirmed,
        ap (λ p. p.0) e0,
        grown,
        positive,
      )
