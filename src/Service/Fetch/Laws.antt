-- ===== src/Service/Fetch/Laws.antt =====
-- `PaywallService.fetch_resource` as a whole: its results, and what the paying parts return.
use cronos_stream.Prelude.{
  String, ◌≡◌, refl, ap, sym, Bool, true, false, [], ◌∷◌, arith, ◌⊎◌, inl, inr,
}
use cronos_stream.Python.{
  Dict, Value, bool, object, get, Outcome, ok, raised, interrupt, Exn, ok_injective,
}
use cronos_stream.World.{World, Trace, Response, posts, sent}
use cronos_stream.Service.{Has}
use cronos_stream.Errors.Laws.{Caught, handle_errors-Caught}
use mathlib.Core.Path.{subst}
use cronos_stream.Prelude.Int.{ℤ}
use cronos_stream.Channel.{Manager}
use cronos_stream.Service.Streaming.{handle_streaming_payment, pay_by_voucher, submit_voucher}
use cronos_stream.Service.Fetch.{
  Endpoints, retrieve, settle_exact, pay_challenge, answer_by_status, fetch_body, unexpected,
  fetch_resource,
}

-- What a paying part leaves: it raises, or its result says that it was paid.
PaidFor : Outcome Value × Trace → Type 0
PaidFor (ok v, after) = Has v "ok" (bool true) × Has v "paid" (bool true)
PaidFor (raised e, after) = Unit

-- What the body of a fetch leaves: it raises, or its result says whether it was paid, and where it
-- was not, no post was made and no transaction sent.
FetchedBy : Trace → Outcome Value × Trace → Type 0
FetchedBy before (ok v, after) =
    Has v "ok" (bool true)
    × ((Has v "paid" (bool false) × (posts after ≡ posts before) × (sent after ≡ sent before))
        ⊎ Has v "paid" (bool true))
FetchedBy before (raised e, after) = Unit

raised-PaidFor : (e : Exn) (past : Trace) → PaidFor (raised e, past)
unfolding PaidFor
raised-PaidFor e past = tt

module _ (w : World) where
  submit_voucher-PaidFor :
      (resource_url base_url sequencer_url : String) (payment_id pay_to : Value) (amount : ℤ)
      (cm : Manager) (voucher : Dict Value) (past : Trace)
      → PaidFor (
          submit_voucher w resource_url base_url sequencer_url payment_id pay_to amount cm voucher
            past)
  unfolding PaidFor submit_voucher get
  submit_voucher-PaidFor resource_url base_url sequencer_url payment_id pay_to amount cm voucher
        past =
      ground arith

  settle_exact-PaidFor :
      (at : Endpoints) (offer : Value) (past : Trace) → PaidFor (settle_exact w at offer past)
  unfolding PaidFor settle_exact retrieve get
  settle_exact-PaidFor at offer past = ground arith

  pay_by_voucher-PaidFor :
      (resource_url base_url sequencer_url : String) (payment_id accepts : Value) (cm : Manager)
      (past : Trace)
      → PaidFor (pay_by_voucher w resource_url base_url sequencer_url payment_id accepts cm past)
  unfolding pay_by_voucher
  pay_by_voucher-PaidFor resource_url base_url sequencer_url payment_id accepts cm past =
      grind (arith, submit_voucher-PaidFor, raised-PaidFor)

  handle_streaming_payment-PaidFor :
      (resource_url base_url : String) (accepts : Value) (past : Trace)
      → PaidFor (handle_streaming_payment w resource_url base_url accepts past)
  unfolding handle_streaming_payment
  handle_streaming_payment-PaidFor resource_url base_url accepts past =
      grind (arith, pay_by_voucher-PaidFor, raised-PaidFor)

  pay_challenge-PaidFor :
      (streaming : Bool) (at : Endpoints) (res : Response) (past : Trace)
      → PaidFor (pay_challenge w streaming at res past)
  unfolding pay_challenge
  pay_challenge-PaidFor streaming at res past =
      grind (arith, settle_exact-PaidFor, handle_streaming_payment-PaidFor, raised-PaidFor)

  PaidFor-FetchedBy : (before : Trace) (p : Outcome Value × Trace) → PaidFor p → FetchedBy before p
  unfolding PaidFor FetchedBy
  PaidFor-FetchedBy before (ok v, after) h = (h.0, inr h.1)
  PaidFor-FetchedBy before (raised e, after) h = tt

  free-FetchedBy :
      (before : Trace) (content : Value) (past : Trace)
      → posts past ≡ posts before
      → sent past ≡ sent before
      → FetchedBy before
          (ok (object (("ok", bool true) ∷ ("paid", bool false) ∷ ("data", content) ∷ [])), past)
  unfolding FetchedBy get
  free-FetchedBy before content past h k = (refl, inl (refl, h, k))

  raised-FetchedBy : (before : Trace) (e : Exn) (past : Trace) → FetchedBy before (raised e, past)
  unfolding FetchedBy
  raised-FetchedBy before e past = tt

  fetch_body-FetchedBy :
      (target : Value) (streaming : Bool) (past : Trace)
      → FetchedBy past (fetch_body w target streaming past)
  unfolding fetch_body answer_by_status
  fetch_body-FetchedBy target streaming past =
      grind (arith, pay_challenge-PaidFor, PaidFor-FetchedBy, free-FetchedBy, raised-FetchedBy)

-- A fetch that ended: by an interrupt, by the decorator's default result, or by a result that says
-- whether it was paid for, and says no only if no post was made and no transaction sent.
abbrev pub Answers : Trace → Outcome Value × Trace → Type 0
Answers before p =
    ((name : String) × (p.0 ≡ raised (interrupt name)))
    ⊎ ((v : Value) × (p.0 ≡ ok v)
        × ((v ≡ unexpected)
            ⊎ (Has v "ok" (bool true)
                × ((Has v "paid" (bool false)
                      × (posts p.1 ≡ posts before)
                      × (sent p.1 ≡ sent before))
                    ⊎ Has v "paid" (bool true)))))

FetchedBy-ok :
    (before after : Trace) (v a : Value)
    → ok v ≡ ok a
    → FetchedBy before (ok v, after)
    → Has a "ok" (bool true)
      × ((Has a "paid" (bool false) × (posts after ≡ posts before) × (sent after ≡ sent before))
          ⊎ Has a "paid" (bool true))
unfolding FetchedBy
FetchedBy-ok before after v a e h =
    subst
      (λ u.
        Has u "ok" (bool true)
        × ((Has u "paid" (bool false) × (posts after ≡ posts before) × (sent after ≡ sent before))
            ⊎ Has u "paid" (bool true)))
      (ok_injective v a e) h

FetchedBy-Answers :
    (before : Trace) (p q : Outcome Value × Trace)
    → FetchedBy before p
    → Caught unexpected p q
    → Answers before q
FetchedBy-Answers before (ok v, after) q h (inl (a, e, f)) =
    subst (Answers before) (sym f) (inr (a, refl, inr (FetchedBy-ok before after v a e h)))
FetchedBy-Answers before (raised x, after) q h (inl (a, e, f)) = cc
FetchedBy-Answers before p q h (inr (inl (e, _, f))) = inr (unexpected, ap (λ z. z.0) f, inl refl)
FetchedBy-Answers before p q h (inr (inr (name, _, f))) = inl (name, ap (λ z. z.0) f)

-- `fetch_resource` raises nothing but an interrupt. Its result is the decorator's default one, or
-- one with "ok": true that says whether the resource was paid for; where it says that it was not,
-- no post was made and no transaction was sent.
pub fetch_resource-Answers :
    (w : World) (target : Value) (streaming : Bool) (past : Trace)
    → Answers past (fetch_resource w target streaming past)
unfolding fetch_resource
fetch_resource-Answers w target streaming past =
    FetchedBy-Answers past _ _ (fetch_body-FetchedBy w target streaming past)
      (handle_errors-Caught unexpected (fetch_body w target streaming) past)
