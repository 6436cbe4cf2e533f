-- ===== src/Demo/Uninterrupted.antt =====
-- The settlement where no reply is an interrupt.
use cronos_stream.Prelude.{
  String, ◌<>◌, Bool, true, false, ◌≡◌, ◌⊎◌, refl, [], ◌∷◌, ◌==◌, nat_has_eq, string_has_eq,
  Bool-cases, inl, inr,
}
use mathlib.Core.Path.{subst}
use cronos_stream.Python.{
  Exn, Outcome, ok, raised, app, exception, interrupt, IsContained, bind_outcome-IsContained,
  bind_outcome, null, text, dict, object, as_text, from_outcome, ◌>>=◌, when, choose, catch,
  >>=-elim, Value, get,
}
use cronos_stream.World.{World, Trace, Effect, Response, post, wait_for_receipt}
use cronos_stream.Demo.{
  Screen, Drawing, settling, refused, submitted, confirmed, settlement_error, draw, sequencer_url,
  await_receipt, request_settlement, trigger_settlement,
}

-- No reply to the demo's calls is an interrupt.
pub record IsUninterrupted (w : World) : Type 0 where
  pub posted :
      (past : Trace) (url : String) (body : Value) → IsContained (w.post_reply past url body)
  pub decoded :
      (past : Trace) (url : String) (body : Value) {res : Response}
      → w.post_reply past url body ≡ ok res
      → IsContained res.json
  pub received : (past : Trace) (hash : String) → IsContained (w.receipt_status past hash)

as_text-IsContained : (v : Value) → IsContained (as_text v)
unfolding as_text
as_text-IsContained (text s) = tt
as_text-IsContained _ = tt

get-IsContained : (v : Value) (k : String) (default : Value) → IsContained (get v k default)
unfolding get
get-IsContained (dict fs) k default = tt
get-IsContained _ k default = tt

-- The library has drawn, or has refused the markup.
abbrev pub IsDrawn : Outcome (Unit {0}) → Type 0
IsDrawn r = (r ≡ ok tt) ⊎ (r ≡ raised (exception "ConsoleError"))

draw-IsDrawn : {S : Type 0} (screen : Screen) (d : Drawing) (s : S) → IsDrawn (draw screen d s).0
draw-IsDrawn screen d s = elim (Bool-cases (screen.draws d)) [
  | inl drawn ↦ inl (rw drawn refl)
  | inr missed ↦ inr (rw missed refl)
]

IsDrawn-IsContained : (r : Outcome (Unit {0})) → IsDrawn r → IsContained r
IsDrawn-IsContained r (inl drawn) = rw drawn tt
IsDrawn-IsContained r (inr missed) = rw missed tt

-- A handler that draws, behind an action that is not interrupted.
catch-IsDrawn :
    (m : Effect (Unit {0})) (handler : Exn → Effect (Unit {0})) (past : Trace)
    → IsContained (m past).0
    → ((e : Exn) (later : Trace) → IsDrawn (handler e later).0)
    → IsDrawn (catch m handler past).0
catch-IsDrawn m handler past = go (m past)
  where
    go :
        (p : Outcome (Unit {0}) × Trace)
        → IsContained p.0
        → ((e : Exn) (later : Trace) → IsDrawn (handler e later).0)
        → IsDrawn (catch (λ _. p) handler past).0
    go (ok a, later) c h = inl refl
    go (raised (app kind message), later) c h = h (app kind message) later
    go (raised (exception name), later) c h = h (exception name) later
    go (raised (interrupt name), later) c h = absurd c

when-IsDrawn :
    (b : Bool) (m : Effect (Unit {0})) (past : Trace)
    → IsDrawn (m past).0
    → IsDrawn (when b m past).0
when-IsDrawn true m past h = h
when-IsDrawn false m past h = inl refl

IsContained->>= :
    {A B : Type 0} (m : Effect A) (f : A → Effect B) (past : Trace)
    → IsContained (m past).0
    → ((a : A) → (m past).0 ≡ ok a → IsContained (f a (m past).1).0)
    → IsContained ((m >>= f) past).0
IsContained->>= m f past c k =
    >>=-elim (λ p. IsContained p.0) m f past (λ e h. subst IsContained h c) k

module _ (w : World) (free : IsUninterrupted w) (screen : Screen) where
  draw-IsContained : (d : Drawing) (past : Trace) → IsContained (draw screen d past).0
  draw-IsContained d past = IsDrawn-IsContained (draw screen d past).0 (draw-IsDrawn screen d past)

  receipt-IsContained :
      (hash : Value) (known : String) (past : Trace)
      → IsContained ((wait_for_receipt w known >>= λ status. draw screen (confirmed hash)) past).0
  receipt-IsContained hash known past =
      IsContained->>= (wait_for_receipt w known) (λ status. draw screen (confirmed hash)) past
        (free.received past known)
        (λ status h. draw-IsContained (confirmed hash) (wait_for_receipt w known past).1)

  await_receipt-IsContained :
      (res : Response) (past : Trace)
      → IsContained (res.json)
      → IsContained (await_receipt w screen res past).0
  unfolding await_receipt
  await_receipt-IsContained res past json =
      let received = λ (hash : Value) (known : String).
        wait_for_receipt w known >>= λ status. draw screen (confirmed hash) in
      let reads = λ (hash : Value). from_outcome (as_text hash) >>= received hash in
      IsContained->>=
        (from_outcome (bind_outcome (res.json) (λ answer. get answer "transactionHash" null)))
        (λ hash. draw screen (submitted hash) >>= λ _. reads hash) past
        (bind_outcome-IsContained (res.json) _ json
          (λ answer. get-IsContained answer "transactionHash" null))
        λ hash h.
          IsContained->>= (draw screen (submitted hash)) (λ _. reads hash) past
            (draw-IsContained (submitted hash) past)
            λ _ drawn.
              IsContained->>= (from_outcome (as_text hash)) (received hash) past
                (as_text-IsContained hash) λ known read. receipt-IsContained hash known past

  answered-IsContained :
      (res : Response) (past : Trace)
      → IsContained (res.json)
      → IsContained
          (choose
            (res.status == 200)
            (await_receipt w screen res)
            (draw screen (refused res.body))
            past).0
  answered-IsContained res past json = elim (Bool-cases (res.status == 200)) [
    | inr failed ↦ rw failed (draw-IsContained (refused res.body) past)
    | inl fine ↦ rw fine (await_receipt-IsContained res past json)
  ]

  request_settlement-IsContained :
      (channel_id : String) (past : Trace)
      → IsContained (request_settlement w screen channel_id past).0
  unfolding request_settlement
  request_settlement-IsContained channel_id past =
      let url : String = sequencer_url <> "/channel/finalize" in
      let body = object (("channelId", text channel_id) ∷ []) in
      IsContained->>= (post w url body)
        (λ res.
          choose (res.status == 200) (await_receipt w screen res) (draw screen (refused res.body)))
        past (free.posted past url body)
        (λ res h. answered-IsContained res (post w url body past).1 (free.decoded past url body h))

  -- A settlement ends, or the library refuses one of its drawings.
  pub trigger_settlement-IsDrawn :
      (channel_id : String) (past : Trace) → IsDrawn (trigger_settlement w screen channel_id past).0
  unfolding trigger_settlement
  trigger_settlement-IsDrawn channel_id past =
      let asks =
        catch (request_settlement w screen channel_id) (λ e. draw screen (settlement_error e)) in
      when-IsDrawn (screen.connected) (draw screen (settling channel_id) >>= λ _. asks) past (
        >>=-elim (λ p. IsDrawn p.0) (draw screen (settling channel_id)) (λ _. asks) past
          (λ e h. subst IsDrawn h (draw-IsDrawn screen (settling channel_id) past))
          λ _ h.
            catch-IsDrawn (request_settlement w screen channel_id)
              (λ e. draw screen (settlement_error e)) past
              (request_settlement-IsContained channel_id past)
              (λ e later. draw-IsDrawn screen (settlement_error e) later))
