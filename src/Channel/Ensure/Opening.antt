-- ===== src/Channel/Ensure/Opening.antt =====
-- Step 4 of `ensure_channel`: the opening on the chain and its receipt.
use cronos_stream.Prelude.{
  ℕ, String, ◌≡◌, refl, ap, ◌∙◌, [], ◌∷◌, true, arith, some, ◌==◌, if◌then◌else◌, sym,
}
use mathlib.Core.Path.{subst}
use cronos_stream.Prelude.Int.{ℤ, pos, int_has_eq, int_eq_iff}
use cronos_stream.Python.{int, Outcome, ok, raised, exception, is_ok, is_ok-value}
use cronos_stream.World.{
  World, TypedData, Trace, ContractCall, open_channel, Transaction, send, receipt_of, clock, sign,
  transaction_count, gas_price,
}
use cronos_stream.Channel.{Session, channel_data}
use cronos_stream.Channel.Ensure.{
  send_transaction, sign_open_channel, submit_opening, open_on_chain,
}

-- What the receipt's status, or the exception of waiting for it, makes of the opening.
abbrev judge : Outcome ℤ → Outcome (Unit {0})
judge (ok status) = if status == pos 1 then ok tt else raised (exception "Exception")
judge (raised e) = raised e

judge_good : (r : Outcome ℤ) → judge r ≡ ok tt → r ≡ ok (pos 1)
judge_good (ok status) h = ground (arith, int_eq_iff status (pos 1))
judge_good (raised e) h = cc

module _ (w : World) where
  -- The newest two calls are the opening transaction and its receipt, and the receipt is good.
  abbrev pub Confirmed : String → ℤ → ℤ → Trace → Type 0
  Confirmed contract amount expiry trace =
      (past : Trace) × (tx : Transaction) × (hash : String) × (timestamp : ℤ) × (signature : String)
      × (trace ≡ receipt_of hash ∷ send tx ∷ past)
      × (tx.contract ≡ contract)
      × (tx.function ≡ open_channel amount expiry timestamp signature)
      × (w.send_reply past tx ≡ ok hash)
      × (w.receipt_status (send tx ∷ past) hash ≡ ok (pos 1))

  send_transaction_sends :
      (contract : String) (function : ContractCall) (gas : ℕ) (owner : String) (s : Trace)
      {hash : String}
      → (send_transaction w contract function gas owner s).0 ≡ ok hash
      → (past : Trace) × (tx : Transaction) × ((send_transaction w contract function gas owner s).1
          ≡ send tx ∷ past)
        × (tx.contract ≡ contract)
        × (tx.function ≡ function)
        × (w.send_reply past tx ≡ ok hash)
  unfolding send_transaction
  send_transaction_sends contract function gas owner s {hash} h =
      let (count, counted) = is_ok-value (w.nonce s owner) (ground arith) in
      let (price, priced) = is_ok-value (w.price (transaction_count owner ∷ s)) (ground arith) in
      let tx : Transaction = record {
        contract = contract;
        function = function;
        sender = owner;
        nonce = count;
        gas = some gas;
        gas_price = price;
      } in
      (gas_price ∷ transaction_count owner ∷ s, tx, ground arith, refl, refl, ground arith)

  module _ (amount expiry timestamp : ℤ) (signature : String) (s : Session) where
    abbrev opening : ContractCall
    opening = open_channel amount expiry timestamp signature

    submission : Outcome String × Trace
    submission =
        send_transaction w s.manager.contract_address opening 500000 s.manager.owner s.trace

    submit_opening_run :
        {hash : String} {past : Trace}
        → submission.0 ≡ ok hash
        → submission.1 ≡ past
        → submit_opening w amount expiry timestamp signature s
          ≡ (judge (w.receipt_status past hash), record s { trace = receipt_of hash ∷ past })
    unfolding submit_opening submission
    submit_opening_run e e' = ground arith

    submit_opening_sends :
        (submit_opening w amount expiry timestamp signature s).0 ≡ ok tt
        → is_ok (submission.0) ≡ true
    unfolding submit_opening submission
    submit_opening_sends h = ground arith

    submit_opening-Confirmed :
        (submit_opening w amount expiry timestamp signature s).0 ≡ ok tt
        → Confirmed s.manager.contract_address amount expiry
            (submit_opening w amount expiry timestamp signature s).1.trace
    unfolding submission
    submit_opening-Confirmed h =
        let (hash, returned) = is_ok-value (submission.0) (submit_opening_sends h) in
        let (past, tx, trail, contract, function, accepted) =
          send_transaction_sends _ _ _ _ s.trace returned in
        let run = submit_opening_run returned trail in
        (
          past,
          tx,
          hash,
          timestamp,
          signature,
          ap (λ p. p.1.trace) run,
          contract,
          function,
          accepted,
          judge_good _ (sym (ap (λ p. p.0) run) ∙ h),
        )

  abbrev opening_data : Session → TypedData
  opening_data s = channel_data s.manager (int (pos 0)) (w.now s.trace) [] []

  open_on_chain_signs :
      (amount expiry : ℤ) (s : Session)
      → (open_on_chain w amount expiry s).0 ≡ ok tt
      → is_ok (w.signature (clock ∷ s.trace) (opening_data s)) ≡ true
  unfolding open_on_chain sign_open_channel
  open_on_chain_signs amount expiry s h = ground arith

  open_on_chain_run :
      (amount expiry : ℤ) (s : Session) {sig : String}
      → w.signature (clock ∷ s.trace) (opening_data s) ≡ ok sig
      → open_on_chain w amount expiry s
        ≡ submit_opening w amount expiry
            (w.now s.trace)
            sig
            (record s { trace = sign (opening_data s) ∷ clock ∷ s.trace })
  unfolding open_on_chain sign_open_channel
  open_on_chain_run amount expiry s e = rw e refl

  pub open_on_chain-Confirmed :
      (amount expiry : ℤ) (s : Session)
      → (open_on_chain w amount expiry s).0 ≡ ok tt
      → Confirmed s.manager.contract_address amount expiry (open_on_chain w amount expiry s).1.trace
  open_on_chain-Confirmed amount expiry s h =
      let (sig, signed) =
        is_ok-value (w.signature (clock ∷ s.trace) (opening_data s))
          (open_on_chain_signs amount expiry s h) in
      let run = open_on_chain_run amount expiry s signed in
      subst (λ p. Confirmed s.manager.contract_address amount expiry p.1.trace) (sym run)
        (submit_opening-Confirmed amount expiry (w.now s.trace) sig _ (sym (ap (λ p. p.0) run) ∙ h))
