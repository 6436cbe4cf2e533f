-- ===== src/CloseAll/Closing.antt =====
-- A channel that the sequencer's account closes: the transaction, and the state that it carries.
use mathlib.Core.Path.{subst}
use cronos_stream.Prelude.{String, Bool, true, ◌≡◌, refl, sym, none, [], ◌∷◌, arith}
use cronos_stream.Prelude.Int.{ℤ, pos, int_has_eq, int_eq_iff}
use cronos_stream.Python.{Outcome, ok, is_ok, is_ok-value}
use cronos_stream.World.{
  World, Trace, TypedData, final_close, Transaction, send, receipt_of, sign_as, clock,
  transaction_count, gas_price,
}
use cronos_stream.CloseAll.{
  Views, stream_channel_address, sequencer_private_key, channel_state, submit_close,
  close_via_dual_key,
}

module _ (w : World) (views : Views) (key channel : String) (sequence : ℤ) (past : Trace) where
  abbrev closing : Outcome Bool × Trace
  closing = close_via_dual_key w views key channel sequence past

  -- The document that the owner signs: nobody is owed anything.
  abbrev pub empty_state : TypedData
  empty_state = channel_state channel sequence (w.now past) [] []

  abbrev pub signed_trace : String → Trace
  signed_trace owner = sign_as owner empty_state ∷ clock ∷ past

  closing_owner : closing.0 ≡ ok true → is_ok (w.account_of key) ≡ true
  unfolding close_via_dual_key
  closing_owner h = ground arith

  closing_signs :
      {owner : String}
      → closing.0 ≡ ok true
      → w.account_of key ≡ ok owner
      → (is_ok (w.signature_by (clock ∷ past) owner empty_state) ≡ true)
        × (is_ok (w.account_of sequencer_private_key) ≡ true)
  unfolding close_via_dual_key
  closing_signs h d = ground arith

  closing_run :
      {owner sig sequencer : String}
      → closing.0 ≡ ok true
      → w.account_of key ≡ ok owner
      → w.signature_by (clock ∷ past) owner empty_state ≡ ok sig
      → w.account_of sequencer_private_key ≡ ok sequencer
      → (closing.1
          ≡ (submit_close w views sequencer channel sequence
              (w.now past)
              sig
              (signed_trace owner)).1)
        × ((submit_close w views sequencer channel sequence (w.now past) sig (signed_trace owner)).0
            ≡ ok true)
  unfolding close_via_dual_key
  closing_run h d e f = ground arith

  module _ (owner sequencer sig : String) where
    abbrev submitted : Outcome Bool × Trace
    submitted =
        submit_close w views sequencer channel sequence (w.now past) sig (signed_trace owner)

    submit_close_reads :
        submitted.0 ≡ ok true
        → (is_ok (w.nonce (signed_trace owner) sequencer) ≡ true)
          × (is_ok (w.price (transaction_count sequencer ∷ signed_trace owner)) ≡ true)
    unfolding submit_close
    submit_close_reads h = ground arith

    abbrev before_send : Trace
    before_send = gas_price ∷ transaction_count sequencer ∷ signed_trace owner

    abbrev closing_transaction : ℤ → ℤ → Transaction
    closing_transaction count price = record {
      contract = stream_channel_address;
      function = final_close channel sequence (w.now past) [] [] sig;
      sender = sequencer;
      nonce = count;
      gas = none;
      gas_price = price;
    }

    submit_close_sends :
        {count price : ℤ}
        → submitted.0 ≡ ok true
        → w.nonce (signed_trace owner) sequencer ≡ ok count
        → w.price (transaction_count sequencer ∷ signed_trace owner) ≡ ok price
        → is_ok (w.send_reply before_send (closing_transaction count price)) ≡ true
    unfolding submit_close
    submit_close_sends h e f = ground arith

    submit_close_confirms :
        {count price : ℤ} {hash : String}
        → submitted.0 ≡ ok true
        → w.nonce (signed_trace owner) sequencer ≡ ok count
        → w.price (transaction_count sequencer ∷ signed_trace owner) ≡ ok price
        → w.send_reply before_send (closing_transaction count price) ≡ ok hash
        → (submitted.1 ≡ receipt_of hash ∷ send (closing_transaction count price) ∷ before_send)
          × (w.receipt_status (send (closing_transaction count price) ∷ before_send) hash
              ≡ ok (pos 1))
    unfolding submit_close
    submit_close_confirms {count} {price} {hash} h e f g =
        let (r, s) =
          is_ok-value (w.receipt_status (send (closing_transaction count price) ∷ before_send) hash)
            (ground arith) in
        (ground arith, ground (arith, int_eq_iff r (pos 1)))

    -- What is known of a submission that was confirmed.
    abbrev pub Confirms : Trace → Type 0
    Confirms after =
        (before : Trace) × (tx : Transaction) × (hash : String) × (after
          ≡ receipt_of hash ∷ send tx ∷ before)
        × (before ≡ gas_price ∷ transaction_count sequencer ∷ signed_trace owner)
        × (tx.function ≡ final_close channel sequence (w.now past) [] [] sig)
        × (tx.sender ≡ sequencer)
        × (w.send_reply before tx ≡ ok hash)
        × (w.receipt_status (send tx ∷ before) hash ≡ ok (pos 1))

    submit_close-Confirms : submitted.0 ≡ ok true → Confirms submitted.1
    submit_close-Confirms h =
        let (counted, priced) = submit_close_reads h in
        let (count, e) = is_ok-value _ counted in
        let (price, f) = is_ok-value _ priced in
        let (hash, g) = is_ok-value _ (submit_close_sends h e f) in
        let (newest, good) = submit_close_confirms h e f g in
        (before_send, closing_transaction count price, hash, newest, refl, refl, refl, g, good)

  -- When `close_via_dual_key` reports success, the account of the given key has signed that the
  -- channel ends at its sequence number with nothing owed, at the time that the clock gave. The
  -- newest two calls are then the transaction of the sequencer's account with that very state and
  -- signature, and its receipt, with status 1; the signing is one of the calls before.
  pub close_via_dual_key-Confirms :
      closing.0 ≡ ok true
      → (owner : String) × (sig : String) × (sequencer : String) × (w.account_of key ≡ ok owner)
        × (w.signature_by (clock ∷ past) owner empty_state ≡ ok sig)
        × (w.account_of sequencer_private_key ≡ ok sequencer)
        × Confirms owner sequencer sig closing.1
  close_via_dual_key-Confirms h =
      let (owner, d) = is_ok-value _ (closing_owner h) in
      let (signs, submits) = closing_signs h d in
      let (sig, e) = is_ok-value _ signs in
      let (sequencer, f) = is_ok-value _ submits in
      let (run, good) = closing_run h d e f in
      (
        owner,
        sig,
        sequencer,
        d,
        e,
        f,
        subst (Confirms owner sequencer sig) (sym run)
            (submit_close-Confirms owner sequencer sig good),
      )
