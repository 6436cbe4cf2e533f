-- ===== src/Channel/Voucher/Laws.antt =====
-- `create_voucher`: the changes of one voucher, the document signed, and a signer that refuses.
use cronos_stream.Prelude.{
  String, ◌≡◌, refl, ◌∷◌, arith, some, ◌∙◌, eq_iff, ap, sym, ◌==◌, string_has_eq, if◌then◌else◌,
}
use cronos_stream.Prelude.Int.{ℤ, pos, ◌+ℤ◌}
use cronos_stream.Python.{
  Dict, keys, get_or, lookup, NodupKeys, insert-NodupKeys, Value, text, int, str_int, ok, raised,
  Exn, add_one, bind_outcome, bind_outcome-eq-ok, ok_injective,
}
use cronos_stream.World.{World, TypedData, sign, clock}
use cronos_stream.Channel.{Manager, Session, channel_data}
use cronos_stream.Channel.Voucher.{create_voucher, state_data, voucher_of}
use cronos_stream.Channel.Voucher.Amounts.{
  total, pay, amounts, total-pay, get_or-pay, amounts_list-keys,
}

-- The manager behind a voucher of `a` for `r`.
abbrev pub paid : Manager → String → ℤ → ℤ → Manager
paid m r a n = record m {
  sequence_number = int (n +ℤ pos 1);
  cumulative_amounts = pay r a m.cumulative_amounts;
}

module _ (w : World) (r : String) (a : ℤ) (s : Session) where
  -- The document that the signer is given.
  abbrev pub signed_document : ℤ → TypedData
  signed_document n = state_data (paid s.manager r a n) (w.now s.trace)

  -- The whole run in one equation, with the signer's answer left open.
  pub create_voucher_run :
      (n : ℤ)
      → s.manager.sequence_number ≡ int n
      → create_voucher w r a s ≡ (
        bind_outcome (w.signature (clock ∷ s.trace) (signed_document n)) (λ sig. ok (
            voucher_of
              (paid s.manager r a n)
              r
              a
              (w.now s.trace)
              sig
              (get_or r (pos 0) s.manager.cumulative_amounts +ℤ a))),
        record {
          manager = paid s.manager r a n;
          trace = sign (signed_document n) ∷ clock ∷ s.trace;
        },
      )
  unfolding create_voucher add_one
  create_voucher_run n counted = ground arith

  -- Whether or not signing succeeds, a voucher of `a` for `r` raises the sequence number by one,
  -- the sum of all amounts by `a`, the amount of `r` by `a`, and no other recipient's amount; the
  -- recipients stay distinct and the channel stays the same.
  pub create_voucher-accounts :
      (n : ℤ)
      → s.manager.sequence_number ≡ int n
      → NodupKeys s.manager.cumulative_amounts
      → let m = (create_voucher w r a s).1.manager in
        (m.sequence_number ≡ int (n +ℤ pos 1))
        × (total m.cumulative_amounts ≡ total s.manager.cumulative_amounts +ℤ a)
        × ((j : String)
            → get_or j (pos 0) m.cumulative_amounts
              ≡ get_or j (pos 0) s.manager.cumulative_amounts +ℤ (if j == r then a else pos 0))
        × NodupKeys m.cumulative_amounts
        × (m.channel_id ≡ s.manager.channel_id)
  create_voucher-accounts n counted distinct = rw (create_voucher_run n counted) (
    refl,
    total-pay r a s.manager.cumulative_amounts,
    (λ j. get_or-pay j r a s.manager.cumulative_amounts),
    insert-NodupKeys r _ s.manager.cumulative_amounts distinct,
    refl,
  )

  own_total :
      get_or r (pos 0) (pay r a s.manager.cumulative_amounts)
      ≡ get_or r (pos 0) s.manager.cumulative_amounts +ℤ a
  own_total = get_or-pay r r a s.manager.cumulative_amounts ∙ ground (arith, eq_iff r r)

  -- A voucher that is returned carries the signature of a document that was just signed. The
  -- document lists every recipient with its new amount, the voucher's receiver with the voucher's
  -- total, and has the voucher's sequence number and time.
  pub create_voucher-signs :
      (n : ℤ) {v : Dict Value}
      → s.manager.sequence_number ≡ int n
      → NodupKeys s.manager.cumulative_amounts
      → (create_voucher w r a s).0 ≡ ok v
      → let m = (create_voucher w r a s).1.manager in
        (doc : TypedData) × (sig : String) × (w.signature (clock ∷ s.trace) doc ≡ ok sig)
        × (lookup "userSignature" v ≡ some (text sig))
        × ((create_voucher w r a s).1.trace ≡ sign doc ∷ clock ∷ s.trace)
        × (doc.recipients ≡ keys m.cumulative_amounts)
        × (doc.amounts ≡ amounts m.cumulative_amounts)
        × (lookup "totalAmount" v ≡ some (text (str_int (get_or r (pos 0) m.cumulative_amounts))))
        × (lookup "sequenceNumber" v ≡ some doc.sequence_number)
        × (lookup "timestamp" v ≡ some (int doc.timestamp))
        × (lookup "channelId" v ≡ some (text doc.channel_id))
  unfolding voucher_of state_data channel_data
  create_voucher-signs n {v} counted distinct done =
      let (sig, signed, returned) =
        bind_outcome-eq-ok (w.signature (clock ∷ s.trace) (signed_document n)) _
          (rw (create_voucher_run n counted) at done) in
      let issued = ok_injective _ v returned in
      let m = paid s.manager r a n in
      rw (create_voucher_run n counted, ← issued)
        (
          signed_document n,
          sig,
          signed,
          refl,
          refl,
          refl,
          amounts_list-keys m.cumulative_amounts
              (insert-NodupKeys r _ s.manager.cumulative_amounts distinct),
          ap (λ t. some (text (str_int t))) (sym own_total),
          refl,
          refl,
          refl,
        )

  -- When the signer raises, the exception is passed on, and the payment stays entered: the sequence
  -- number and the amount of `r` have moved though no voucher was issued.
  pub create_voucher_failed :
      (n : ℤ) {e : Exn}
      → s.manager.sequence_number ≡ int n
      → w.signature (clock ∷ s.trace) (signed_document n) ≡ raised e
      → ((create_voucher w r a s).0 ≡ raised e)
        × ((create_voucher w r a s).1.manager.sequence_number ≡ int (n +ℤ pos 1))
        × (get_or r (pos 0) (create_voucher w r a s).1.manager.cumulative_amounts
            ≡ get_or r (pos 0) s.manager.cumulative_amounts +ℤ a)
  create_voucher_failed n counted refused =
      rw (create_voucher_run n counted, refused) (refl, refl, own_total)
