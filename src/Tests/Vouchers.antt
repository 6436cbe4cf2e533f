-- ===== src/Tests/Vouchers.antt =====
-- Vouchers of the small world's manager.
use cronos_stream.Prelude.{
  String, ◌≡◌, refl, some, List, [], ◌∷◌, ◌==◌, string_has_eq, if◌then◌else◌,
}
use cronos_stream.Prelude.Int.{ℤ, pos, ◌+ℤ◌}
use cronos_stream.Python.{
  keys, get_or, lookup, NodupKeys, text, int, str_int, ok, raised, exception, add_one,
}
use cronos_stream.World.{World, TypedData, sign, clock}
use cronos_stream.Channel.Voucher.{create_voucher, state_data, voucher_of}
use cronos_stream.Channel.Voucher.Amounts.{total, amounts}
use cronos_stream.Channel.Voucher.Laws.{create_voucher-accounts, create_voucher-signs}
use cronos_stream.Channel.Voucher.Series.{create_vouchers, create_vouchers-accounts}
use cronos_stream.Tests.{demo, manager, start}

distinct : NodupKeys manager.cumulative_amounts
distinct = (refl, (refl, tt))

-- The signer refuses everything.
abbrev refusing : World
refusing = record demo { signature = λ past document. raised (exception "ValueError") }

second_payment :
    (create_voucher demo "0xB" (pos 5) start).1.manager.cumulative_amounts
    ≡ ("0xA", pos 10) ∷ ("0xB", pos 25) ∷ []
unfolding create_voucher add_one ◌+ℤ◌
second_payment = refl

new_recipient :
    (create_voucher demo "0xN" (pos 5) start).0
    ≡ ok (
        ("channelId", text "0xC")
        ∷ ("amount", text "5")
        ∷ ("receiver", text "0xN")
        ∷ ("sequenceNumber", int (pos 5))
        ∷ ("timestamp", int (pos 1000))
        ∷ ("userSignature", text "0xsig")
        ∷ ("totalAmount", text "5")
        ∷ [])
unfolding create_voucher add_one voucher_of str_int state_data ◌+ℤ◌
new_recipient = refl

create_voucher-accounts_example :
    let m = (create_voucher demo "0xB" (pos 5) start).1.manager in
    (m.sequence_number ≡ int (pos 5))
    × (total m.cumulative_amounts ≡ pos 35)
    × ((j : String)
        → get_or j (pos 0) m.cumulative_amounts
          ≡ get_or j (pos 0) manager.cumulative_amounts +ℤ (if j == "0xB" then pos 5 else pos 0))
    × NodupKeys m.cumulative_amounts
    × (m.channel_id ≡ "0xC")
unfolding ◌+ℤ◌
create_voucher-accounts_example =
    create_voucher-accounts demo "0xB" (pos 5) start (pos 4) refl distinct

issued :
    (create_voucher demo "0xB" (pos 5) start).0
    ≡ ok (
        voucher_of
          (record manager { sequence_number = int (pos 5) })
          "0xB"
          (pos 5)
          (pos 1000)
          "0xsig"
          (pos 25))
unfolding create_voucher add_one voucher_of ◌+ℤ◌
issued = refl

create_voucher-signs_example :
    let m = (create_voucher demo "0xB" (pos 5) start).1.manager in
    let v =
      voucher_of
        (record manager { sequence_number = int (pos 5) })
        "0xB"
        (pos 5)
        (pos 1000)
        "0xsig"
        (pos 25) in
    (doc : TypedData) × (sig : String) × (demo.signature (clock ∷ []) doc ≡ ok sig)
    × (lookup "userSignature" v ≡ some (text sig))
    × ((create_voucher demo "0xB" (pos 5) start).1.trace ≡ sign doc ∷ clock ∷ [])
    × (doc.recipients ≡ keys m.cumulative_amounts)
    × (doc.amounts ≡ amounts m.cumulative_amounts)
    × (lookup "totalAmount" v ≡ some (text (str_int (get_or "0xB" (pos 0) m.cumulative_amounts))))
    × (lookup "sequenceNumber" v ≡ some doc.sequence_number)
    × (lookup "timestamp" v ≡ some (int doc.timestamp))
    × (lookup "channelId" v ≡ some (text doc.channel_id))
unfolding ◌+ℤ◌
create_voucher-signs_example =
    create_voucher-signs demo "0xB" (pos 5) start (pos 4) refl distinct issued

abbrev payments : List (String × ℤ)
payments = ("0xB", pos 5) ∷ ("0xN", pos 1) ∷ ("0xB", pos 2) ∷ []

create_vouchers-accounts_example :
    let m = (create_vouchers demo payments start).manager in
    (m.sequence_number ≡ int (pos 7)) × (total m.cumulative_amounts ≡ pos 38)
unfolding ◌+ℤ◌
create_vouchers-accounts_example =
    let (counted, sum, _, _) = create_vouchers-accounts demo payments start (pos 4) refl distinct in
    (counted, sum)
