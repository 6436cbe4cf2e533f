-- ===== src/Channel/Voucher/Series.antt =====
-- Vouchers issued one after another on one manager, as scripts/verify_reusable_channel.py does.
use cronos_stream.Prelude.{
  String, ◌≡◌, List, [], ◌∷◌, map, length, ◌==◌, string_has_eq, if◌then◌else◌, ◌∙◌, ap, suc, ℕ,
}
use cronos_stream.Prelude.Int.{ℤ, pos, ◌+ℤ◌, int_laws, +ℤ_assoc}
use cronos_stream.Python.{get_or, NodupKeys, int}
use cronos_stream.World.{World}
use cronos_stream.Channel.{Session}
use cronos_stream.Channel.Voucher.{create_voucher}
use cronos_stream.Channel.Voucher.Amounts.{sum, total}
use cronos_stream.Channel.Voucher.Laws.{create_voucher-accounts}

-- The session behind the payments, whichever of them could be signed.
pub create_vouchers : World → List (String × ℤ) → Session → Session
create_vouchers w [] s = s
create_vouchers w (p ∷ ps) s = create_vouchers w ps (create_voucher w p.0 p.1 s).1

-- What the payments give to `j`.
abbrev pub due : String → List (String × ℤ) → ℤ
due j [] = pos 0
due j (p ∷ ps) = (if j == p.0 then p.1 else pos 0) +ℤ due j ps

regroup : (x y a b : ℤ) → x ≡ y +ℤ a → x +ℤ b ≡ y +ℤ (a +ℤ b)
regroup x y a b h = ap (λ t. t +ℤ b) h ∙ +ℤ_assoc y a b

count_step : (n : ℤ) (k : ℕ) → n +ℤ pos 1 +ℤ pos k ≡ n +ℤ pos (suc k)
count_step n k = omega int_laws

add_zero : (n : ℤ) → n ≡ n +ℤ pos 0
add_zero n = omega int_laws

-- After a series of payments the sequence number has moved by their count, the sum of all amounts
-- by their sum, and each recipient's amount by what the payments give to it.
pub create_vouchers-accounts :
    (w : World) (ps : List (String × ℤ)) (s : Session) (n : ℤ)
    → s.manager.sequence_number ≡ int n
    → NodupKeys s.manager.cumulative_amounts
    → let m = (create_vouchers w ps s).manager in
      (m.sequence_number ≡ int (n +ℤ pos (length ps)))
      × (total m.cumulative_amounts ≡ total s.manager.cumulative_amounts +ℤ sum (map (λ p. p.1) ps))
      × ((j : String)
          → get_or j (pos 0) m.cumulative_amounts
            ≡ get_or j (pos 0) s.manager.cumulative_amounts +ℤ due j ps)
      × NodupKeys m.cumulative_amounts
unfolding create_vouchers
create_vouchers-accounts w [] s n counted distinct =
    (counted ∙ ap int (add_zero n), add_zero _, (λ j. add_zero _), distinct)
create_vouchers-accounts w (p ∷ ps) s n counted distinct =
    let (counted', sum', each', distinct', _) =
      create_voucher-accounts w p.0 p.1 s n counted distinct in
    let (counted'', sum'', each'', distinct'') =
      create_vouchers-accounts w ps (create_voucher w p.0 p.1 s).1 (n +ℤ pos 1) counted'
        distinct' in
    (
      counted'' ∙ ap int (count_step n (length ps)),
      sum'' ∙ regroup _ _ p.1 _ sum',
      (λ j. each'' j ∙ regroup _ _ (if j == p.0 then p.1 else pos 0) _ (each' j)),
      distinct'',
    )
