-- ===== src/Sequencer/Agent/Books.antt =====
-- The two lists of amounts under one payment, and the lists that the agent signs.
use cronos_stream.Prelude.{
  ℕ, ◌+◌, ◌^◌, ◌<◌, String, ◌≡◌, ◌≢◌, refl, some, List, [], ◌∷◌, map, length, arith, nat_has_eq,
  string_has_eq, nat_eq_iff, eq_iff,
}
use cronos_stream.Prelude.Int.{ℤ, pos, ◌+ℤ◌, int_laws}
use cronos_stream.Python.{Dict, keys}
use cronos_stream.Channel.Voucher.Amounts.{pay, amounts}
use cronos_stream.Sequencer.{RecipientBalance, Backend}
use cronos_stream.Sequencer.Payment.{enter_amount, add_amount}
use cronos_stream.Sequencer.Payment.Amounts.{owed}
use cronos_stream.Sequencer.Agent.{SameAddresses, SameBooks, OneSpelling}

pub add_pos : (m n : ℕ) → pos m +ℤ pos n ≡ pos (m + n)
add_pos m n = omega int_laws

module _ (b : Backend) where
  SameBooks-enter :
      (k : String) (a n p : ℕ) (d : Dict ℤ) (rs : List RecipientBalance)
      → b.address_from_str k ≡ some a
      → OneSpelling b k a d
      → SameBooks b d rs
      → owed rs + n < 2 ^ 256
      → SameBooks b (pay k (pos n) d) (enter_amount rs a n p)
  unfolding enter_amount
  SameBooks-enter k a n p [] [] spelt one same fits = ground (arith, add_pos 0 n)
  SameBooks-enter k a n p (e ∷ d) (r ∷ rs) spelt one same fits =
      ground
        (arith, eq_iff k e.0, add_pos r.balance n, SameBooks-enter k a n p d rs spelt one.1 same.2)
  SameBooks-enter k a n p [] (r ∷ rs) spelt one same fits = absurd same
  SameBooks-enter k a n p (e ∷ d) [] spelt one same fits = absurd same

  -- A payment that is not nothing is entered alike on both sides.
  pub SameBooks-add_amount :
      (k : String) (a n : ℕ) (d : Dict ℤ) (rs : List RecipientBalance)
      → n ≢ 0
      → b.address_from_str k ≡ some a
      → OneSpelling b k a d
      → SameBooks b d rs
      → owed rs + n < 2 ^ 256
      → SameBooks b (pay k (pos n) d) (add_amount rs a n)
  unfolding add_amount
  SameBooks-add_amount k a n d rs some_amount spelt one same fits =
      ground (arith, nat_eq_iff n 0, SameBooks-enter k a n (length rs) d rs spelt one same fits)

  pub SameBooks-addresses :
      (d : Dict ℤ) (rs : List RecipientBalance)
      → SameBooks b d rs
      → SameAddresses b (keys d) (map (λ r. r.recipient_address) rs)
  SameBooks-addresses [] [] same = tt
  SameBooks-addresses (e ∷ d) (r ∷ rs) same = (same.0, SameBooks-addresses d rs same.2)
  SameBooks-addresses [] (r ∷ rs) same = absurd same
  SameBooks-addresses (e ∷ d) [] same = absurd same

  pub SameBooks-amounts :
      (d : Dict ℤ) (rs : List RecipientBalance)
      → SameBooks b d rs
      → amounts d ≡ map pos (map (λ r. r.balance) rs)
  SameBooks-amounts [] [] same = refl
  SameBooks-amounts (e ∷ d) (r ∷ rs) same = ground (arith, SameBooks-amounts d rs same.2)
  SameBooks-amounts [] (r ∷ rs) same = absurd same
  SameBooks-amounts (e ∷ d) [] same = absurd same
