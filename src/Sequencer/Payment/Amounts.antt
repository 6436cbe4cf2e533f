-- ===== src/Sequencer/Payment/Amounts.antt =====
-- The list of recipients under `add_amount`: who is listed, and the sum without wrap-around.
use cronos_stream.Prelude.{
  ℕ, ◌+◌, ◌^◌, ◌<◌, ◌≡◌, ◌∙◌, refl, Bool, true, false, none, some, List, [], ◌∷◌, length, arith,
  ◌==◌, nat_has_eq, if◌then◌else◌,
}
use cronos_stream.Sequencer.{add_u256, RecipientBalance}
use cronos_stream.Sequencer.Payment.{enter_amount, add_amount, total_from, Payment}

-- What all recipients are owed together, as numbers without bound.
abbrev pub owed : List RecipientBalance → ℕ
owed [] = 0
owed (r ∷ rs) = r.balance + owed rs

-- What is owed to one address.
abbrev pub owed_to : ℕ → List RecipientBalance → ℕ
owed_to a [] = 0
owed_to a (r ∷ rs) = if r.recipient_address == a then r.balance else owed_to a rs

abbrev pub is_listed : ℕ → List RecipientBalance → Bool
is_listed a [] = false
is_listed a (r ∷ rs) = if r.recipient_address == a then true else is_listed a rs

-- No address has two entries.
abbrev pub Distinct : List RecipientBalance → Type 0
Distinct [] = Unit
Distinct (r ∷ rs) = (is_listed r.recipient_address rs ≡ false) × Distinct rs

is_listed-enter_amount :
    (j a n p : ℕ) (rs : List RecipientBalance)
    → is_listed j (enter_amount rs a n p) ≡ (if a == j then true else is_listed j rs)
unfolding enter_amount
is_listed-enter_amount j a n p [] = refl
is_listed-enter_amount j a n p (r ∷ rs) = ground (arith, is_listed-enter_amount j a n p rs)

enter_amount-Distinct :
    (a n p : ℕ) (rs : List RecipientBalance) → Distinct rs → Distinct (enter_amount rs a n p)
unfolding enter_amount
enter_amount-Distinct a n p [] h = (refl, tt)
enter_amount-Distinct a n p (r ∷ rs) h =
    ground (
      arith,
      enter_amount-Distinct a n p rs h.1,
      is_listed-enter_amount r.recipient_address a n p rs,
    )

pub add_amount-Distinct :
    (a n : ℕ) (rs : List RecipientBalance) → Distinct rs → Distinct (add_amount rs a n)
unfolding add_amount
add_amount-Distinct a n rs h = ground (arith, enter_amount-Distinct a n (length rs) rs h)

owed-enter_amount :
    (a n p : ℕ) (rs : List RecipientBalance)
    → owed rs + n < 2 ^ 256
    → owed (enter_amount rs a n p) ≡ owed rs + n
unfolding enter_amount
owed-enter_amount a n p [] h = omega arith
owed-enter_amount a n p (r ∷ rs) h =
    ground (arith, λ (k : owed rs + n < 2 ^ 256). owed-enter_amount a n p rs k)

-- Where the sum with the payment fits a word, the payment raises it by itself.
pub owed-add_amount :
    (a n : ℕ) (rs : List RecipientBalance)
    → owed rs + n < 2 ^ 256
    → owed (add_amount rs a n) ≡ owed rs + n
unfolding add_amount
owed-add_amount a n rs h = ground (arith, owed-enter_amount a n (length rs) rs h)

total_from_lem :
    (acc : ℕ) (rs : List RecipientBalance)
    → acc + owed rs < 2 ^ 256
    → total_from acc rs ≡ acc + owed rs
unfolding total_from
total_from_lem acc [] h = omega arith
total_from_lem acc (r ∷ rs) h =
    let fits : add_u256 acc r.balance ≡ acc + r.balance = omega arith in
    rw fits (total_from_lem (acc + r.balance) rs (omega arith) ∙ omega arith)

-- The sum that the code computes is the sum, where that fits a word.
pub total_from-eq-owed :
    (rs : List RecipientBalance) → owed rs < 2 ^ 256 → total_from 0 rs ≡ owed rs
total_from-eq-owed rs h = total_from_lem 0 rs (omega arith) ∙ omega arith

owed_to-enter_amount :
    (j a n p : ℕ) (rs : List RecipientBalance)
    → owed rs + n < 2 ^ 256
    → owed_to j (enter_amount rs a n p) ≡ (if a == j then owed_to j rs + n else owed_to j rs)
unfolding enter_amount
owed_to-enter_amount j a n p [] h = ground arith
owed_to-enter_amount j a n p (r ∷ rs) h =
    ground (arith, λ (k : owed rs + n < 2 ^ 256). owed_to-enter_amount j a n p rs k)

pub owed_to-add_amount :
    (j a n : ℕ) (rs : List RecipientBalance)
    → owed rs + n < 2 ^ 256
    → owed_to j (add_amount rs a n) ≡ (if a == j then owed_to j rs + n else owed_to j rs)
unfolding add_amount
owed_to-add_amount j a n rs h = ground (arith, owed_to-enter_amount j a n (length rs) rs h)

-- What a payment costs with its fee.
abbrev pub cost : Payment → ℕ
cost payment = payment.amount + elim (payment.fee) [ none ↦ 0 | some fee ↦ fee.1 ]
