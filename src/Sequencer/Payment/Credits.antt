-- ===== src/Sequencer/Payment/Credits.antt =====
-- What `add_amount` does to the list of recipients, beside a description of it.
use cronos_stream.Prelude.{
  ℕ, ◌+◌, ◌^◌, ◌%◌, ◌≡◌, ◌≢◌, refl, sym, ap, true, false, List, [], ◌∷◌, ◌++◌, length, arith, ◌==◌,
  nat_has_eq, nat_eq_iff, Bool-cases, inl, inr,
}
use mathlib.Core.Path.{subst}
use cronos_stream.Sequencer.{RecipientBalance}
use cronos_stream.Sequencer.Payment.{enter_amount, add_amount}
use cronos_stream.Sequencer.Payment.Amounts.{is_listed}

-- How an amount for an address changes the recipients: an amount of 0 does not; where the address
-- has an entry, its first entry is raised, round at 2^256; and where it has none, it gets the last.
pub data Credits (a n : ℕ) : List RecipientBalance → List RecipientBalance → Type 0 where
  nothing : {rs : List RecipientBalance} → n ≡ 0 → Credits a n rs rs
  raises :
      (before after : List RecipientBalance) (r : RecipientBalance)
      → n ≢ 0
      → is_listed a before ≡ false
      → r.recipient_address ≡ a
      → Credits a n
          (before ++ r ∷ after)
          (before ++ record r { balance = (r.balance + n) % 2 ^ 256 } ∷ after)
  appends :
      (rs : List RecipientBalance)
      → n ≢ 0
      → is_listed a rs ≡ false
      → Credits a n rs
          (rs ++ record { recipient_address = a; balance = n; position = length rs } ∷ [])

enter_amount-raises :
    (a n p : ℕ) (before after : List RecipientBalance) (r : RecipientBalance)
    → is_listed a before ≡ false
    → r.recipient_address ≡ a
    → enter_amount (before ++ r ∷ after) a n p
      ≡ before ++ record r { balance = (r.balance + n) % 2 ^ 256 } ∷ after
unfolding enter_amount
enter_amount-raises a n p [] after r h e = ground (arith, nat_eq_iff r.recipient_address a)
enter_amount-raises a n p (x ∷ before) after r h e =
    ground (arith, enter_amount-raises a n p before after r)

enter_amount-appends :
    (a n p : ℕ) (rs : List RecipientBalance)
    → is_listed a rs ≡ false
    → enter_amount rs a n p ≡ rs ++ record { recipient_address = a; balance = n; position = p } ∷ []
unfolding enter_amount
enter_amount-appends a n p [] h = refl
enter_amount-appends a n p (x ∷ rs) h = ground (arith, enter_amount-appends a n p rs)

pub Credits-add_amount :
    (a n : ℕ) {rs rs' : List RecipientBalance} → Credits a n rs rs' → rs' ≡ add_amount rs a n
unfolding add_amount
Credits-add_amount a n {rs} (nothing zero) = ground (arith, nat_eq_iff n 0)
Credits-add_amount a n (raises before after r some_amount unlisted same) = ground (
  arith,
  nat_eq_iff n 0,
  enter_amount-raises a n (length (before ++ r ∷ after)) before after r unlisted same,
)
Credits-add_amount a n (appends rs some_amount unlisted) =
    ground (arith, nat_eq_iff n 0, enter_amount-appends a n (length rs) rs unlisted)

-- The first entry of a listed address.
listed_entry :
    (a : ℕ) (rs : List RecipientBalance)
    → is_listed a rs ≡ true
    → (before : List RecipientBalance) × (r : RecipientBalance) × (after : List RecipientBalance)
      × (rs ≡ before ++ r ∷ after)
      × (is_listed a before ≡ false)
      × (r.recipient_address ≡ a)
listed_entry a [] h = ground arith
listed_entry a (x ∷ rs) h = elim (Bool-cases (x.recipient_address == a)) [
  | inl same ↦ ([], x, rs, refl, refl, (nat_eq_iff x.recipient_address a).0 same)
  | inr other ↦
      let (before, r, after, split, unlisted, e) = listed_entry a rs (ground arith) in
      (x ∷ before, r, after, ap (λ l. x ∷ l) split, ground arith, e)
]

pub add_amount-Credits : (a n : ℕ) (rs : List RecipientBalance) → Credits a n rs (add_amount rs a n)
unfolding add_amount
add_amount-Credits a n rs = elim (Bool-cases (n == 0)) [
  | inl zero ↦
      subst (Credits a n rs) {x = rs} {y = add_amount rs a n} (ground arith)
        (nothing ((nat_eq_iff n 0).0 zero))
  | inr positive ↦
      let some_amount : n ≢ 0 = ground (arith, nat_eq_iff n 0) in
      elim (Bool-cases (is_listed a rs)) [
        | inr unlisted ↦
            let last : RecipientBalance = record {
              recipient_address = a;
              balance = n;
              position = length rs;
            } in
            subst (Credits a n rs) {x = rs ++ last ∷ []} {y = add_amount rs a n}
              (Credits-add_amount a n (appends rs some_amount unlisted))
              (appends rs some_amount unlisted)
        | inl listed ↦
            let (before, r, after, split, unlisted, same) = listed_entry a rs listed in
            let raised : Credits a n (before ++ r ∷ after)
                (before ++ record r { balance = (r.balance + n) % 2 ^ 256 } ∷ after) =
              raises before after r some_amount unlisted same in
            subst (λ l. Credits a n l (add_amount l a n)) (sym split)
              (subst (Credits a n (before ++ r ∷ after)) (Credits-add_amount a n raised) raised)
      ]
]
