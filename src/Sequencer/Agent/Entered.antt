-- ===== src/Sequencer/Agent/Entered.antt =====
-- The dict that the agent builds of the sequencer's recipients.
use cronos_stream.Prelude.{
  ℕ, String, ◌≡◌, ◌∙◌, refl, ap, sym, false, none, List, [], ◌∷◌, ◌++◌, map, arith, ◌==◌,
  nat_has_eq, string_has_eq, nat_eq_iff, eq_iff,
}
use mathlib.Core.Path.{subst}
use mathlib.Core.List.{append_assoc, append-nil}
use cronos_stream.Prelude.Int.{ℤ, pos}
use cronos_stream.Python.{Dict, lookup, insert, NodupKeys, insert-NodupKeys}
use cronos_stream.World.{World}
use cronos_stream.Sequencer.{RecipientBalance, Backend}
use cronos_stream.Sequencer.Payment.Amounts.{is_listed, Distinct}
use cronos_stream.Sequencer.Agent.{SameBooks, Spells, AllSpelt}

insert-fresh :
    (k : String) (v : ℤ) (d : Dict ℤ) → lookup k d ≡ none → insert k v d ≡ d ++ ((k, v) ∷ [])
insert-fresh k v [] h = refl
insert-fresh k v (e ∷ d) h = ground (arith, insert-fresh k v d)

lookup-append_one :
    (j k : String) (v : ℤ) (d : Dict ℤ)
    → lookup j d ≡ none
    → (j == k) ≡ false
    → lookup j (d ++ ((k, v) ∷ [])) ≡ none
lookup-append_one j k v [] h other = ground arith
lookup-append_one j k v (e ∷ d) h other = ground (arith, lookup-append_one j k v d)

module _ (w : World) (b : Backend) (key : ℕ → String) where
  abbrev pub entry : RecipientBalance → String × ℤ
  entry r = (key r.recipient_address, pos r.balance)

  -- The recipients, entered in order.
  abbrev pub entered : List RecipientBalance → Dict ℤ → Dict ℤ
  entered [] d = d
  entered (r ∷ rs) d = entered rs (insert (key r.recipient_address) (pos r.balance) d)

  abbrev Fresh : List RecipientBalance → Dict ℤ → Type 0
  Fresh [] d = Unit
  Fresh (r ∷ rs) d = (lookup (key r.recipient_address) d ≡ none) × Fresh rs d

  key-injective : (a c : ℕ) → Spells b w key a → Spells b w key c → key a ≡ key c → a ≡ c
  key-injective a c (_, _, reads) (_, _, reads') h = ground arith

  Fresh-append_one :
      (a : ℕ) (v : ℤ) (rs : List RecipientBalance) (d : Dict ℤ)
      → Spells b w key a
      → AllSpelt b w key rs
      → is_listed a rs ≡ false
      → Fresh rs d
      → Fresh rs (d ++ ((key a, v) ∷ []))
  Fresh-append_one a v [] d one all h fresh = tt
  Fresh-append_one a v (r ∷ rs) d one all h fresh = ground (
    arith,
    Fresh-append_one a v rs d one all.1,
    nat_eq_iff r.recipient_address a,
    eq_iff (key r.recipient_address) (key a),
    key-injective r.recipient_address a all.0 one,
    lookup-append_one (key r.recipient_address) (key a) v d,
  )

  entered-append :
      (rs : List RecipientBalance) (d : Dict ℤ)
      → AllSpelt b w key rs
      → Distinct rs
      → Fresh rs d
      → entered rs d ≡ d ++ map entry rs
  entered-append [] d all distinct fresh = sym (append-nil d)
  entered-append (r ∷ rs) d (spelt, all) (unlisted, distinct) (new, fresh) =
      ap (entered rs) (insert-fresh (key r.recipient_address) (pos r.balance) d new)
      ∙ entered-append rs (d ++ (entry r ∷ [])) all distinct
          (Fresh-append_one r.recipient_address (pos r.balance) rs d spelt all unlisted fresh)
      ∙ append_assoc d (entry r ∷ []) (map entry rs)

  pub entered-NodupKeys :
      (rs : List RecipientBalance) (d : Dict ℤ) → NodupKeys d → NodupKeys (entered rs d)
  entered-NodupKeys [] d h = h
  entered-NodupKeys (r ∷ rs) d h =
      entered-NodupKeys rs (insert (key r.recipient_address) (pos r.balance) d)
        (insert-NodupKeys (key r.recipient_address) (pos r.balance) d h)

  SameBooks-entries :
      (rs : List RecipientBalance) → AllSpelt b w key rs → SameBooks b (map entry rs) rs
  SameBooks-entries [] all = tt
  SameBooks-entries (r ∷ rs) ((_, _, reads), all) = (reads, refl, SameBooks-entries rs all)

  Fresh-empty : (rs : List RecipientBalance) → Fresh rs []
  Fresh-empty [] = tt
  Fresh-empty (r ∷ rs) = (refl, Fresh-empty rs)

  -- Entered into an empty dict, the recipients give the sequencer's books.
  pub entered-SameBooks :
      (rs : List RecipientBalance)
      → AllSpelt b w key rs
      → Distinct rs
      → SameBooks b (entered rs []) rs
  entered-SameBooks rs all distinct =
      subst (λ d. SameBooks b d rs) (sym (entered-append rs [] all distinct (Fresh-empty rs)))
        (SameBooks-entries rs all)
