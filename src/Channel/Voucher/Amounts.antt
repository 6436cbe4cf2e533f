-- ===== src/Channel/Voucher/Amounts.antt =====
-- The dict of cumulative amounts: its sum, its two parallel lists, and a payment added to it.
use cronos_stream.Prelude.{
  String, ◌≡◌, refl, none, List, [], ◌∷◌, map, arith, eq_iff, ◌==◌, string_has_eq, if◌then◌else◌,
}
use cronos_stream.Prelude.Int.{ℤ, pos, ◌+ℤ◌, int_laws}
use cronos_stream.Python.{Dict, keys, get_or, insert, lookup, NodupKeys, lookup-insert}
use cronos_stream.Channel.{amounts_list}

abbrev pub sum : List ℤ → ℤ
sum [] = pos 0
sum (a ∷ rest) = a +ℤ sum rest

abbrev pub amounts : Dict ℤ → List ℤ
amounts = map (λ e. e.1)

-- What all recipients are owed together.
abbrev pub total : Dict ℤ → ℤ
total d = sum (amounts d)

-- A payment of `a` to `k`, as `create_voucher` enters it.
abbrev pub pay : String → ℤ → Dict ℤ → Dict ℤ
pay k a d = insert k (get_or k (pos 0) d +ℤ a) d

pub total-insert :
    (k : String) (v : ℤ) (d : Dict ℤ) → total (insert k v d) +ℤ get_or k (pos 0) d ≡ total d +ℤ v
total-insert k v [] = omega int_laws
total-insert k v (e ∷ d) = grind (int_laws, total-insert k v d)

cancel_both : (x y z c : ℤ) → x +ℤ c ≡ y +ℤ (c +ℤ z) → x ≡ y +ℤ z
cancel_both x y z c h = grind int_laws

-- A payment raises the sum by itself.
pub total-pay : (k : String) (a : ℤ) (d : Dict ℤ) → total (pay k a d) ≡ total d +ℤ a
total-pay k a d =
    cancel_both _ _ _ (get_or k (pos 0) d) (total-insert k (get_or k (pos 0) d +ℤ a) d)

+ℤ-zero : (a : ℤ) → a +ℤ pos 0 ≡ a
+ℤ-zero a = omega int_laws

-- A payment raises its recipient's amount by itself, and leaves the others.
pub get_or-pay :
    (j k : String) (a : ℤ) (d : Dict ℤ)
    → get_or j (pos 0) (pay k a d) ≡ get_or j (pos 0) d +ℤ (if j == k then a else pos 0)
get_or-pay j k a d =
    ground (
      arith,
      lookup-insert j k (get_or k (pos 0) d +ℤ a) d,
      eq_iff j k,
      +ℤ-zero (get_or j (pos 0) d),
    )

-- A key that is not in the dict can be put in front of it unseen.
map-get_or_cons :
    (k : String) (v : ℤ) (d c : Dict ℤ)
    → lookup k c ≡ none
    → map (λ r. get_or r (pos 0) ((k, v) ∷ d)) (keys c) ≡ map (λ r. get_or r (pos 0) d) (keys c)
map-get_or_cons k v d [] h = refl
map-get_or_cons k v d (e ∷ c) h =
    ground (arith, eq_iff k e.0, eq_iff e.0 k, map-get_or_cons k v d c)

-- The list that the source builds by look-ups holds the amounts of the dict, in its order.
pub amounts_list-keys : (d : Dict ℤ) → NodupKeys d → amounts_list d (keys d) ≡ amounts d
unfolding amounts_list
amounts_list-keys [] h = refl
amounts_list-keys (e ∷ d) h =
    rw (map-get_or_cons e.0 e.1 d d h.0) (ground (arith, eq_iff e.0 e.0, amounts_list-keys d h.1))
