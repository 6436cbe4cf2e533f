-- ===== src/Python/Dicts.antt =====
-- A Python dict with text keys, in insertion order: `d[k] = v` writes in place or appends.
use cronos_stream.Prelude.{
  ◌≡◌, refl, String, Option, none, some, List, [], ◌∷◌, map, arith, ◌==◌, string_has_eq, eq_iff,
  if◌then◌else◌,
}

abbrev pub Dict {ℓ} : Type ℓ → Type ℓ
Dict V = List (String × V)

abbrev pub keys {ℓ} : {V : Type ℓ} → Dict V → List String
keys = map (λ e. e.0)

module _ {ℓ} {V : Type ℓ} where
  abbrev pub lookup : String → Dict V → Option V
  lookup k [] = none
  lookup k (e ∷ d) = if k == e.0 then some e.1 else lookup k d

  abbrev pub insert : String → V → Dict V → Dict V
  insert k v [] = (k, v) ∷ []
  insert k v (e ∷ d) = if k == e.0 then (e.0, v) ∷ d else e ∷ insert k v d

  -- `d.get(k, default)`
  abbrev pub get_or : String → V → Dict V → V
  get_or k default d = elim (lookup k d) [ none ↦ default | some v ↦ v ]

  -- No key is listed twice, as in every real dict.
  abbrev pub NodupKeys : Dict V → Type ℓ
  NodupKeys [] = Unit
  NodupKeys (e ∷ d) = (lookup e.0 d ≡ none) × NodupKeys d

  pub lookup-insert :
      (j k : String) (v : V) (d : Dict V)
      → lookup j (insert k v d) ≡ (if j == k then some v else lookup j d)
  lookup-insert j k v [] = refl
  lookup-insert j k v (e ∷ d) =
      ground (arith, eq_iff j k, eq_iff k e.0, eq_iff j e.0, lookup-insert j k v d)

  pub insert-NodupKeys : (k : String) (v : V) (d : Dict V) → NodupKeys d → NodupKeys (insert k v d)
  insert-NodupKeys k v [] h = (refl, tt)
  insert-NodupKeys k v (e ∷ d) h =
      ground
        (arith, eq_iff k e.0, eq_iff e.0 k, insert-NodupKeys k v d h.1, lookup-insert e.0 k v d)
