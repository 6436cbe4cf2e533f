-- ===== src/Python/Access.antt =====
-- What dynamic code does with a value: `v.get(k, d)`, `v[k]`, `for x in v`, `n + 1`.
use cronos_stream.Prelude.{
  ℕ, ◌^◌, String, Bool, true, false, none, some, List, [], ◌∷◌, map, length, get_elem?,
}
use cronos_stream.Prelude.Int.{pos, ◌+ℤ◌}
use cronos_stream.Python.Dicts.{lookup, get_or, keys}
use cronos_stream.Python.Values.{Value, bool, int, float, text, list, dict, elements, entries}
use cronos_stream.Python.Exceptions.{Outcome, ok, raised, exception}

-- `v.get(k, default)`
unfoldable pub get : Value → String → Value → Outcome Value
get (dict fs) k default = ok (get_or k default (entries fs))
get _ k default = raised (exception "AttributeError")

-- `v[k]`
unfoldable pub index : Value → String → Outcome Value
index (dict fs) k = elim (lookup k (entries fs)) [
  | none ↦ raised (exception "KeyError")
  | some v ↦ ok v
]
index _ k = raised (exception "TypeError")

abbrev characters : String → List Value
characters String.[] = []
characters (String.◌∷◌ c s) = text (String.◌∷◌ c "") ∷ characters s

-- `for x in v`, as the list of its elements
unfoldable pub iterate : Value → Outcome (List Value)
iterate (list vs) = ok (elements vs)
iterate (dict fs) = ok (map text (keys (entries fs)))
iterate (text s) = ok (characters s)
iterate _ = raised (exception "TypeError")

-- `v + 1`
unfoldable pub add_one : Value → Outcome Value
add_one (int n) = ok (int (n +ℤ pos 1))
add_one (bool true) = ok (int (pos 2))
add_one (bool false) = ok (int (pos 1))
add_one (float m k) = ok (float (m +ℤ pos (10 ^ k)) k)
add_one _ = raised (exception "TypeError")

-- `isinstance(v, dict)`
unfoldable pub is_dict : Value → Bool
is_dict (dict fs) = true
is_dict _ = false

-- The receiver of `.rstrip` and `.startswith`, which texts alone have.
unfoldable pub as_text : Value → Outcome String
as_text (text s) = ok s
as_text _ = raised (exception "AttributeError")

-- `len(v)`
unfoldable pub length_of : Value → Outcome ℕ
length_of (list vs) = ok (length (elements vs))
length_of (dict fs) = ok (length (entries fs))
length_of (text s) = ok (length (characters s))
length_of _ = raised (exception "TypeError")

nth : List Value → ℕ → Outcome Value
nth vs i = elim (get_elem? vs i) [ none ↦ raised (exception "IndexError") | some v ↦ ok v ]

-- `v[i]` for a number from 0
unfoldable pub subscript : Value → ℕ → Outcome Value
unfolding nth
subscript (list vs) i = nth (elements vs) i
subscript (text s) i = nth (characters s) i
subscript (dict fs) i = raised (exception "KeyError")
subscript _ i = raised (exception "TypeError")
