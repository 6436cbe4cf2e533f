-- ===== src/Python/Values.antt =====
-- Values of the dynamic language, as JSON makes them. A float is a decimal: `float m k` is
-- m / 10 ^ k.
use cronos_stream.Prelude.{
  ℕ, String, Bool, true, false, not, List, [], ◌∷◌, Option, none, some, ◌==◌, string_has_eq,
  if◌then◌else◌,
}
use cronos_stream.Prelude.Int.{ℤ, pos, int_has_eq}
use cronos_stream.Python.Dicts.{Dict}

mutual
  pub data Value : Type 0 where
    null : Value
    bool : Bool → Value
    int : ℤ → Value
    float : ℤ → ℕ → Value
    text : String → Value
    list : Items → Value
    dict : Fields → Value

  pub data Items : Type 0 where
    end : Items
    item : Value → Items → Items

  pub data Fields : Type 0 where
    nil : Fields
    field : String → Value → Fields → Fields

abbrev pub elements : Items → List Value
elements end = []
elements (item v vs) = v ∷ elements vs

abbrev pub items : List Value → Items
items [] = end
items (v ∷ vs) = item v (items vs)

abbrev pub entries : Fields → Dict Value
entries nil = []
entries (field k v fs) = (k, v) ∷ entries fs

abbrev pub fields : Dict Value → Fields
fields [] = nil
fields (e ∷ d) = field e.0 e.1 (fields d)

-- A dict literal and a list literal.
abbrev pub object : Dict Value → Value
object d = dict (fields d)

abbrev pub array : List Value → Value
array vs = list (items vs)

-- `bool(v)`
abbrev pub truthy : Value → Bool
truthy null = false
truthy (bool b) = b
truthy (int n) = not (n == pos 0)
truthy (float m k) = not (m == pos 0)
truthy (text s) = not (s == "")
truthy (list end) = false
truthy (list (item v vs)) = true
truthy (dict nil) = false
truthy (dict (field k v fs)) = true

-- `a or b`
abbrev pub or_value : Value → Value → Value
or_value a b = if truthy a then a else b

-- `v == "…"`
abbrev pub is_text : Value → String → Bool
is_text (text s) t = s == t
is_text _ t = false

-- `os.getenv` and other optional texts as values
abbrev pub optional_text : Option String → Value
optional_text none = null
optional_text (some s) = text s
