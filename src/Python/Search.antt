-- ===== src/Python/Search.antt =====
-- Text searches: `t in s`, `s.split(":", 1)`, `s.splitlines()` and the number of times that `t` stands
-- in `s`, for a `t` that does not overlap itself.
pub mod Lines
use cronos_stream.Prelude.{
  ℕ, suc, String, code, Bool, ◌||◌, ◌&&◌, Option, none, some, List, [], ◌∷◌, ◌==◌, nat_has_eq,
  string_has_eq, if◌then◌else◌, starts_with, leb,
}

-- `t in s`
unfoldable pub contains : String → String → Bool
contains String.[] t = t == ""
contains (String.◌∷◌ c s) t = let rest = contains s t in starts_with (String.◌∷◌ c s) t || rest

unfoldable pub occurrences : String → String → ℕ
occurrences String.[] t = 0
occurrences (String.◌∷◌ c s) t =
    let rest = occurrences s t in if starts_with (String.◌∷◌ c s) t then suc rest else rest

-- The two sides of the first colon.
unfoldable pub split_colon : String → Option (String × String)
split_colon String.[] = none
split_colon (String.◌∷◌ c s) =
    let rest = split_colon s in
    if code c == b':'
    then some ("", s)
    else elim rest [ none ↦ none | some sides ↦ some (String.◌∷◌ c sides.0, sides.1) ]

ends_line : ℕ → Bool
ends_line c = (leb 10 c && leb c 13) || (leb 28 c && leb c 30) || c == 133 || c == 8232 || c == 8233

-- A carriage return and a line feed are one end.
unfoldable pub split_lines : String → List String
unfolding ends_line
split_lines String.[] = []
split_lines (String.◌∷◌ c s) =
    let rest = split_lines s in
    if ends_line (code c)
    then (if code c == 13 && starts_with s "\n" then rest else "" ∷ rest)
    else elim rest [ [] ↦ String.◌∷◌ c "" ∷ [] | line ∷ lines ↦ String.◌∷◌ c line ∷ lines ]
