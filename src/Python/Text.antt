-- ===== src/Python/Text.antt =====
-- Text methods: `rstrip("/")`, `strip()`, and the text of a value in an f-string.
use cronos_stream.Prelude.{
  ℕ, zero, suc, ◌-◌, String, Char, code, Bool, true, false, ◌&&◌, ◌||◌, leb, ◌==◌, nat_has_eq,
  string_has_eq, if◌then◌else◌,
}
use cronos_stream.Python.Values.{Value, null, bool, int, float, text, list, dict}
use cronos_stream.Python.Number.{str_int}

-- `s.rstrip("/")`
unfoldable pub rstrip_slash : String → String
rstrip_slash String.[] = ""
rstrip_slash (String.◌∷◌ c s) =
    let rest = rstrip_slash s in if rest == "" && code c == b'/' then "" else String.◌∷◌ c rest

blank : ℕ → Bool
blank c = c == 32 || (leb 9 c && leb c 13) || (leb 28 c && leb c 31) || c == 133 || c == 160

lstrip : String → String
unfolding blank
lstrip String.[] = ""
lstrip (String.◌∷◌ c s) = let rest = lstrip s in if blank (code c) then rest else String.◌∷◌ c s

rstrip : String → String
unfolding blank
rstrip String.[] = ""
rstrip (String.◌∷◌ c s) =
    let rest = rstrip s in if rest == "" && blank (code c) then "" else String.◌∷◌ c rest

-- `s.strip()`
unfoldable pub strip : String → String
unfolding lstrip rstrip
strip s = rstrip (lstrip s)

-- `str(v)`. The text of a float, a list or a dict is the parameter `repr`.
unfoldable pub str_value : (Value → String) → Value → String
str_value repr null = "None"
str_value repr (bool true) = "True"
str_value repr (bool false) = "False"
str_value repr (int n) = str_int n
str_value repr (float m k) = repr (float m k)
str_value repr (text s) = s
str_value repr (list vs) = repr (list vs)
str_value repr (dict fs) = repr (dict fs)

letter_at : String → ℕ → Char → Char
letter_at String.[] k c = c
letter_at (String.◌∷◌ d s) zero c = d
letter_at (String.◌∷◌ d s) (suc k) c = letter_at s k c

lower_char : Char → Char
unfolding letter_at
lower_char c =
    if leb b'A' (code c) && leb (code c) b'Z'
    then letter_at "abcdefghijklmnopqrstuvwxyz" (code c - b'A') c
    else c

-- `s.lower()`, for ASCII letters.
unfoldable pub lower : String → String
unfolding lower_char
lower String.[] = ""
lower (String.◌∷◌ c s) = String.◌∷◌ (lower_char c) (lower s)
