-- ===== src/Python/Number.antt =====
-- `str(n)` and `int(v)`. A text is read as `int` reads it: blanks round it, a sign, digits of any
-- script with single underscores between them. A float is cut towards zero.
pub mod RoundTrip
use cronos_stream.Prelude.{
  ℕ, zero, suc, ◌+◌, ◌-◌, ◌*◌, ◌/◌, ◌%◌, ◌^◌, String, ◌<>◌, code, Bool, true, false, ◌&&◌, ◌||◌,
  Option, none, some, List, [], ◌∷◌, map, ltb, leb, ◌==◌, nat_has_eq, if◌then◌else◌,
}
use cronos_stream.Prelude.Int.{ℤ, pos, negsuc}
use cronos_stream.Python.Values.{Value, null, bool, int, float, text, list, dict}
use cronos_stream.Python.Exceptions.{Outcome, ok, raised, exception}

abbrev pub codes : String → List ℕ
codes String.[] = []
codes (String.◌∷◌ c s) = code c ∷ codes s

unfoldable pub digit : ℕ → String
digit zero = "0"
digit (suc zero) = "1"
digit (suc (suc zero)) = "2"
digit (suc (suc (suc zero))) = "3"
digit (suc (suc (suc (suc zero)))) = "4"
digit (suc (suc (suc (suc (suc zero))))) = "5"
digit (suc (suc (suc (suc (suc (suc zero)))))) = "6"
digit (suc (suc (suc (suc (suc (suc (suc zero))))))) = "7"
digit (suc (suc (suc (suc (suc (suc (suc (suc zero)))))))) = "8"
digit _ = "9"

-- The fuel is more than the number of digits: a step divides by ten.
unfoldable pub decimal : ℕ → ℕ → String
unfolding digit
decimal zero n = ""
decimal (suc f) n = elim (ltb n 10) [
  | true ↦ digit n
  | false ↦ decimal f (n / 10) <> digit (n % 10)
]

unfoldable pub str_int : ℤ → String
unfolding decimal
str_int (pos n) = decimal (suc n) n
str_int (negsuc n) = "-" <> decimal (suc (suc n)) (suc n)

is_blank : ℕ → Bool
is_blank c = c == 32 || (leb 9 c && leb c 13)

is_digit : ℕ → Bool
is_digit c = leb b'0' c && leb c b'9'

only_blanks : List ℕ → Bool
only_blanks [] = true
only_blanks (c ∷ s) = is_blank c && only_blanks s

-- Digits behind the number `n`; the flag is set behind a digit, where an underscore may stand and
-- the number may end.
scan : List ℕ → Bool → ℕ → Option ℕ
unfolding is_digit only_blanks is_blank
scan [] after_digit n = if after_digit then some n else none
scan (c ∷ s) after_digit n =
    let next = scan s true (n * 10 + (c - b'0')) in
    let skip = scan s false n in
    if is_digit c
    then next
    else if c == b'_' && after_digit
    then skip
    else if after_digit && only_blanks (c ∷ s)
    then some n
    else none

negate : ℕ → ℤ
negate zero = pos 0
negate (suc n) = negsuc n

signed : List ℕ → Option ℤ
unfolding scan negate
signed [] = none
signed (c ∷ s) =
    if c == b'-'
    then elim (scan s false 0) [ none ↦ none | some n ↦ some (negate n) ]
    else if c == b'+'
    then elim (scan s false 0) [ none ↦ none | some n ↦ some (pos n) ]
    else elim (scan (c ∷ s) false 0) [ none ↦ none | some n ↦ some (pos n) ]

skip_blanks : List ℕ → List ℕ
skip_blanks [] = []
skip_blanks (c ∷ s) = let rest = skip_blanks s in if is_blank c then rest else c ∷ s

-- The zeros of the decimal digits of Unicode 14 that are not ASCII; nine digits follow each.
abbrev zeros : List ℕ
zeros =
    1632 ∷ 1776 ∷ 1984 ∷ 2406 ∷ 2534 ∷ 2662 ∷ 2790 ∷ 2918 ∷ 3046 ∷ 3174 ∷ 3302 ∷ 3430 ∷ 3558 ∷ 3664
    ∷ 3792 ∷ 3872 ∷ 4160 ∷ 4240 ∷ 6112 ∷ 6160 ∷ 6470 ∷ 6608 ∷ 6784 ∷ 6800 ∷ 6992 ∷ 7088 ∷ 7232
    ∷ 7248 ∷ 42528 ∷ 43216 ∷ 43264 ∷ 43472 ∷ 43504 ∷ 43600 ∷ 44016 ∷ 65296 ∷ 66720 ∷ 68912 ∷ 69734
    ∷ 69872 ∷ 69942 ∷ 70096 ∷ 70384 ∷ 70736 ∷ 70864 ∷ 71248 ∷ 71360 ∷ 71472 ∷ 71904 ∷ 72016 ∷ 72784
    ∷ 73040 ∷ 73120 ∷ 92768 ∷ 92864 ∷ 93008 ∷ 120782 ∷ 120792 ∷ 120802 ∷ 120812 ∷ 120822 ∷ 123200
    ∷ 123632 ∷ 125264 ∷ 130032 ∷ []

digit_from : List ℕ → ℕ → ℕ
digit_from [] c = c
digit_from (z ∷ zs) c =
    let rest = digit_from zs c in if leb z c && ltb c (z + 10) then 48 + (c - z) else rest

-- White space beyond ASCII.
is_wide_blank : ℕ → Bool
is_wide_blank c =
    c == 133
    || c == 160
    || c == 5760
    || (leb 8192 c && leb c 8202)
    || c == 8232
    || c == 8233
    || c == 8239
    || c == 8287
    || c == 12288

-- A text is first written in ASCII: its digits and its white space.
to_ascii : ℕ → ℕ
unfolding digit_from is_wide_blank
to_ascii c = if ltb c 128 then c else if is_wide_blank c then 32 else digit_from zeros c

unfoldable pub parse_int : String → Option ℤ
unfolding signed skip_blanks is_blank to_ascii
parse_int s = signed (skip_blanks (map to_ascii (codes s)))

truncate : ℤ → ℕ → ℤ
unfolding negate
truncate (pos n) k = pos (n / 10 ^ k)
truncate (negsuc n) k = negate (suc n / 10 ^ k)

-- `int(v)`
unfoldable pub to_int : Value → Outcome ℤ
unfolding parse_int truncate
to_int null = raised (exception "TypeError")
to_int (bool true) = ok (pos 1)
to_int (bool false) = ok (pos 0)
to_int (int n) = ok n
to_int (float m k) = ok (truncate m k)
to_int (text s) = elim (parse_int s) [ none ↦ raised (exception "ValueError") | some n ↦ ok n ]
to_int (list vs) = raised (exception "TypeError")
to_int (dict fs) = raised (exception "TypeError")
