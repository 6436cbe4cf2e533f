-- ===== src/Python/Number/RoundTrip.antt =====
-- `int` of the text of a number.
use package.text.Mathlib.TextLemmas.{nil-append, cons-append}
use cronos_stream.Prelude.{
  ℕ, zero, suc, ◌+◌, ◌*◌, ◌/◌, ◌%◌, ◌≤◌, ◌<◌, String, ◌<>◌, code, ◌≡◌, refl, ap, ◌∙◌, Bool, true,
  false, some, List, [], ◌∷◌, ◌++◌, map, arith, ltb, Bool-cases, inl, inr,
}
use cronos_stream.Prelude.Int.{ℤ, pos, negsuc}
use mathlib.Core.List.{append-nil, append_assoc}
use cronos_stream.Python.Number.{
  codes, digit, decimal, str_int, is_blank, scan, signed, skip_blanks, to_ascii, parse_int, negate,
  to_int,
}
use cronos_stream.Python.Values.{text}
use cronos_stream.Python.Exceptions.{ok}

codes-append : (s t : String) → codes (s <> t) ≡ codes s ++ codes t
codes-append String.[] t = ap codes (nil-append t)
codes-append (String.◌∷◌ c s) t =
    ap codes (cons-append c s t) ∙ ap (λ l. code c ∷ l) (codes-append s t)

-- One digit is read behind the number `acc`.
scan-digit :
    (n : ℕ) (s : List ℕ) (b : Bool) (acc : ℕ)
    → n < 10
    → scan (codes (digit n) ++ s) b acc ≡ scan s true (acc * 10 + n)
unfolding digit scan
scan-digit zero s b acc h = refl
scan-digit (suc zero) s b acc h = refl
scan-digit (suc (suc zero)) s b acc h = refl
scan-digit (suc (suc (suc zero))) s b acc h = refl
scan-digit (suc (suc (suc (suc zero)))) s b acc h = refl
scan-digit (suc (suc (suc (suc (suc zero))))) s b acc h = refl
scan-digit (suc (suc (suc (suc (suc (suc zero)))))) s b acc h = refl
scan-digit (suc (suc (suc (suc (suc (suc (suc zero))))))) s b acc h = refl
scan-digit (suc (suc (suc (suc (suc (suc (suc (suc zero)))))))) s b acc h = refl
scan-digit (suc (suc (suc (suc (suc (suc (suc (suc (suc zero))))))))) s b acc h = refl
scan-digit (suc (suc (suc (suc (suc (suc (suc (suc (suc (suc n)))))))))) s b acc h =
    absurd (omega arith)

decimal_small : (f n : ℕ) → ltb n 10 ≡ true → decimal (suc f) n ≡ digit n
unfolding decimal
decimal_small f n h = ground arith

decimal_large :
    (f n : ℕ) → ltb n 10 ≡ false → decimal (suc f) n ≡ decimal f (n / 10) <> digit (n % 10)
unfolding decimal
decimal_large f n h = ground arith

codes-decimal :
    (f n : ℕ) (s : List ℕ)
    → ltb n 10 ≡ false
    → codes (decimal (suc f) n) ++ s ≡ codes (decimal f (n / 10)) ++ (codes (digit (n % 10)) ++ s)
codes-decimal f n s h =
    ap (λ t. codes t ++ s) (decimal_large f n h)
    ∙ ap (λ l. l ++ s) (codes-append (decimal f (n / 10)) (digit (n % 10)))
    ∙ append_assoc (codes (decimal f (n / 10))) (codes (digit (n % 10))) s

-- The digits of `n` are read as `n`.
scan-decimal :
    (f n : ℕ) (s : List ℕ) (b : Bool) → n < f → scan (codes (decimal f n) ++ s) b 0 ≡ scan s true n
scan-decimal zero n s b h = absurd (omega arith)
scan-decimal (suc f) n s b h = elim (Bool-cases (ltb n 10)) [
  | inl small ↦
      ap (λ t. scan (codes t ++ s) b 0) (decimal_small f n small)
      ∙ scan-digit n s b 0 (ground arith)
      ∙ ap (scan s true) (omega arith)
  | inr large ↦
      ap (λ l. scan l b 0) (codes-decimal f n s large)
      ∙ scan-decimal f (n / 10) (codes (digit (n % 10)) ++ s) b (ground arith)
      ∙ scan-digit (n % 10) s true (n / 10) (omega arith)
      ∙ ap (scan s true) (omega arith)
]

-- A text of digits begins with one.
abbrev StartsWithDigit : List ℕ → Type 0
StartsWithDigit [] = ⊥
StartsWithDigit (c ∷ s) = (48 ≤ c) × (c ≤ 57)

digit-StartsWithDigit : (n : ℕ) (s : List ℕ) → StartsWithDigit (codes (digit n) ++ s)
unfolding digit
digit-StartsWithDigit zero s = omega arith
digit-StartsWithDigit (suc zero) s = omega arith
digit-StartsWithDigit (suc (suc zero)) s = omega arith
digit-StartsWithDigit (suc (suc (suc zero))) s = omega arith
digit-StartsWithDigit (suc (suc (suc (suc zero)))) s = omega arith
digit-StartsWithDigit (suc (suc (suc (suc (suc zero))))) s = omega arith
digit-StartsWithDigit (suc (suc (suc (suc (suc (suc zero)))))) s = omega arith
digit-StartsWithDigit (suc (suc (suc (suc (suc (suc (suc zero))))))) s = omega arith
digit-StartsWithDigit (suc (suc (suc (suc (suc (suc (suc (suc zero)))))))) s = omega arith
digit-StartsWithDigit (suc (suc (suc (suc (suc (suc (suc (suc (suc n))))))))) s = omega arith

decimal-StartsWithDigit :
    (f n : ℕ) (s : List ℕ) → n < f → StartsWithDigit (codes (decimal f n) ++ s)
decimal-StartsWithDigit zero n s h = absurd (omega arith)
decimal-StartsWithDigit (suc f) n s h = elim (Bool-cases (ltb n 10)) [
  | inl small ↦ rw (decimal_small f n small) (digit-StartsWithDigit n s)
  | inr large ↦
      rw (codes-decimal f n s large)
        (decimal-StartsWithDigit f (n / 10) (codes (digit (n % 10)) ++ s) (ground arith))
]

-- Written in ASCII, a text of digits stays as it is.
to_ascii-small : (c : ℕ) → c < 128 → to_ascii c ≡ c
unfolding to_ascii
to_ascii-small c h = ground arith

abbrev IsAscii : List ℕ → Type 0
IsAscii [] = Unit
IsAscii (c ∷ s) = (c < 128) × IsAscii s

map-to_ascii : (s : List ℕ) → IsAscii s → map to_ascii s ≡ s
map-to_ascii [] h = refl
map-to_ascii (c ∷ s) h = rw (to_ascii-small c h.0, map-to_ascii s h.1) refl

append-IsAscii : (s t : List ℕ) → IsAscii s → IsAscii t → IsAscii (s ++ t)
append-IsAscii [] t h k = k
append-IsAscii (c ∷ s) t h k = (h.0, append-IsAscii s t h.1 k)

digit-IsAscii : (n : ℕ) → IsAscii (codes (digit n))
unfolding digit
digit-IsAscii zero = (omega arith, tt)
digit-IsAscii (suc zero) = (omega arith, tt)
digit-IsAscii (suc (suc zero)) = (omega arith, tt)
digit-IsAscii (suc (suc (suc zero))) = (omega arith, tt)
digit-IsAscii (suc (suc (suc (suc zero)))) = (omega arith, tt)
digit-IsAscii (suc (suc (suc (suc (suc zero))))) = (omega arith, tt)
digit-IsAscii (suc (suc (suc (suc (suc (suc zero)))))) = (omega arith, tt)
digit-IsAscii (suc (suc (suc (suc (suc (suc (suc zero))))))) = (omega arith, tt)
digit-IsAscii (suc (suc (suc (suc (suc (suc (suc (suc zero)))))))) = (omega arith, tt)
digit-IsAscii (suc (suc (suc (suc (suc (suc (suc (suc (suc n))))))))) = (omega arith, tt)

decimal-IsAscii : (f n : ℕ) → n < f → IsAscii (codes (decimal f n))
decimal-IsAscii zero n h = absurd (omega arith)
decimal-IsAscii (suc f) n h = elim (Bool-cases (ltb n 10)) [
  | inl small ↦ rw (decimal_small f n small) (digit-IsAscii n)
  | inr large ↦
      rw (decimal_large f n large, codes-append (decimal f (n / 10)) (digit (n % 10)))
        (append-IsAscii (codes (decimal f (n / 10))) (codes (digit (n % 10)))
          (decimal-IsAscii f (n / 10) (ground arith)) (digit-IsAscii (n % 10)))
]

-- What begins with a digit has no sign and no blank in front.
signed_digits :
    (s : List ℕ) {n : ℕ}
    → StartsWithDigit s
    → scan s false 0 ≡ some n
    → signed (skip_blanks s) ≡ some (pos n)
unfolding signed skip_blanks is_blank
signed_digits [] h e = absurd h
signed_digits (c ∷ s) h e = ground arith

scan_all : (f n : ℕ) → n < f → scan (codes (decimal f n)) false 0 ≡ some n
unfolding scan
scan_all f n h = rw append-nil at (scan-decimal f n [] false h)

parse_decimal : (f n : ℕ) → n < f → parse_int (decimal f n) ≡ some (pos n)
unfolding parse_int
parse_decimal f n h = rw (map-to_ascii (codes (decimal f n)) (decimal-IsAscii f n h)) (
    signed_digits (codes (decimal f n)) (rw append-nil at (decimal-StartsWithDigit f n [] h))
      (scan_all f n h))

signed_minus :
    (s : List ℕ) {n : ℕ}
    → scan s false 0 ≡ some (suc n)
    → signed (skip_blanks (b'-' ∷ s)) ≡ some (negsuc n)
unfolding signed skip_blanks is_blank negate
signed_minus s e = ground arith

-- `int(str(n))` is `n`, for every integer.
pub parse_int-str_int : (n : ℤ) → parse_int (str_int n) ≡ some n
unfolding str_int
parse_int-str_int (pos n) = parse_decimal (suc n) n (omega arith)
parse_int-str_int (negsuc n) =
    unfold parse_int in
    let d = decimal (suc (suc n)) (suc n) in
    let written : map to_ascii (codes ("-" <> d)) ≡ b'-' ∷ codes d =
      ap (map to_ascii) (codes-append "-" d)
      ∙ map-to_ascii (b'-' ∷ codes d)
          (omega arith, decimal-IsAscii (suc (suc n)) (suc n) (omega arith)) in
    rw written (signed_minus (codes d) (scan_all (suc (suc n)) (suc n) (omega arith)))

pub to_int-str_int : (n : ℤ) → to_int (text (str_int n)) ≡ ok n
unfolding to_int
to_int-str_int n = rw (parse_int-str_int n, to_int)
