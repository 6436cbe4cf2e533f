-- ===== src/Python/Search/Lines.antt =====
-- `splitlines()` of printed lines, and searches behind a known beginning.
use text.Mathlib.TextLemmas.{nil-append, cons-append}
use text.Mathlib.TextPositions.{starts_with-append}
use cronos_stream.Prelude.{
  String, Char, ◌<>◌, code, ◌≡◌, refl, sym, ap, ◌∙◌, Bool, true, false, ◌||◌, none, some, List, [],
  ◌∷◌, ◌++◌, arith, ◌==◌, nat_has_eq, string_has_eq, starts_with,
}
use cronos_stream.Python.Search.{contains, split_colon, split_lines, ends_line}

-- A line's end stands in the text.
unfoldable pub has_break : String → Bool
unfolding ends_line
has_break String.[] = false
has_break (String.◌∷◌ c s) = ends_line (code c) || has_break s

-- What a list of lines is printed as.
unfoldable pub printed : List String → String
printed [] = ""
printed (line ∷ lines) = line <> ("\n" <> printed lines)

unbroken :
    (c : Char) (s : String)
    → has_break (String.◌∷◌ c s) ≡ false
    → (ends_line (code c) ≡ false) × (has_break s ≡ false)
unfolding has_break
unbroken c s h = ground arith

break-append : (rest : String) → "\n" <> rest ≡ String.◌∷◌ "\n" rest
break-append rest = cons-append "\n" "" rest ∙ ap (λ t. String.◌∷◌ "\n" t) (nil-append rest)

pub split_lines-line :
    (line rest : String)
    → has_break line ≡ false
    → split_lines (line <> ("\n" <> rest)) ≡ line ∷ split_lines rest
unfolding has_break split_lines
split_lines-line String.[] rest h = rw (nil-append ("\n" <> rest)) (rw (break-append rest) refl)
split_lines-line (String.◌∷◌ c line) rest h =
    let (one, others) = unbroken c line h in
    rw (cons-append c line ("\n" <> rest)) (rw one (rw (split_lines-line line rest others) refl))

-- No line has a line's end in it.
abbrev pub AllWhole : List String → Type 0
AllWhole [] = Unit
AllWhole (line ∷ lines) = (has_break line ≡ false) × AllWhole lines

pub split_lines-printed :
    (lines later : List String)
    → AllWhole lines
    → split_lines (printed (lines ++ later)) ≡ lines ++ split_lines (printed later)
unfolding printed
split_lines-printed [] later h = refl
split_lines-printed (line ∷ lines) later h =
    split_lines-line line (printed (lines ++ later)) h.0
    ∙ ap (λ l. line ∷ l) (split_lines-printed lines later h.1)

pub contains-prefix :
    (c : Char) (t x : String) → contains (String.◌∷◌ c t <> x) (String.◌∷◌ c t) ≡ true
unfolding contains
contains-prefix c t x =
    let found : starts_with (String.◌∷◌ c (t <> x)) (String.◌∷◌ c t) ≡ true =
      ap (λ s. starts_with s (String.◌∷◌ c t)) (sym (cons-append c t x))
      ∙ starts_with-append (String.◌∷◌ c t) x in
    rw (cons-append c t x) (rw found refl)

-- The sides of the first colon, where the text before it has none.
unfoldable pub has_colon : String → Bool
has_colon String.[] = false
has_colon (String.◌∷◌ c s) = code c == b':' || has_colon s

pub has_colon-append : (s t : String) → has_colon (s <> t) ≡ has_colon s || has_colon t
unfolding has_colon
has_colon-append String.[] t = rw (nil-append t) refl
has_colon-append (String.◌∷◌ c s) t = rw (cons-append c s t) (ground (arith, has_colon-append s t))

pub has_break-append : (s t : String) → has_break (s <> t) ≡ has_break s || has_break t
unfolding has_break
has_break-append String.[] t = rw (nil-append t) refl
has_break-append (String.◌∷◌ c s) t = rw (cons-append c s t) (ground (arith, has_break-append s t))

pub split_colon-eq-none : (s : String) → has_colon s ≡ false → split_colon s ≡ none
unfolding has_colon split_colon
split_colon-eq-none String.[] h = refl
split_colon-eq-none (String.◌∷◌ c s) h = ground (arith, split_colon-eq-none s (ground arith))

pub split_colon-append :
    (s t : String) → has_colon s ≡ false → split_colon (s <> String.◌∷◌ ":" t) ≡ some (s, t)
unfolding has_colon split_colon
split_colon-append String.[] t h = rw (nil-append (String.◌∷◌ ":" t)) refl
split_colon-append (String.◌∷◌ c s) t h =
    rw (cons-append c s (String.◌∷◌ ":" t)) (ground (arith, split_colon-append s t (ground arith)))
