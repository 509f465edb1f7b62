-- ===== src/Chain/Abi/Texts.antt =====
-- What chain/abi.go uses of strings, strconv, encoding/hex and math/big, over lists of bytes.
use Prim.Native.Char.{code}
use Prim.Native.String.{String}
use mathlib.Core.List.{reverse}
use teenet_wallet.Base.{
  ℕ, ℤ, pos, negsuc, ◌+◌, ◌-◌, ◌*◌, ◌^◌, Bool, true, false, ◌&&◌, Option, none, some, List, [], ◌∷◌,
  if◌then◌else◌, ◌==◌, nat_eq, leb, ltb,
}

abbrev pub Text : Type 0
Text = List ℕ

abbrev pub codes : String → Text
codes String.[] = []
codes (String.◌∷◌ c s) = code c ∷ codes s

abbrev pub same_text : Text → Text → Bool
same_text [] [] = true
same_text [] (b ∷ s) = false
same_text (a ∷ s) [] = false
same_text (a ∷ s) (b ∷ t) = (a == b) && same_text s t

-- What follows a prefix.
abbrev pub after_prefix : Text → Text → Option Text
after_prefix [] s = some s
after_prefix (a ∷ p) [] = none
after_prefix (a ∷ p) (b ∷ s) = if a == b then after_prefix p s else none

abbrev pub without_prefix : Text → Text → Text
without_prefix p s = elim (after_prefix p s) [ none ↦ s | some rest ↦ rest ]

-- What stands before_suffix a suffix.
abbrev pub before_suffix : Text → Text → Option Text
before_suffix suffix s = elim (after_prefix (reverse suffix) (reverse s)) [
  | none ↦ none
  | some rest ↦ some (reverse rest)
]

-- What stands before_suffix the first occurrence of a byte and after_prefix it.
abbrev pub cut : ℕ → Text → Option (Text × Text)
cut c [] = none
cut c (b ∷ s) =
    if b == c
    then some ([], s)
    else elim (cut c s) [ none ↦ none | some (front, back) ↦ some (b ∷ front, back) ]

abbrev pub drop_last : Text → Text
drop_last [] = []
drop_last (a ∷ []) = []
drop_last (a ∷ (b ∷ s)) = a ∷ drop_last (b ∷ s)

abbrev pub is_digit : ℕ → Bool
is_digit c = leb b'0' c && leb c b'9'

-- The longest prefix of decimal digits, and what follows it.
abbrev pub span_digits : Text → Text × Text
span_digits [] = ([], [])
span_digits (c ∷ s) =
    let rest = span_digits s in if is_digit c then (c ∷ rest.0, rest.1) else ([], c ∷ s)

-- The value of a digit in any base up to 36, and 36 for any other byte.
abbrev pub digit_value : ℕ → ℕ
digit_value c =
    if is_digit c
    then c - b'0'
    else if leb b'a' c && leb c b'z'
    then c - b'a' + 10
    else if leb b'A' c && leb c b'Z'
    then c - b'A' + 10
    else 36

abbrev pub digits_from : ℕ → ℕ → Text → Option ℕ
digits_from base n [] = some n
digits_from base n (c ∷ s) =
    let rest = digits_from base (n * base + digit_value c) s in
    if ltb (digit_value c) base then rest else none

abbrev pub natural : ℕ → Text → Option ℕ
natural base [] = none
natural base (c ∷ s) = digits_from base 0 (c ∷ s)

abbrev pub negated : ℕ → ℤ
negated n = if n == 0 then pos 0 else negsuc (n - 1)

-- `SetString` of math/big: a sign if any, and at least one digit.
abbrev pub set_string : ℕ → Text → Option ℤ
set_string base [] = none
set_string base (c ∷ s) =
    if c == b'-'
    then elim (natural base s) [ none ↦ none | some n ↦ some (negated n) ]
    else elim (natural base (if c == b'+' then s else c ∷ s)) [
      | none ↦ none
      | some n ↦ some (pos n)
    ]

-- `strconv.Atoi`, where the code goes on only with a positive number.
abbrev pub positive_int : Text → Option ℕ
positive_int s = elim (set_string 10 s) [
  | none ↦ none
  | some (negsuc n) ↦ none
  | some (pos n) ↦ if ltb 0 n && ltb n (2 ^ 63) then some n else none
]

-- `hex.DecodeString`
abbrev pub decode_hex : Text → Option Text
decode_hex [] = some []
decode_hex (a ∷ []) = none
decode_hex (a ∷ (b ∷ s)) =
    let rest = decode_hex s in
    if ltb (digit_value a) 16 && ltb (digit_value b) 16
    then elim rest [ none ↦ none | some t ↦ some ((digit_value a * 16 + digit_value b) ∷ t) ]
    else none
