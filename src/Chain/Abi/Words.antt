-- ===== src/Chain/Abi/Words.antt =====
-- The elementary values of chain/abi.go: the integers, bytesN, bytes and string.
use Prim.Native.String.{String}
use teenet_wallet.Base.{
  ℕ, zero, suc, ℤ, pos, negsuc, ◌-◌, ◌/◌, ◌%◌, ◌^◌, Bool, ◌&&◌, Option, none, some, List, [], ◌∷◌,
  ◌++◌, length, replicate, if◌then◌else◌, ◌==◌, nat_eq, leb, ltb,
}
use teenet_wallet.Chain.Abi.Outcome.{AbiResult, ok, refused, ◌>>=◌, ◌>>◌, demand, required_value}
use teenet_wallet.Chain.Abi.Texts.{
  Text, codes, after_prefix, without_prefix, set_string, natural, decode_hex,
}

-- What an argument can be: the types of Go that the code tells apart. A float64 is known by the integer
-- that it is, if it is one; it comes from JSON and is a number.
mutual
  pub data Arg : Type 0 where
    text : Text → Arg
    truth : Bool → Arg
    big int : ℤ → Arg
    float : Option ℤ → Arg
    json_number : Text → Arg
    raw : List ℕ → Arg
    items : Args → Arg
    other : Arg

  pub data Args : Type 0 where
    nil : Args
    cons : Arg → Args → Args

-- The lowest `k` bytes, the highest first.
unfoldable pub be_bytes : ℕ → ℕ → List ℕ
be_bytes zero n = []
be_bytes (suc k) n = be_bytes k (n / 256) ++ (n % 256) ∷ []

-- `word[32-len(b):]` filled with the bytes of a number below 2 ^ 256.
unfoldable pub word : ℕ → List ℕ
unfolding be_bytes
word n = be_bytes 32 n

-- A text of which nothing or a prefix `0x` says that it is hexadecimal.
abbrev pub hex_part : Text → Option Text
hex_part s = elim (after_prefix (codes "0x") s) [
  | some rest ↦ some rest
  | none ↦ after_prefix (codes "0X") s
]

unfoldable pub to_big_int : Arg → Option ℤ
to_big_int (big i) = some i
to_big_int (text s) = elim (hex_part s) [ some rest ↦ set_string 16 rest | none ↦ set_string 10 s ]
to_big_int (float i) = i
to_big_int (int i) = some i
to_big_int (json_number s) = set_string 10 s
to_big_int (truth b) = none
to_big_int (raw bytes) = none
to_big_int (items args) = none
to_big_int other = none

abbrev pub unsigned : ℕ → ℤ → AbiResult (List ℕ)
unsigned bits (negsuc n) = refused
unsigned bits (pos n) = if ltb n (2 ^ bits) then ok (word n) else refused

unfoldable pub encode_uint : ℕ → Arg → AbiResult (List ℕ)
unfolding to_big_int
encode_uint bits arg = required_value (to_big_int arg) >>= unsigned bits

abbrev pub fits_int : ℕ → ℤ → Bool
fits_int bits (pos n) = ltb n (2 ^ (bits - 1))
fits_int bits (negsuc n) = ltb n (2 ^ (bits - 1))

-- Two's complement.
abbrev pub complement : ℤ → ℕ
complement (pos n) = n
complement (negsuc n) = 2 ^ 256 - suc n

unfoldable pub encode_int256 : ℤ → AbiResult (List ℕ)
encode_int256 v = if fits_int 256 v then ok (word (complement v)) else refused

unfoldable pub encode_int_n : ℕ → Arg → AbiResult (List ℕ)
unfolding to_big_int encode_int256
encode_int_n bits arg =
    required_value (to_big_int arg) >>= λ v. demand (fits_int bits v) >> encode_int256 v

-- A list of bytes, on the left of a word.
abbrev pub left_aligned : List ℕ → List ℕ
left_aligned bytes = bytes ++ replicate (32 - length bytes) 0

unfoldable pub encode_bytes_n : ℕ → Arg → AbiResult (List ℕ)
encode_bytes_n n (text s) = required_value (decode_hex (without_prefix (codes "0x") s)) >>= λ bytes.
    demand (leb (length bytes) n) >> ok (left_aligned bytes)
encode_bytes_n n _ = refused

abbrev pub payload : Arg → Option (List ℕ)
payload (text s) = elim (after_prefix (codes "0x") s) [
  | some rest ↦ decode_hex rest
  | none ↦ some s
]
payload (raw bytes) = some bytes
payload _ = none

-- Zeros up to a multiple of 32 bytes.
abbrev pub padded : List ℕ → List ℕ
padded bytes =
    if length bytes % 32 == 0 then bytes else bytes ++ replicate (32 - length bytes % 32) 0

unfoldable pub encode_dynamic_bytes : Arg → AbiResult (List ℕ)
encode_dynamic_bytes arg =
    required_value (payload arg) >>= λ bytes. ok (word (length bytes) ++ padded bytes)

-- A number behind a prefix, as the regular expressions `^uint(\d+)$` and their like read it. `Atoi` stops
-- at the largest int, and no size above 256 is accepted in any case.
abbrev pub numbered : String → Text → Option ℕ
numbered prefix typ = elim (after_prefix (codes prefix) typ) [
  | none ↦ none
  | some rest ↦ natural 10 rest
]

abbrev pub is_integer_size : ℕ → Bool
is_integer_size bits = ltb 0 bits && (leb bits 256 && (bits % 8 == 0))
