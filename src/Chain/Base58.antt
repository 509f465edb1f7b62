-- ===== src/Chain/Base58.antt =====
-- base58Decode of chain/address.go. A byte is a number below 256; the bytes of a big integer are
-- math/big's, an argument.
use Prim.Native.Char.{code}
use Prim.Native.String.{String}
use teenet_wallet.Base.{
  ℕ, ◌+◌, ◌*◌, suc, Option, none, some, List, ◌++◌, if◌then◌else◌, ◌==◌, nat_eq, replicate,
}

abbrev pub base58_alphabet : String
base58_alphabet = "123456789ABCDEFGHJKLMNPQRSTUVWXYZabcdefghijkmnopqrstuvwxyz"

-- The position of a character in a text, counted from `i`.
abbrev pub index_from : ℕ → ℕ → String → Option ℕ
index_from i c String.[] = none
index_from i c (String.◌∷◌ d s) = if code d == c then some i else index_from (i + 1) c s

abbrev pub reverse_base58 : ℕ → Option ℕ
reverse_base58 c = index_from 0 c base58_alphabet

-- The loop that multiplies and adds.
abbrev pub accumulate : ℕ → String → Option ℕ
accumulate n String.[] = some n
accumulate n (String.◌∷◌ d s) = elim (reverse_base58 (code d)) [
  | none ↦ none
  | some val ↦ accumulate (n * 58 + val) s
]

abbrev pub leading_ones : String → ℕ
leading_ones String.[] = 0
leading_ones (String.◌∷◌ d s) = if code d == b'1' then suc (leading_ones s) else 0

unfoldable pub base58_decode : (ℕ → List ℕ) → String → Option (List ℕ)
base58_decode bytes s = elim (accumulate 0 s) [
  | none ↦ none
  | some n ↦ some (replicate (leading_ones s) 0 ++ bytes n)
]
