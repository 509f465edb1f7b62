-- ===== src/Chain/SolMessage/Examples.antt =====
-- Examples for chain/tx_sol.go: a transfer between accounts whose bytes are zero.
use Prim.Native.String.{String}
use teenet_wallet.Base.{
  ℕ, ◌≡◌, refl, ◌<◌, some, List, [], ◌∷◌, ◌++◌, if◌then◌else◌, ◌==◌, nat_eq, replicate, take, drop,
  arith, All,
}
use teenet_wallet.Chain.Base58.{base58_decode}
use teenet_wallet.Chain.CompactU16.{compact_u16, read_compact, read-compact_u16}
use teenet_wallet.Chain.SolMessage.{build_sol_message, instr_data}
use teenet_wallet.Chain.SolMessage.Reading.{
  read_message, transfer, le_value, read-build_sol_message,
}

-- The bytes of small numbers.
abbrev small_bytes : ℕ → List ℕ
small_bytes n = if n == 0 then [] else n ∷ []

abbrev zero_account : String
zero_account = "11111111111111111111111111111111"

abbrev zeros : List ℕ
zeros = replicate 32 0

decode-zero_account : base58_decode small_bytes zero_account ≡ some zeros
unfolding base58_decode
decode-zero_account = refl

decode-one : base58_decode small_bytes "12" ≡ some (0 ∷ 1 ∷ [])
unfolding base58_decode
decode-one = refl

read-build_sol_message_example :
    (msg : List ℕ) × (build_sol_message small_bytes zero_account zero_account zero_account 1000
      ≡ some msg)
    × (read_message msg ≡ some (transfer zeros zeros zeros 1000))
    × (le_value (take 4 (instr_data 1000)) ≡ 2)
    × (le_value (drop 4 (instr_data 1000)) ≡ 1000)
read-build_sol_message_example =
    read-build_sol_message small_bytes zero_account zero_account zero_account zeros zeros zeros 1000
      decode-zero_account decode-zero_account decode-zero_account refl refl refl (omega arith)

read-compact_u16_example :
    (bs : List ℕ) × (compact_u16 16384 ≡ some bs)
    × All (λ b. b < 256) bs
    × (read_compact (bs ++ 7 ∷ []) ≡ some (16384, 7 ∷ []))
read-compact_u16_example = read-compact_u16 16384 (7 ∷ []) (omega arith)
