-- ===== src/Chain/SolProgram/Examples.antt =====
-- Examples for the program calls of chain/tx_sol.go: two accounts beside the payer, one given twice.
use Prim.Native.String.{String}
use teenet_wallet.Base.{
  ℕ, ◌≡◌, refl, true, false, Option, some, none, List, [], ◌∷◌, map, if◌then◌else◌, ◌==◌, nat_eq,
  string_eq, take, arith, All,
}
use teenet_wallet.Chain.Base58.{base58_decode}
use teenet_wallet.Chain.CompactU16.{compact_u16}
use teenet_wallet.Chain.SolMessage.Reading.{Message, Instruction, read_message}
use teenet_wallet.Chain.SolProgram.{
  AccountMeta, decoded, is_key, sort, write_message, build_sol_program_call_message,
}
use teenet_wallet.Chain.SolProgram.Acceptance.{build_sol_program_call_message-Decodes}
use teenet_wallet.Chain.SolProgram.Bounds.{Decodes}
use teenet_wallet.Chain.SolProgram.Giving.{Gives, GivesFrom, GivesEach}
use teenet_wallet.Chain.SolProgram.Keys.{Listed}
use teenet_wallet.Chain.SolProgram.Privileges.{read-build_sol_program_call_message}

-- The bytes of small numbers.
abbrev small_bytes : ℕ → List ℕ
small_bytes n = if n == 0 then [] else n ∷ []

abbrev zero_key : String
zero_key = "11111111111111111111111111111111"

abbrev one_key : String
one_key = "11111111111111111111111111111112"

abbrev two_key : String
two_key = "11111111111111111111111111111113"

abbrev three_key : String
three_key = "11111111111111111111111111111114"

-- The second key is readonly at first and writable where it is given again.
abbrev accounts : List AccountMeta
accounts =
    record { pubkey = two_key; is_signer = false; is_writable = false }
    ∷ record { pubkey = one_key; is_signer = true; is_writable = false }
    ∷ record { pubkey = two_key; is_signer = false; is_writable = true }
    ∷ []

zero_key-is_key : is_key small_bytes zero_key ≡ true
unfolding base58_decode
zero_key-is_key = refl

three_key-is_key : is_key small_bytes three_key ≡ true
unfolding base58_decode
three_key-is_key = refl

accounts-Decodes : All (Decodes small_bytes) accounts
unfolding base58_decode
accounts-Decodes = (refl, (refl, (refl, tt)))

abbrev call : Option (List ℕ)
call = build_sol_program_call_message small_bytes zero_key three_key accounts (9 ∷ []) zero_key

-- Two signers, of which one is readonly, the program as a readonly account that does not sign, and
-- four keys.
abbrev header : Option (List ℕ) → List ℕ
header none = []
header (some msg) = take 4 msg

header-call : header call ≡ 2 ∷ 1 ∷ 1 ∷ 4 ∷ []
unfolding build_sol_program_call_message base58_decode write_message sort compact_u16
header-call = refl

read-build_sol_program_call_message_example :
    (msg : List ℕ) × (m : Message) × (i : Instruction) × (others : List String) × (call ≡ some msg)
    × (read_message msg ≡ some m)
    × (m.blockhash ≡ decoded small_bytes zero_key)
    × (m.keys ≡ map (decoded small_bytes) (zero_key ∷ others))
    × GivesFrom small_bytes zero_key accounts m (zero_key ∷ others) 0
    × All (Listed zero_key three_key accounts) (zero_key ∷ others)
    × (m.instructions ≡ i ∷ [])
    × (i.payload ≡ 9 ∷ [])
    × Gives small_bytes zero_key accounts m three_key i.program_index
    × GivesEach small_bytes zero_key accounts m accounts i.accounts
read-build_sol_program_call_message_example =
    read-build_sol_program_call_message small_bytes zero_key three_key accounts (9 ∷ []) zero_key
      zero_key-is_key three_key-is_key zero_key-is_key accounts-Decodes (omega arith) (omega arith)

abbrev returned : Option (List ℕ) → List ℕ
returned none = []
returned (some msg) = msg

call-returned : call ≡ some (returned call)
unfolding build_sol_program_call_message base58_decode
call-returned = refl

build_sol_program_call_message-Decodes_example :
    (is_key small_bytes zero_key ≡ true)
    × (is_key small_bytes three_key ≡ true)
    × (is_key small_bytes zero_key ≡ true)
    × All (Decodes small_bytes) accounts
build_sol_program_call_message-Decodes_example =
    build_sol_program_call_message-Decodes small_bytes zero_key three_key accounts (9 ∷ []) zero_key
      (returned call) call-returned
