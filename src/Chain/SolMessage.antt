-- ===== src/Chain/SolMessage.antt =====
-- buildSOLMessage of chain/tx_sol.go: the message of a native transfer, and a reader of the legacy
-- message format that Solana documents.
pub mod Reading
mod Examples
use Prim.Native.String.{String}
use teenet_wallet.Base.{
  ℕ, zero, suc, ◌+◌, ◌*◌, ◌/◌, ◌%◌, Option, none, some, List, [], ◌∷◌, ◌++◌, if◌then◌else◌, ◌==◌,
  nat_eq, length, replicate, take, drop,
}
use teenet_wallet.Chain.Base58.{base58_decode}
use teenet_wallet.Chain.CompactU16.{compact_u16, read_compact}

-- encoding/binary's LittleEndian.Put, of `n` bytes.
abbrev pub le_bytes : ℕ → ℕ → List ℕ
le_bytes zero v = []
le_bytes (suc n) v = v % 256 ∷ le_bytes n (v / 256)

abbrev pub system_program_id : List ℕ
system_program_id = replicate 32 0

abbrev pub instr_data : ℕ → List ℕ
instr_data lamports = le_bytes 4 2 ++ le_bytes 8 lamports

-- The lengths below are within the range of compactU16, which panics outside of it.
abbrev pub encoded : Option (List ℕ) → List ℕ
encoded none = []
encoded (some bs) = bs

abbrev pub compact : ℕ → List ℕ
compact v = encoded (compact_u16 v)

-- `msg = append(msg, part...)` for each part.
abbrev pub append_all : List (List ℕ) → List ℕ
append_all [] = []
append_all (part ∷ parts) = part ++ append_all parts

unfoldable pub assemble : List ℕ → List ℕ → List ℕ → ℕ → List ℕ
assemble from_pub to_pub blockhash lamports = append_all (
    (1 ∷ 0 ∷ 1 ∷ [])
    ∷ compact 3
    ∷ from_pub
    ∷ to_pub
    ∷ system_program_id
    ∷ blockhash
    ∷ compact 1
    ∷ (2 ∷ [])
    ∷ compact 2
    ∷ (0 ∷ 1 ∷ [])
    ∷ compact (length (instr_data lamports))
    ∷ instr_data lamports
    ∷ [])

abbrev pub of_32 : Option (List ℕ) → Option (List ℕ)
of_32 none = none
of_32 (some bs) = if length bs == 32 then some bs else none

abbrev pub assemble_valid :
    Option (List ℕ) → Option (List ℕ) → Option (List ℕ) → ℕ → Option (List ℕ)
assemble_valid none t b lamports = none
assemble_valid (some f) none b lamports = none
assemble_valid (some f) (some t) none lamports = none
assemble_valid (some f) (some t) (some b) lamports = some (assemble f t b lamports)

-- `bytes` is math/big's Bytes.
unfoldable pub build_sol_message : (ℕ → List ℕ) → String → String → String → ℕ → Option (List ℕ)
build_sol_message bytes from_addr to_addr blockhash lamports =
    assemble_valid (of_32 (base58_decode bytes from_addr)) (of_32 (base58_decode bytes to_addr))
      (of_32 (base58_decode bytes blockhash)) lamports
