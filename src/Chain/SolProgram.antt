-- ===== src/Chain/SolProgram.antt =====
-- buildSOLProgramCallMessage of chain/tx_sol.go: the accounts of a program call are merged, sorted by
-- their privileges and written with the header that counts these.
mod Counting
mod Payer
pub mod Privileges
pub mod Acceptance
mod Bounds
mod Collecting
mod Encoding
mod Examples
mod Giving
mod Header
mod Keys
mod Lookup
mod Merging
mod Sorting
use Prim.Native.String.{String}
use mathlib.Core.List.{reverse}
use teenet_wallet.Base.{
  ℕ, zero, suc, ◌+◌, ◌%◌, Bool, true, false, not, ◌&&◌, ◌||◌, Option, none, some, List, [], ◌∷◌,
  ◌++◌, map, length, if◌then◌else◌, ◌==◌, nat_eq, string_eq, ltb, leb,
}
use teenet_wallet.Chain.Base58.{base58_decode}
use teenet_wallet.Chain.SolMessage.{append_all, compact, of_32}

-- SOLAccountMeta, and the acctInfo of the merged accounts.
pub record AccountMeta : Type 0 where
  pub pubkey : String
  pub is_signer : Bool
  pub is_writable : Bool

abbrev pub has_key : String → List AccountMeta → Bool
has_key k [] = false
has_key k (x ∷ accts) = (x.pubkey == k) || has_key k accts

abbrev pub join : AccountMeta → AccountMeta → AccountMeta
join x a = record x {
  is_signer = x.is_signer || a.is_signer;
  is_writable = x.is_writable || a.is_writable;
}

-- The map `seen` gives the place of a key in the list: flags are merged there, or the account is added.
unfoldable pub merge : AccountMeta → List AccountMeta → List AccountMeta
merge a [] = a ∷ []
merge a (x ∷ accts) = if x.pubkey == a.pubkey then join x a ∷ accts else x ∷ merge a accts

-- A key that is new has to decode to 32 bytes.
abbrev pub accepts : (ℕ → List ℕ) → AccountMeta → List AccountMeta → Bool
accepts bytes a accts =
    has_key a.pubkey accts
    || (elim (of_32 (base58_decode bytes a.pubkey)) [ none ↦ false | some pub_key ↦ true ])

unfoldable pub merge_all :
    (ℕ → List ℕ) → List AccountMeta → List AccountMeta → Option (List AccountMeta)
unfolding merge
merge_all bytes [] accts = some accts
merge_all bytes (a ∷ accounts) accts =
    let rest = merge_all bytes accounts (merge a accts) in
    if accepts bytes a accts then rest else none

abbrev pub payer : String → AccountMeta
payer from = record { pubkey = from; is_signer = true; is_writable = true }

-- The program is added without privileges, if it is not there.
abbrev pub program_account : String → AccountMeta
program_account program = record { pubkey = program; is_signer = false; is_writable = false }

abbrev pub with_program : String → Option (List AccountMeta) → Option (List AccountMeta)
with_program program none = none
with_program program (some accts) =
    some (if has_key program accts then accts else accts ++ program_account program ∷ [])

unfoldable pub collect :
    (ℕ → List ℕ) → String → String → List AccountMeta → Option (List AccountMeta)
unfolding merge_all
collect bytes from program accounts =
    with_program program (merge_all bytes accounts (payer from ∷ []))

-- signer and writable, signer, writable, neither
abbrev pub group : AccountMeta → ℕ
group a = if a.is_signer then (if a.is_writable then 0 else 1) else if a.is_writable then 2 else 3

-- The inner loop of the sort on what is sorted so far, the last first.
unfoldable pub sink : AccountMeta → List AccountMeta → List AccountMeta
sink x [] = x ∷ []
sink x (y ∷ before) =
    let moved = sink x before in if ltb (group x) (group y) then y ∷ moved else x ∷ (y ∷ before)

unfoldable pub sink_all : List AccountMeta → List AccountMeta → List AccountMeta
unfolding sink
sink_all before [] = before
sink_all before (x ∷ accts) = sink_all (sink x before) accts

unfoldable pub sort : List AccountMeta → List AccountMeta
unfolding sink_all
sort accts = reverse (sink_all [] accts)

-- `indexMap`, where a later entry would overwrite an earlier one, and a missing key is 0.
abbrev pub last_index : String → ℕ → List AccountMeta → Option ℕ
last_index k i [] = none
last_index k i (x ∷ accts) = elim (last_index k (suc i) accts) [
  | some j ↦ some j
  | none ↦ if x.pubkey == k then some i else none
]

abbrev pub index_of : String → List AccountMeta → ℕ
index_of k sorted = elim (last_index k 0 sorted) [ none ↦ 0 | some i ↦ i ]

abbrev pub count_of : (AccountMeta → Bool) → List AccountMeta → ℕ
count_of p [] = 0
count_of p (x ∷ accts) = if p x then suc (count_of p accts) else count_of p accts

abbrev pub readonly_signer : AccountMeta → Bool
readonly_signer x = x.is_signer && not x.is_writable

abbrev pub readonly_other : AccountMeta → Bool
readonly_other x = not x.is_signer && not x.is_writable

abbrev pub num_signers : List AccountMeta → ℕ
num_signers = count_of (λ x. x.is_signer)

abbrev pub num_readonly_signed : List AccountMeta → ℕ
num_readonly_signed = count_of readonly_signer

abbrev pub num_readonly_unsigned : List AccountMeta → ℕ
num_readonly_unsigned = count_of readonly_other

abbrev pub decoded : (ℕ → List ℕ) → String → List ℕ
decoded bytes k = elim (base58_decode bytes k) [ none ↦ [] | some pub_key ↦ pub_key ]

abbrev pub keys_of : (ℕ → List ℕ) → List AccountMeta → List (List ℕ)
keys_of bytes [] = []
keys_of bytes (x ∷ accts) = decoded bytes x.pubkey ∷ keys_of bytes accts

-- `byte(indexMap[a.Pubkey])`
abbrev pub indices : List AccountMeta → List AccountMeta → List ℕ
indices sorted [] = []
indices sorted (a ∷ accounts) = index_of a.pubkey sorted % 256 ∷ indices sorted accounts

unfoldable pub write_message :
    (ℕ → List ℕ) → String → List AccountMeta → List ℕ → List ℕ → List AccountMeta → List ℕ
write_message bytes program accounts instr_data blockhash sorted = append_all (
    (num_signers sorted % 256
      ∷ num_readonly_signed sorted % 256
      ∷ num_readonly_unsigned sorted % 256
      ∷ [])
    ∷ compact (length sorted)
    ∷ append_all (keys_of bytes sorted)
    ∷ blockhash
    ∷ compact 1
    ∷ (index_of program sorted % 256 ∷ [])
    ∷ compact (length (indices sorted accounts))
    ∷ indices sorted accounts
    ∷ compact (length instr_data)
    ∷ instr_data
    ∷ [])

-- The lengths that compactU16 takes; it panics on any other, and there is no message.
abbrev pub in_range : ℕ → Bool
in_range v = leb v 65535

abbrev pub written :
    (ℕ → List ℕ)
    → String
    → List AccountMeta
    → List ℕ
    → List ℕ
    → Option (List AccountMeta)
    → Option (List ℕ)
written bytes program accounts instr_data blockhash none = none
written bytes program accounts instr_data blockhash (some accts) =
    if in_range (length accts) && (in_range (length accounts) && in_range (length instr_data))
    then some (write_message bytes program accounts instr_data blockhash (sort accts))
    else none

abbrev pub is_key : (ℕ → List ℕ) → String → Bool
is_key bytes k = elim (of_32 (base58_decode bytes k)) [ none ↦ false | some pub_key ↦ true ]

unfoldable pub build_sol_program_call_message :
    (ℕ → List ℕ) → String → String → List AccountMeta → List ℕ → String → Option (List ℕ)
unfolding collect
build_sol_program_call_message bytes from program accounts instr_data blockhash =
    if is_key bytes from && (is_key bytes program && is_key bytes blockhash)
    then written bytes program accounts instr_data (decoded bytes blockhash)
        (collect bytes from program accounts)
    else none
