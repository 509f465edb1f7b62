-- ===== src/Chain/SolProgram/Privileges.antt =====
-- The message of a program call of chain/tx_sol.go, read back: which accounts it names, and which
-- privileges it gives them.
use Prim.Native.String.{String}
use teenet_wallet.Base.{
  le→leb, ℕ, ◌≤◌, ◌≡◌, refl, ap, ◌∙◌, subst, true, some, List, [], ◌∷◌, map, string_eq, nat_eq,
  arith, length, All,
}
use teenet_wallet.Chain.SolMessage.Reading.{Message, Instruction, read_message}
use teenet_wallet.Chain.SolProgram.{
  AccountMeta, decoded, sort, is_key, written, write_message, build_sol_program_call_message,
}
use teenet_wallet.Chain.SolProgram.Encoding.{call_message, read-write_message}
use teenet_wallet.Chain.SolProgram.Bounds.{
  Decodes, length-collect, length-sort, collect-Decodes, length-decoded,
}
use teenet_wallet.Chain.SolProgram.Acceptance.{collect-total}
use teenet_wallet.Chain.SolProgram.Sorting.{get_elem?}
use teenet_wallet.Chain.SolProgram.Giving.{
  Gives, GivesFrom, GivesEach, accounts-GivesEach, program-Gives, keys-GivesFrom,
}
use teenet_wallet.Chain.SolProgram.Keys.{Listed, keys-Listed, sorted-keys, keys_of-map}

written-message :
    (bytes : ℕ → List ℕ) (program : String) (accounts : List AccountMeta) (instr_data hash : List ℕ)
    (accts : List AccountMeta)
    → length accts ≤ 65535
    → length accounts ≤ 65535
    → length instr_data ≤ 65535
    → written bytes program accounts instr_data hash (some accts)
      ≡ some (write_message bytes program accounts instr_data hash (sort accts))
written-message bytes program accounts instr_data hash accts h k l =
    rw
      (
        le→leb (length accts) 65535 h,
        le→leb (length accounts) 65535 k,
        le→leb (length instr_data) 65535 l,
      )
      refl

-- For keys and a blockhash that decode to 32 bytes, with at most 253 accounts and 65535 bytes of data,
-- buildSOLProgramCallMessage returns a message in which the reader finds the blockhash, as keys the
-- payer first and no other than those of the payer, the accounts and the program, and one
-- instruction with the data; at the index of the program is its key, and at the indices of the
-- accounts are their keys, in the order given. By the header each key of the message signs exactly if
-- it is the payer's or an account given for it signs, and is writable likewise.
pub read-build_sol_program_call_message :
    (bytes : ℕ → List ℕ) (from program : String) (accounts : List AccountMeta) (instr_data : List ℕ)
    (blockhash : String)
    → is_key bytes from ≡ true
    → is_key bytes program ≡ true
    → is_key bytes blockhash ≡ true
    → All (Decodes bytes) accounts
    → length accounts ≤ 253
    → length instr_data ≤ 65535
    → (msg : List ℕ) × (m : Message) × (i : Instruction) × (others : List String)
      × (build_sol_program_call_message bytes from program accounts instr_data blockhash ≡ some msg)
      × (read_message msg ≡ some m)
      × (m.blockhash ≡ decoded bytes blockhash)
      × (m.keys ≡ map (decoded bytes) (from ∷ others))
      × GivesFrom bytes from accounts m (from ∷ others) 0
      × All (Listed from program accounts) (from ∷ others)
      × (m.instructions ≡ i ∷ [])
      × (i.payload ≡ instr_data)
      × Gives bytes from accounts m program i.program_index
      × GivesEach bytes from accounts m accounts i.accounts
unfolding build_sol_program_call_message
read-build_sol_program_call_message bytes from program accounts instr_data blockhash f p b d many
      long =
    let (accts, e) = collect-total bytes from program accounts d in
    let sorted = sort accts in
    let hash = decoded bytes blockhash in
    let m = call_message bytes program accounts instr_data hash sorted in
    let le = length-collect bytes from program accounts accts e in
    let small : length accts ≤ 255 = omega (arith, le, many) in
    let sized = length-sort accts in
    let (others, keys) = sorted-keys bytes from program accounts accts e in
    (
      write_message bytes program accounts instr_data hash sorted,
      m,
      _,
      others,
      rw (f, p, b)
          (ap (written bytes program accounts instr_data hash) e
            ∙ written-message bytes program accounts instr_data hash accts (omega (arith, small))
                (omega (arith, many)) long),
      read-write_message bytes program accounts instr_data hash sorted (omega (arith, sized, small))
          (omega (arith, many)) long (length-decoded bytes blockhash b)
          (collect-Decodes bytes from program accounts accts f p e),
      refl,
      keys_of-map bytes sorted ∙ ap (map (decoded bytes)) keys,
      subst (λ ks. GivesFrom bytes from accounts m ks 0) keys
          (keys-GivesFrom bytes from program accounts instr_data hash accts e small sorted 0
            (λ i. ap (get_elem? sorted) (omega arith))),
      subst (All (Listed from program accounts)) keys
          (keys-Listed bytes from program accounts accts e sorted (λ k h. h)),
      refl,
      refl,
      program-Gives bytes from program accounts instr_data hash accts e small,
      accounts-GivesEach bytes from program accounts instr_data hash accts e small,
    )
