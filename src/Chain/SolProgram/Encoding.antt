-- ===== src/Chain/SolProgram/Encoding.antt =====
-- What a reader of the legacy message format finds in the message of a program call of
-- chain/tx_sol.go.
use Prim.Native.String.{String}
use teenet_wallet.Base.{
  ℕ, suc, ◌%◌, ◌≤◌, ◌≡◌, refl, ap, sym, ◌∙◌, subst, Option, some, List, [], ◌∷◌, ◌++◌, nat_eq,
  arith, All, length, take, drop, append_assoc,
}
use teenet_wallet.Chain.CompactU16.{read_compact, read-compact_u16}
use teenet_wallet.Chain.SolMessage.{append_all, compact}
use teenet_wallet.Chain.SolMessage.Reading.{
  Message, read_message, read_keys, read_body, read_instructions, read_instruction,
  only_instruction, with_instructions, take-append, drop-append, read_keys-cons, cons_key,
  after_keys,
}
use teenet_wallet.Chain.SolProgram.{
  AccountMeta, num_signers, num_readonly_signed, num_readonly_unsigned, keys_of, indices, index_of,
  write_message, decoded,
}
use teenet_wallet.Chain.SolProgram.Bounds.{Decodes, length-decoded}

-- The message that is meant.
abbrev pub call_message :
    (ℕ → List ℕ) → String → List AccountMeta → List ℕ → List ℕ → List AccountMeta → Message
call_message bytes program accounts instr_data blockhash sorted = record {
  required_signatures = num_signers sorted % 256;
  readonly_signed = num_readonly_signed sorted % 256;
  readonly_unsigned = num_readonly_unsigned sorted % 256;
  keys = keys_of bytes sorted;
  blockhash = blockhash;
  instructions =
      record {
        program_index = index_of program sorted % 256;
        accounts = indices sorted accounts;
        payload = instr_data;
      }
      ∷ [];
}

read-compact :
    (v : ℕ) (rest : List ℕ) → v ≤ 65535 → read_compact (compact v ++ rest) ≡ some (v, rest)
read-compact v rest h = let (bs, e, small, r) = read-compact_u16 v rest h in rw (e) r

read_keys-keys_of :
    (bytes : ℕ → List ℕ) (accts : List AccountMeta) (rest : List ℕ)
    → All (Decodes bytes) accts
    → read_keys (length accts) (append_all (keys_of bytes accts) ++ rest)
      ≡ (keys_of bytes accts, rest)
read_keys-keys_of bytes [] rest d = refl
read_keys-keys_of bytes (x ∷ accts) rest d =
    let key = decoded bytes x.pubkey in
    let keys = append_all (keys_of bytes accts) in
    ap (read_keys (suc (length accts))) (append_assoc key keys rest)
    ∙ read_keys-cons (length accts) key (keys ++ rest) (length-decoded bytes x.pubkey d.0)
    ∙ ap (cons_key key) (read_keys-keys_of bytes accts rest d.1)

length-indices :
    (sorted accounts : List AccountMeta) → length (indices sorted accounts) ≡ length accounts
length-indices sorted [] = refl
length-indices sorted (a ∷ accounts) = ap suc (length-indices sorted accounts)

abbrev instruction_bytes : ℕ → List ℕ → List ℕ → List ℕ
instruction_bytes p idx payload =
    p ∷ (compact (length idx) ++ (idx ++ (compact (length payload) ++ (payload ++ []))))

read-instruction_bytes :
    (p : ℕ) (idx payload : List ℕ)
    → length idx ≤ 65535
    → length payload ≤ 65535
    → read_instruction (instruction_bytes p idx payload)
      ≡ some (record { program_index = p; accounts = idx; payload = payload }, [])
read-instruction_bytes p idx payload hi hp =
    rw
      (
        read-compact (length idx) (idx ++ (compact (length payload) ++ (payload ++ []))) hi,
        take-append idx (compact (length payload) ++ (payload ++ [])),
        drop-append idx (compact (length payload) ++ (payload ++ [])),
        read-compact (length payload) (payload ++ []) hp,
        take-append payload [],
        drop-append payload [],
      )
      refl

-- The blockhash and the instruction, once the keys are read.
abbrev message_after : Message → List (List ℕ) × List ℕ → Option Message
message_after m ks =
    with_instructions (record m { keys = ks.0; blockhash = take 32 ks.1 })
      (read_instructions (read_compact (drop 32 ks.1)))

pub read-write_message :
    (bytes : ℕ → List ℕ) (program : String) (accounts : List AccountMeta)
    (instr_data blockhash : List ℕ) (sorted : List AccountMeta)
    → length sorted ≤ 65535
    → length accounts ≤ 65535
    → length instr_data ≤ 65535
    → length blockhash ≡ 32
    → All (Decodes bytes) sorted
    → read_message (write_message bytes program accounts instr_data blockhash sorted)
      ≡ some (call_message bytes program accounts instr_data blockhash sorted)
unfolding read_message write_message
read-write_message bytes program accounts instr_data blockhash sorted hs ha hi hb d =
    let m = call_message bytes program accounts instr_data blockhash sorted in
    let none_yet = record m { instructions = [] } in
    let idx = indices sorted accounts in
    let p = index_of program sorted % 256 in
    let rest = instruction_bytes p idx instr_data in
    let keys = append_all (keys_of bytes sorted) in
    let hx : length idx ≤ 65535 =
      subst (λ n. n ≤ 65535) (sym (length-indices sorted accounts)) ha in
    ap (read_body m.required_signatures m.readonly_signed m.readonly_unsigned)
      (read-compact (length sorted) (keys ++ (blockhash ++ (compact 1 ++ rest))) hs)
    ∙ ap (message_after none_yet)
        (read_keys-keys_of bytes sorted (blockhash ++ (compact 1 ++ rest)) d)
    ∙ after_keys none_yet blockhash (compact 1 ++ rest) hb
    ∙ ap (λ r. with_instructions none_yet (read_instructions r)) (read-compact 1 rest (omega arith))
    ∙ ap (λ r. with_instructions none_yet (only_instruction r))
        (read-instruction_bytes p idx instr_data hx hi)
