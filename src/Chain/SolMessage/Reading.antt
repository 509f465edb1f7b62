-- ===== src/Chain/SolMessage/Reading.antt =====
-- What a reader of the legacy message format finds in the messages of chain/tx_sol.go.
use Prim.Native.String.{String}
use teenet_wallet.Base.{
  ℕ, zero, suc, ◌+◌, ◌*◌, ◌^◌, ◌<◌, ◌≡◌, refl, Option, none, some, List, [], ◌∷◌, ◌++◌,
  if◌then◌else◌, ◌==◌, nat_eq, length, take, drop, arith, ap, subst, ◌∙◌,
}
use teenet_wallet.Chain.Base58.{base58_decode}
use teenet_wallet.Chain.CompactU16.{compact_u16, read_compact}
use teenet_wallet.Chain.SolMessage.{
  append_all, le_bytes, system_program_id, instr_data, assemble, of_32, build_sol_message, compact,
}

pub record Instruction : Type 0 where
  pub program_index : ℕ
  pub accounts : List ℕ
  pub payload : List ℕ

pub record Message : Type 0 where
  pub required_signatures : ℕ
  pub readonly_signed : ℕ
  pub readonly_unsigned : ℕ
  pub keys : List (List ℕ)
  pub blockhash : List ℕ
  pub instructions : List Instruction

abbrev pub read_keys : ℕ → List ℕ → List (List ℕ) × List ℕ
read_keys zero s = ([], s)
read_keys (suc n) s = let rest = read_keys n (drop 32 s) in (take 32 s ∷ rest.0, rest.1)

-- A counted list of bytes.
abbrev pub counted : Option (ℕ × List ℕ) → Option (List ℕ × List ℕ)
counted none = none
counted (some (n, s)) = some (take n s, drop n s)

abbrev pub with_data : ℕ → List ℕ → Option (List ℕ × List ℕ) → Option (Instruction × List ℕ)
with_data p accs none = none
with_data p accs (some (bytes, s)) =
    some (record { program_index = p; accounts = accs; payload = bytes }, s)

abbrev pub with_accounts : ℕ → Option (List ℕ × List ℕ) → Option (Instruction × List ℕ)
with_accounts p none = none
with_accounts p (some (accs, s)) = with_data p accs (counted (read_compact s))

abbrev pub read_instruction : List ℕ → Option (Instruction × List ℕ)
read_instruction [] = none
read_instruction (p ∷ s) = with_accounts p (counted (read_compact s))

-- A message of one instruction, with nothing after it.
abbrev pub only_instruction : Option (Instruction × List ℕ) → Option (List Instruction)
only_instruction none = none
only_instruction (some (i, [])) = some (i ∷ [])
only_instruction (some (i, (b ∷ s))) = none

abbrev pub read_instructions : Option (ℕ × List ℕ) → Option (List Instruction)
read_instructions none = none
read_instructions (some (n, s)) = if n == 1 then only_instruction (read_instruction s) else none

abbrev pub with_instructions : Message → Option (List Instruction) → Option Message
with_instructions m none = none
with_instructions m (some is) = some (record m { instructions = is })

abbrev pub read_body : ℕ → ℕ → ℕ → Option (ℕ × List ℕ) → Option Message
read_body a b c none = none
read_body a b c (some (n, s)) =
    let ks = read_keys n s in
    with_instructions
      (record {
        required_signatures = a;
        readonly_signed = b;
        readonly_unsigned = c;
        keys = ks.0;
        blockhash = take 32 ks.1;
        instructions = [];
      })
      (read_instructions (read_compact (drop 32 ks.1)))

unfoldable pub read_message : List ℕ → Option Message
read_message (a ∷ b ∷ c ∷ s) = read_body a b c (read_compact s)
read_message [] = none
read_message (a ∷ []) = none
read_message (a ∷ b ∷ []) = none

-- The value of bytes, the lowest first.
abbrev pub le_value : List ℕ → ℕ
le_value [] = 0
le_value (b ∷ bs) = b + 256 * le_value bs

abbrev pub transfer : List ℕ → List ℕ → List ℕ → ℕ → Message
transfer f t b lamports = record {
  required_signatures = 1;
  readonly_signed = 0;
  readonly_unsigned = 1;
  keys = f ∷ t ∷ system_program_id ∷ [];
  blockhash = b;
  instructions =
      record { program_index = 2; accounts = 0 ∷ 1 ∷ []; payload = instr_data lamports } ∷ [];
}

pub take-append : (xs ys : List ℕ) → take (length xs) (xs ++ ys) ≡ xs
take-append [] ys = ground arith
take-append (x ∷ xs) ys = ap (λ r. x ∷ r) (take-append xs ys)

pub drop-append : (xs ys : List ℕ) → drop (length xs) (xs ++ ys) ≡ ys
drop-append [] ys = ground arith
drop-append (x ∷ xs) ys = drop-append xs ys

take_32 : (xs ys : List ℕ) → length xs ≡ 32 → take 32 (xs ++ ys) ≡ xs
take_32 xs ys e = subst (λ n. take n (xs ++ ys) ≡ xs) e (take-append xs ys)

drop_32 : (xs ys : List ℕ) → length xs ≡ 32 → drop 32 (xs ++ ys) ≡ ys
drop_32 xs ys e = subst (λ n. drop n (xs ++ ys) ≡ ys) e (drop-append xs ys)

le_value-lamports : (v : ℕ) → v < 2 ^ 64 → le_value (le_bytes 8 v) ≡ v
le_value-lamports v h = omega (arith, h)

abbrev pub cons_key : List ℕ → List (List ℕ) × List ℕ → List (List ℕ) × List ℕ
cons_key f (ks, rest) = (f ∷ ks, rest)

pub read_keys-cons :
    (n : ℕ) (f s : List ℕ) → length f ≡ 32 → read_keys (suc n) (f ++ s) ≡ cons_key f (read_keys n s)
read_keys-cons n f s e =
    ap (λ k. cons_key (take 32 (f ++ s)) (read_keys n k)) (drop_32 f s e)
    ∙ ap (λ k. cons_key k (read_keys n s)) (take_32 f s e)

read_keys-three :
    (f t g rest : List ℕ)
    → length f ≡ 32
    → length t ≡ 32
    → length g ≡ 32
    → read_keys 3 (f ++ (t ++ (g ++ rest))) ≡ (f ∷ t ∷ g ∷ [], rest)
read_keys-three f t g rest ef et eg =
    read_keys-cons 2 f (t ++ (g ++ rest)) ef
    ∙ ap (cons_key f)
        (read_keys-cons 1 t (g ++ rest) et ∙ ap (cons_key t) (read_keys-cons 0 g rest eg))

-- The blockhash and the instruction, once the keys are read.
abbrev message_after : List (List ℕ) × List ℕ → Option Message
message_after ks =
    with_instructions
      (record {
        required_signatures = 1;
        readonly_signed = 0;
        readonly_unsigned = 1;
        keys = ks.0;
        blockhash = take 32 ks.1;
        instructions = [];
      })
      (read_instructions (read_compact (drop 32 ks.1)))

pub after_keys :
    (m : Message) (b s : List ℕ)
    → length b ≡ 32
    → with_instructions
        (record m { blockhash = take 32 (b ++ s) })
        (read_instructions (read_compact (drop 32 (b ++ s))))
      ≡ with_instructions (record m { blockhash = b }) (read_instructions (read_compact s))
after_keys m b s e = rw (drop_32 b s e, take_32 b s e) refl

abbrev tail_of : ℕ → List ℕ
tail_of lamports = append_all (
    compact 1
    ∷ (2 ∷ [])
    ∷ compact 2
    ∷ (0 ∷ 1 ∷ [])
    ∷ compact (length (instr_data lamports))
    ∷ instr_data lamports
    ∷ [])

read-assemble :
    (f t b : List ℕ) (lamports : ℕ)
    → length f ≡ 32
    → length t ≡ 32
    → length b ≡ 32
    → read_message (assemble f t b lamports) ≡ some (transfer f t b lamports)
unfolding read_message assemble compact_u16
read-assemble f t b lamports ef et eb =
    ap message_after (read_keys-three f t system_program_id (b ++ tail_of lamports) ef et refl)
    ∙ after_keys (record (transfer f t b lamports) { instructions = [] }) b (tail_of lamports) eb

-- For addresses and a blockhash that decode to 32 bytes, buildSOLMessage returns a message in which
-- the reader finds one signer, one readonly account, the two accounts and the system program, the
-- blockhash, and one instruction of that program on the two accounts; its data is the number 2 in
-- four bytes and then the lamports in eight, of which all bits are kept if they fit.
pub read-build_sol_message :
    (bytes : ℕ → List ℕ) (from_addr to_addr blockhash : String) (f t b : List ℕ) (lamports : ℕ)
    → base58_decode bytes from_addr ≡ some f
    → base58_decode bytes to_addr ≡ some t
    → base58_decode bytes blockhash ≡ some b
    → length f ≡ 32
    → length t ≡ 32
    → length b ≡ 32
    → lamports < 2 ^ 64
    → (msg : List ℕ) × (build_sol_message bytes from_addr to_addr blockhash lamports ≡ some msg)
      × (read_message msg ≡ some (transfer f t b lamports))
      × (le_value (take 4 (instr_data lamports)) ≡ 2)
      × (le_value (drop 4 (instr_data lamports)) ≡ lamports)
unfolding build_sol_message
read-build_sol_message bytes from_addr to_addr blockhash f t b lamports df dt db ef et eb h = (
  assemble f t b lamports,
  rw (df, dt, db, of_32, ef, et, eb) refl,
  read-assemble f t b lamports ef et eb,
  refl,
  le_value-lamports lamports h,
)
