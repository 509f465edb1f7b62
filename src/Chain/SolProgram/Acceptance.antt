-- ===== src/Chain/SolProgram/Acceptance.antt =====
-- When buildSOLProgramCallMessage of chain/tx_sol.go returns a message.
use Prim.Native.String.{String}
use teenet_wallet.Base.{
  ℕ, ◌≡◌, refl, ap, subst, inl, inr, Bool, true, false, Option, none, some, List, [], ◌∷◌,
  if◌then◌else◌, ◌==◌, string_eq, arith, Bool-cases, All, and_true,
}
use teenet_wallet.Chain.SolProgram.{
  AccountMeta, has_key, merge, merge_all, accepts, payer, collect, with_program, is_key, written,
  build_sol_program_call_message,
}
use teenet_wallet.Chain.SolProgram.Bounds.{Decodes, merge-Decodes}
use teenet_wallet.Chain.SolProgram.Collecting.{collect-completed}

-- With keys that decode, every account is accepted.
merge_all-total :
    (bytes : ℕ → List ℕ) (accounts accts : List AccountMeta)
    → All (Decodes bytes) accounts
    → (merged : List AccountMeta) × (merge_all bytes accounts accts ≡ some merged)
unfolding merge_all
merge_all-total bytes [] accts d = (accts, refl)
merge_all-total bytes (a ∷ accounts) accts d =
    let (merged, e) = merge_all-total bytes accounts (merge a accts) d.1 in
    let ok : accepts bytes a accts ≡ true = ground (arith, d.0) in (merged, rw (ok) e)

has_key-Decodes :
    (bytes : ℕ → List ℕ) (k : String) (accts : List AccountMeta)
    → All (Decodes bytes) accts
    → has_key k accts ≡ true
    → is_key bytes k ≡ true
has_key-Decodes bytes k [] d h = cc
has_key-Decodes bytes k (x ∷ accts) d h = elim (Bool-cases (x.pubkey == k)) [
  | inl e ↦ subst (λ s. is_key bytes s ≡ true) ((string_eq.eqb_iff x.pubkey k).0 e) d.0
  | inr e ↦ has_key-Decodes bytes k accts d.1 (ground arith)
]

-- An account that is merged into an earlier one has the key of that, which was decoded.
merge_all-accepted :
    (bytes : ℕ → List ℕ) (accounts accts merged : List AccountMeta)
    → All (Decodes bytes) accts
    → merge_all bytes accounts accts ≡ some merged
    → All (Decodes bytes) accounts
unfolding merge_all
merge_all-accepted bytes [] accts merged d e = tt
merge_all-accepted bytes (a ∷ accounts) accts merged d e =
    let ok : accepts bytes a accts ≡ true = ground arith in
    (
      elim (Bool-cases (has_key a.pubkey accts)) [
        | inl h ↦ has_key-Decodes bytes a.pubkey accts d h
        | inr h ↦ ground arith
      ],
      merge_all-accepted bytes accounts (merge a accts) merged (merge-Decodes bytes a accts ok d)
          (ground arith),
    )

pub collect-total :
    (bytes : ℕ → List ℕ) (from program : String) (accounts : List AccountMeta)
    → All (Decodes bytes) accounts
    → (accts : List AccountMeta) × (collect bytes from program accounts ≡ some accts)
unfolding collect
collect-total bytes from program accounts d =
    let (merged, e) = merge_all-total bytes accounts (payer from ∷ []) d in
    (_, ap (with_program program) e)

built :
    (valid : Bool) (bytes : ℕ → List ℕ) (program : String) (accounts : List AccountMeta)
    (instr_data hash : List ℕ) (all : Option (List AccountMeta)) (msg : List ℕ)
    → (if valid then written bytes program accounts instr_data hash all else none) ≡ some msg
    → (valid ≡ true) × (accts : List AccountMeta) × (all ≡ some accts)
built true bytes program accounts instr_data hash none msg e = cc
built true bytes program accounts instr_data hash (some accts) msg e = (refl, accts, refl)
built false bytes program accounts instr_data hash all msg e = cc

-- buildSOLProgramCallMessage returns a message only if the payer, the program, the blockhash and
-- every account it was given decode to 32 bytes, also the accounts that are merged into an earlier one.
pub build_sol_program_call_message-Decodes :
    (bytes : ℕ → List ℕ) (from program : String) (accounts : List AccountMeta) (instr_data : List ℕ)
    (blockhash : String) (msg : List ℕ)
    → build_sol_program_call_message bytes from program accounts instr_data blockhash ≡ some msg
    → (is_key bytes from ≡ true)
      × (is_key bytes program ≡ true)
      × (is_key bytes blockhash ≡ true)
      × All (Decodes bytes) accounts
unfolding build_sol_program_call_message
build_sol_program_call_message-Decodes bytes from program accounts instr_data blockhash msg e =
    let (ok, accts, c) = built _ bytes program accounts instr_data _ _ msg e in
    let (f, pb) = and_true _ _ ok in
    let (p, b) = and_true _ _ pb in
    let (merged, m, same) = collect-completed bytes from program accounts accts c in
    (f, p, b, merge_all-accepted bytes accounts (payer from ∷ []) merged (f, tt) m)
