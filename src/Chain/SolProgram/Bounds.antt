-- ===== src/Chain/SolProgram/Bounds.antt =====
-- The accounts of a Solana program call of chain/tx_sol.go: how many there are, and that their keys
-- decode to 32 bytes.
use Prim.Native.String.{String}
use teenet_wallet.Base.{
  ℕ, suc, ◌+◌, ◌≤◌, ◌≡◌, refl, ap, sym, ◌∙◌, subst, inl, inr, Bool, true, some, List, [], ◌∷◌, ◌==◌,
  string_eq, nat_eq, arith, Bool-cases, All, All-append, length, length-append, Option-cases,
}
use teenet_wallet.Chain.Base58.{base58_decode}
use teenet_wallet.Chain.SolProgram.{
  AccountMeta, has_key, merge, merge_all, accepts, payer, program_account, collect, sort, count_of,
  is_key, decoded,
}
use teenet_wallet.Chain.SolProgram.Counting.{count_of-sort}
use teenet_wallet.Chain.SolProgram.Collecting.{completed, collect-completed}
use teenet_wallet.Chain.SolProgram.Sorting.{All-sort}

pub count_of-le : (q : AccountMeta → Bool) (xs : List AccountMeta) → count_of q xs ≤ length xs
count_of-le q [] = omega arith
count_of-le q (x ∷ xs) = ground (arith, count_of-le q xs)

length-count : (xs : List AccountMeta) → length xs ≡ count_of (λ x. true) xs
length-count [] = refl
length-count (x ∷ xs) = ap suc (length-count xs)

pub length-sort : (accts : List AccountMeta) → length (sort accts) ≡ length accts
length-sort accts =
    length-count (sort accts) ∙ count_of-sort (λ x. true) accts ∙ sym (length-count accts)

length-merge :
    (a : AccountMeta) (accts : List AccountMeta) → length (merge a accts) ≤ suc (length accts)
unfolding merge
length-merge a [] = ground arith
length-merge a (x ∷ accts) = ground (arith, length-merge a accts)

length-merge_all :
    (bytes : ℕ → List ℕ) (accounts accts merged : List AccountMeta)
    → merge_all bytes accounts accts ≡ some merged
    → length merged ≤ length accts + length accounts
unfolding merge_all
length-merge_all bytes [] accts merged e =
    let same : accts ≡ merged = cc in subst (λ l. length l ≤ length accts + 0) same (omega arith)
length-merge_all bytes (a ∷ accounts) accts merged e =
    let later = length-merge_all bytes accounts (merge a accts) merged (ground arith) in
    let now = length-merge a accts in omega (arith, later, now)

length-completed :
    (program : String) (merged : List AccountMeta)
    → length (completed program merged) ≤ suc (length merged)
length-completed program merged =
    let added = length-append merged (program_account program ∷ []) in ground arith

-- The payer and the program are two accounts more, at most.
pub length-collect :
    (bytes : ℕ → List ℕ) (from program : String) (accounts accts : List AccountMeta)
    → collect bytes from program accounts ≡ some accts
    → length accts ≤ 2 + length accounts
length-collect bytes from program accounts accts e =
    let (merged, m, same) = collect-completed bytes from program accounts accts e in
    let all = length-merge_all bytes accounts _ merged m in
    let added = length-completed program merged in
    let sized = ap length same in omega (arith, all, added, sized)

abbrev pub Decodes : (ℕ → List ℕ) → AccountMeta → Type 0
Decodes bytes x = is_key bytes x.pubkey ≡ true

pub length-decoded :
    (bytes : ℕ → List ℕ) (k : String) → is_key bytes k ≡ true → length (decoded bytes k) ≡ 32
length-decoded bytes k h = elim (Option-cases (base58_decode bytes k)) [
  | inl n ↦ ground arith
  | inr (bs, e) ↦ ground arith
]

pub merge-Decodes :
    (bytes : ℕ → List ℕ) (a : AccountMeta) (accts : List AccountMeta)
    → accepts bytes a accts ≡ true
    → All (Decodes bytes) accts
    → All (Decodes bytes) (merge a accts)
unfolding merge
merge-Decodes bytes a [] h d = (ground arith, d)
merge-Decodes bytes a (x ∷ accts) h d = elim (Bool-cases (x.pubkey == a.pubkey)) [
  | inl e ↦ rw (e) d
  | inr e ↦ rw (e) (d.0, merge-Decodes bytes a accts (ground arith) d.1)
]

merge_all-Decodes :
    (bytes : ℕ → List ℕ) (accounts accts merged : List AccountMeta)
    → All (Decodes bytes) accts
    → merge_all bytes accounts accts ≡ some merged
    → All (Decodes bytes) merged
unfolding merge_all
merge_all-Decodes bytes [] accts merged d e = subst (All (Decodes bytes)) (cc) d
merge_all-Decodes bytes (a ∷ accounts) accts merged d e =
    let ok : accepts bytes a accts ≡ true = ground arith in
    merge_all-Decodes bytes accounts (merge a accts) merged (merge-Decodes bytes a accts ok d)
      (ground arith)

completed-Decodes :
    (bytes : ℕ → List ℕ) (program : String) (merged : List AccountMeta)
    → is_key bytes program ≡ true
    → All (Decodes bytes) merged
    → All (Decodes bytes) (completed program merged)
completed-Decodes bytes program merged h d = elim (Bool-cases (has_key program merged)) [
  | inl present ↦ rw (present) d
  | inr absent ↦
      rw (absent) (All-append (Decodes bytes) merged (program_account program ∷ []) d (h, tt))
]

pub collect-Decodes :
    (bytes : ℕ → List ℕ) (from program : String) (accounts accts : List AccountMeta)
    → is_key bytes from ≡ true
    → is_key bytes program ≡ true
    → collect bytes from program accounts ≡ some accts
    → All (Decodes bytes) (sort accts)
collect-Decodes bytes from program accounts accts f p e =
    let (merged, m, same) = collect-completed bytes from program accounts accts e in
    All-sort (Decodes bytes) accts (
      subst (All (Decodes bytes)) (sym same) (
        completed-Decodes bytes program merged p
          (merge_all-Decodes bytes accounts (payer from ∷ []) merged (f, tt) m)))
