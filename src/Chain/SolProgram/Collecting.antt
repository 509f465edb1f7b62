-- ===== src/Chain/SolProgram/Collecting.antt =====
-- The accounts of a Solana program call once the payer, the given accounts and the program are in.
use Prim.Native.String.{String}
use teenet_wallet.Base.{
  ℕ, ◌≡◌, refl, ap, sym, ◌∙◌, subst, inl, inr, Bool, false, ◌||◌, some, List, [], ◌∷◌, ◌++◌,
  if◌then◌else◌, ◌==◌, string_eq, arith, Bool-cases, Option-cases,
}
use teenet_wallet.Chain.SolProgram.{
  AccountMeta, has_key, join, merge_all, payer, program_account, with_program, collect,
}
use teenet_wallet.Chain.SolProgram.Counting.{granted, has_key-count, count_of-append}
use teenet_wallet.Chain.SolProgram.Merging.{
  is_for, IsUnique, merge_all-IsUnique, has_key-merge_all, granted-merge_all,
}

has_key-append :
    (k : String) (xs ys : List AccountMeta) → has_key k (xs ++ ys) ≡ (has_key k xs || has_key k ys)
has_key-append k [] ys = refl
has_key-append k (x ∷ xs) ys = ground (arith, has_key-append k xs ys)

granted-append :
    (p : AccountMeta → Bool) (k : String) (xs ys : List AccountMeta)
    → granted p k (xs ++ ys) ≡ (granted p k xs || granted p k ys)
granted-append p k [] ys = refl
granted-append p k (x ∷ xs) ys = ground (arith, granted-append p k xs ys)

abbrev pub completed : String → List AccountMeta → List AccountMeta
completed program accts =
    if has_key program accts then accts else accts ++ program_account program ∷ []

-- What is collected is what was merged, with the program added.
pub collect-completed :
    (bytes : ℕ → List ℕ) (from program : String) (accounts accts : List AccountMeta)
    → collect bytes from program accounts ≡ some accts
    → (merged : List AccountMeta) × (merge_all bytes accounts (payer from ∷ []) ≡ some merged)
      × (accts ≡ completed program merged)
unfolding collect
collect-completed bytes from program accounts accts e =
    elim (Option-cases (merge_all bytes accounts (payer from ∷ []))) [
      | inl n ↦ cc (ap (with_program program) (sym n) ∙ e)
      | inr (merged, m) ↦
          let same : completed program merged ≡ accts =
            cc (ap (with_program program) (sym m) ∙ e) in
          (merged, m, sym same)
    ]

completed-IsUnique :
    (program : String) (merged : List AccountMeta)
    → IsUnique merged
    → IsUnique (completed program merged)
completed-IsUnique program merged u k =
    let before = u k in
    let parts = count_of-append (is_for k) merged (program_account program ∷ []) in
    elim (Bool-cases (program == k)) [
      | inl e ↦
          let same : has_key program merged ≡ has_key k merged =
            ap (λ s. has_key s merged) ((string_eq.eqb_iff program k).0 e) in
          let present = has_key-count k merged in ground arith
      | inr e ↦ ground arith
    ]

has_key-completed :
    (k program : String) (merged : List AccountMeta)
    → has_key k (completed program merged) ≡ (has_key k merged || (program == k))
has_key-completed k program merged =
    let parts = has_key-append k merged (program_account program ∷ []) in
    elim (Bool-cases (program == k)) [
      | inl e ↦
          let same : has_key program merged ≡ has_key k merged =
            ap (λ s. has_key s merged) ((string_eq.eqb_iff program k).0 e) in
          ground arith
      | inr e ↦ ground arith
    ]

module _ (bytes : ℕ → List ℕ) (from program : String) (accounts accts : List AccountMeta)
    (e : collect bytes from program accounts ≡ some accts) where
  pub collect-IsUnique : IsUnique accts
  collect-IsUnique =
      let (merged, m, same) = collect-completed bytes from program accounts accts e in
      let alone : IsUnique (payer from ∷ []) = λ k. ground arith in
      subst IsUnique (sym same)
        (completed-IsUnique program merged (merge_all-IsUnique bytes accounts _ merged alone m))

  pub has_key-collect :
      (k : String) → has_key k accts ≡ (has_key k (payer from ∷ accounts) || (program == k))
  has_key-collect k =
      let (merged, m, same) = collect-completed bytes from program accounts accts e in
      let all = has_key-merge_all bytes k accounts _ merged m in
      let added = has_key-completed k program merged in ap (has_key k) same ∙ ground arith

  -- A privilege that the program is not added with is that of the payer or of a given account.
  pub granted-collect :
      (p : AccountMeta → Bool)
      → ((x a : AccountMeta) → p (join x a) ≡ (p x || p a))
      → p (program_account program) ≡ false
      → (k : String) → granted p k accts ≡ granted p k (payer from ∷ accounts)
  granted-collect p joins without k =
      let (merged, m, same) = collect-completed bytes from program accounts accts e in
      let all = granted-merge_all p joins bytes k accounts _ merged m in
      let added = granted-append p k merged (program_account program ∷ []) in
      ap (granted p k) same ∙ ground arith
