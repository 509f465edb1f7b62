-- ===== src/Chain/SolProgram/Merging.antt =====
-- The merged accounts of buildSOLProgramCallMessage of chain/tx_sol.go: one for each key, with the
-- privileges that any of the given accounts has.
use Prim.Native.String.{String}
use teenet_wallet.Base.{
  ℕ, ◌≤◌, ◌≡◌, refl, ap, subst, inl, inr, Bool, true, ◌||◌, some, List, [], ◌∷◌, if◌then◌else◌,
  ◌==◌, string_eq, arith, Bool-cases,
}
use teenet_wallet.Chain.SolProgram.{AccountMeta, has_key, join, merge, merge_all, count_of}
use teenet_wallet.Chain.SolProgram.Counting.{granted, has_key-count}

abbrev pub is_for : String → AccountMeta → Bool
is_for k x = x.pubkey == k

same_key :
    (x a : AccountMeta) (k : String)
    → (x.pubkey == a.pubkey) ≡ true
    → (x.pubkey == k) ≡ (a.pubkey == k)
same_key x a k e = ap (λ s. s == k) ((string_eq.eqb_iff x.pubkey a.pubkey).0 e)

has_key-merge :
    (k : String) (a : AccountMeta) (accts : List AccountMeta)
    → has_key k (merge a accts) ≡ has_key k (a ∷ accts)
unfolding merge
has_key-merge k a [] = refl
has_key-merge k a (x ∷ accts) = elim (Bool-cases (x.pubkey == a.pubkey)) [
  | inl e ↦ let same = same_key x a k e in ground arith
  | inr e ↦ let later = has_key-merge k a accts in ground arith
]

count_of-merge :
    (k : String) (a : AccountMeta) (accts : List AccountMeta)
    → count_of (is_for k) (merge a accts) ≡ (
        if has_key a.pubkey accts
        then count_of (is_for k) accts
        else count_of (is_for k) (a ∷ accts))
unfolding merge
count_of-merge k a [] = refl
count_of-merge k a (x ∷ accts) = elim (Bool-cases (x.pubkey == a.pubkey)) [
  | inl e ↦ rw (e) refl
  | inr e ↦ let later = count_of-merge k a accts in ground arith
]

-- One entry for a key, at most.
abbrev pub IsUnique : List AccountMeta → Type 0
IsUnique accts = (k : String) → count_of (is_for k) accts ≤ 1

merge-IsUnique :
    (a : AccountMeta) (accts : List AccountMeta) → IsUnique accts → IsUnique (merge a accts)
merge-IsUnique a accts u k =
    let counted = count_of-merge k a accts in
    let before = u k in
    elim (Bool-cases (a.pubkey == k)) [
      | inl e ↦
          let same : has_key a.pubkey accts ≡ has_key k accts =
            ap (λ s. has_key s accts) ((string_eq.eqb_iff a.pubkey k).0 e) in
          let present = has_key-count k accts in ground arith
      | inr e ↦ ground arith
    ]

pub merge_all-IsUnique :
    (bytes : ℕ → List ℕ) (accounts accts merged : List AccountMeta)
    → IsUnique accts
    → merge_all bytes accounts accts ≡ some merged
    → IsUnique merged
unfolding merge_all
merge_all-IsUnique bytes [] accts merged u e = subst IsUnique (cc) u
merge_all-IsUnique bytes (a ∷ accounts) accts merged u e =
    merge_all-IsUnique bytes accounts (merge a accts) merged (merge-IsUnique a accts u)
      (ground arith)

pub has_key-merge_all :
    (bytes : ℕ → List ℕ) (k : String) (accounts accts merged : List AccountMeta)
    → merge_all bytes accounts accts ≡ some merged
    → has_key k merged ≡ (has_key k accts || has_key k accounts)
unfolding merge_all
has_key-merge_all bytes k [] accts merged e = ground arith
has_key-merge_all bytes k (a ∷ accounts) accts merged e =
    let later = has_key-merge_all bytes k accounts (merge a accts) merged (ground arith) in
    let now = has_key-merge k a accts in ground arith

-- A test that a merged account passes as soon as one of its parts does.
module _ (p : AccountMeta → Bool) (joins : (x a : AccountMeta) → p (join x a) ≡ (p x || p a)) where
  granted-merge :
      (k : String) (a : AccountMeta) (accts : List AccountMeta)
      → granted p k (merge a accts) ≡ granted p k (a ∷ accts)
  unfolding merge
  granted-merge k a [] = refl
  granted-merge k a (x ∷ accts) = elim (Bool-cases (x.pubkey == a.pubkey)) [
    | inl e ↦ let same = same_key x a k e in let both = joins x a in ground arith
    | inr e ↦ let later = granted-merge k a accts in ground arith
  ]

  pub granted-merge_all :
      (bytes : ℕ → List ℕ) (k : String) (accounts accts merged : List AccountMeta)
      → merge_all bytes accounts accts ≡ some merged
      → granted p k merged ≡ (granted p k accts || granted p k accounts)
  unfolding merge_all
  granted-merge_all bytes k [] accts merged e = ground arith
  granted-merge_all bytes k (a ∷ accounts) accts merged e =
      let later = granted-merge_all bytes k accounts (merge a accts) merged (ground arith) in
      let now = granted-merge k a accts in ground arith
