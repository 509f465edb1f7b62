-- ===== src/Chain/SolProgram/Lookup.antt =====
-- The index map of buildSOLProgramCallMessage of chain/tx_sol.go: the place of a key, and what stands
-- there.
use Prim.Native.String.{String}
use teenet_wallet.Base.{
  ℕ, zero, suc, ◌+◌, ◌≤◌, ◌≡◌, refl, sym, subst, inl, inr, Bool, true, false, none, some, List, [],
  ◌∷◌, string_eq, arith, Bool-cases, nat_eq,
}
use teenet_wallet.Chain.SolProgram.{AccountMeta, has_key, last_index, index_of, count_of}
use teenet_wallet.Chain.SolProgram.Counting.{granted, has_key-count}
use teenet_wallet.Chain.SolProgram.Merging.{is_for}
use teenet_wallet.Chain.SolProgram.Sorting.{get_elem?}

last_index-none :
    (k : String) (i : ℕ) (accts : List AccountMeta)
    → has_key k accts ≡ false
    → last_index k i accts ≡ none
last_index-none k i [] h = refl
last_index-none k i (x ∷ accts) h =
    let later = last_index-none k (suc i) accts (ground arith) in ground arith

last_index-found :
    (k : String) (i : ℕ) (accts : List AccountMeta)
    → has_key k accts ≡ true
    → (d : ℕ) × (x : AccountMeta) × (last_index k i accts ≡ some (i + d))
      × (get_elem? accts d ≡ some x)
      × (is_for k x ≡ true)
last_index-found k i [] h = cc
last_index-found k i (x ∷ accts) h = elim (Bool-cases (has_key k accts)) [
  | inl later ↦
      let (d, y, at, got, key) = last_index-found k (suc i) accts later in
      (suc d, y, rw (at) ground arith, got, key)
  | inr no_later ↦
      let here : is_for k x ≡ true = ground arith in
      (0, x, rw (last_index-none k (suc i) accts no_later, here) ground arith, refl, here)
]

pub index_of-found :
    (k : String) (accts : List AccountMeta)
    → has_key k accts ≡ true
    → (x : AccountMeta) × (get_elem? accts (index_of k accts) ≡ some x) × (is_for k x ≡ true)
index_of-found k accts h =
    let (d, x, at, got, key) = last_index-found k 0 accts h in
    let place : index_of k accts ≡ d = ground arith in
    (x, subst (λ i. get_elem? accts i ≡ some x) (sym place) got, key)

granted-absent :
    (p : AccountMeta → Bool) (k : String) (accts : List AccountMeta)
    → has_key k accts ≡ false
    → granted p k accts ≡ false
granted-absent p k [] h = refl
granted-absent p k (x ∷ accts) h = ground (arith, granted-absent p k accts (ground arith))

pub get_elem-has_key :
    (k : String) (accts : List AccountMeta) (i : ℕ) (x : AccountMeta)
    → get_elem? accts i ≡ some x
    → is_for k x ≡ true
    → has_key k accts ≡ true
get_elem-has_key k [] i x e key = cc
get_elem-has_key k (y ∷ accts) zero x e key =
    let same : x ≡ y = cc in
    let here : is_for k y ≡ true = subst (λ z. is_for k z ≡ true) same key in ground arith
get_elem-has_key k (y ∷ accts) (suc i) x e key =
    let later = get_elem-has_key k accts i x e key in ground arith

-- The only entry for a key has what the key is granted.
pub granted_unique :
    (p : AccountMeta → Bool) (k : String) (accts : List AccountMeta) (i : ℕ) (x : AccountMeta)
    → count_of (is_for k) accts ≤ 1
    → get_elem? accts i ≡ some x
    → is_for k x ≡ true
    → granted p k accts ≡ p x
granted_unique p k [] i x u e key = cc
granted_unique p k (y ∷ accts) zero x u e key =
    let same : x ≡ y = cc in
    let here : is_for k y ≡ true = subst (λ z. is_for k z ≡ true) same key in
    let counted = has_key-count k accts in
    let alone : has_key k accts ≡ false = ground arith in
    let absent = granted-absent p k accts alone in
    subst (λ z. granted p k (y ∷ accts) ≡ p z) (sym same) (ground arith)
granted_unique p k (y ∷ accts) (suc i) x u e key =
    let counted = has_key-count k accts in
    let later = get_elem-has_key k accts i x e key in
    let other : is_for k y ≡ false = ground arith in
    let rest = granted_unique p k accts i x (ground arith) e key in ground arith
