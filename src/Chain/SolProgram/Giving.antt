-- ===== src/Chain/SolProgram/Giving.antt =====
-- What the message of a program call of chain/tx_sol.go gives its accounts: the keys at their
-- indices, with the privileges asked for.
use Prim.Native.String.{String}
use teenet_wallet.Base.{
  ℕ, zero, suc, ◌+◌, ◌%◌, ◌≤◌, ◌<◌, ◌≡◌, refl, ap, sym, ◌∙◌, subst, Bool, true, false, ◌||◌, some,
  List, [], ◌∷◌, map, ◌==◌, string_eq, nat_eq, arith, length,
}
use teenet_wallet.Chain.SolMessage.Reading.{Message}
use teenet_wallet.Chain.SolProgram.{
  AccountMeta, has_key, count_of, join, payer, program_account, decoded, indices, index_of, sort,
  collect,
}
use teenet_wallet.Chain.SolProgram.Encoding.{call_message}
use teenet_wallet.Chain.SolProgram.Bounds.{length-sort}
use teenet_wallet.Chain.SolProgram.Merging.{is_for}
use teenet_wallet.Chain.SolProgram.Collecting.{collect-IsUnique, has_key-collect, granted-collect}
use teenet_wallet.Chain.SolProgram.Counting.{granted, granted-sort, has_key-sort, count_of-sort}
use teenet_wallet.Chain.SolProgram.Header.{
  signs, writes, key_at, key_at-keys_of, signs-call_message, writes-call_message,
}
use teenet_wallet.Chain.SolProgram.Lookup.{index_of-found, granted_unique}
use teenet_wallet.Chain.SolProgram.Sorting.{get_elem?, sort-IsSorted}

-- Whether the payer or one of the given accounts for the key signs, or is writable.
abbrev pub asked_signer : String → List AccountMeta → String → Bool
asked_signer from accounts k = granted (λ x. x.is_signer) k (payer from ∷ accounts)

abbrev pub asked_writable : String → List AccountMeta → String → Bool
asked_writable from accounts k = granted (λ x. x.is_writable) k (payer from ∷ accounts)

-- The message has the key at the index, with the privileges asked for and no other.
abbrev pub Gives : (ℕ → List ℕ) → String → List AccountMeta → Message → String → ℕ → Type 0
Gives bytes from accounts m k i =
    (key_at m.keys i ≡ some (decoded bytes k))
    × (signs m i ≡ asked_signer from accounts k)
    × (writes m i ≡ asked_writable from accounts k)

-- The keys stand at the indices from one on.
abbrev pub GivesFrom : (ℕ → List ℕ) → String → List AccountMeta → Message → List String → ℕ → Type 0
GivesFrom bytes from accounts m [] i = Unit
GivesFrom bytes from accounts m (k ∷ ks) i =
    Gives bytes from accounts m k i × GivesFrom bytes from accounts m ks (suc i)

-- The accounts given to the instruction, one by one.
abbrev pub GivesEach :
    (ℕ → List ℕ) → String → List AccountMeta → Message → List AccountMeta → List ℕ → Type 0
GivesEach bytes from accounts m [] [] = Unit
GivesEach bytes from accounts m [] (i ∷ is) = ⊥
GivesEach bytes from accounts m (a ∷ given) [] = ⊥
GivesEach bytes from accounts m (a ∷ given) (i ∷ is) =
    Gives bytes from accounts m a.pubkey i × GivesEach bytes from accounts m given is

get_elem-lt :
    (xs : List AccountMeta) (i : ℕ) (x : AccountMeta) → get_elem? xs i ≡ some x → i < length xs
get_elem-lt [] i x e = cc
get_elem-lt (y ∷ xs) zero x e = omega arith
get_elem-lt (y ∷ xs) (suc i) x e = omega (arith, get_elem-lt xs i x e)

module _ (bytes : ℕ → List ℕ) (from program : String) (accounts : List AccountMeta)
    (instr_data blockhash : List ℕ) (accts : List AccountMeta)
    (e : collect bytes from program accounts ≡ some accts) (small : length accts ≤ 255) where
  abbrev sorted : List AccountMeta
  sorted = sort accts

  abbrev m : Message
  m = call_message bytes program accounts instr_data blockhash sorted

  sorted-small : length sorted ≤ 255
  sorted-small = subst (λ n. n ≤ 255) (sym (length-sort accts)) small

  granted-at :
      (p : AccountMeta → Bool)
      → ((x a : AccountMeta) → p (join x a) ≡ (p x || p a))
      → p (program_account program) ≡ false
      → (k : String) (i : ℕ) (x : AccountMeta) → get_elem? sorted i ≡ some x
      → is_for k x ≡ true
      → p x ≡ granted p k (payer from ∷ accounts)
  granted-at p joins without k i x at key =
      let one = collect-IsUnique bytes from program accounts accts e k in
      let still : count_of (is_for k) sorted ≤ 1 =
        subst (λ n. n ≤ 1) (sym (count_of-sort (is_for k) accts)) one in
      sym (granted_unique p k sorted i x still at key)
      ∙ granted-sort p k accts
      ∙ granted-collect bytes from program accounts accts e p joins without k

  call_message-Gives :
      (k : String) (i : ℕ) (x : AccountMeta)
      → get_elem? sorted i ≡ some x
      → is_for k x ≡ true
      → Gives bytes from accounts m k i
  call_message-Gives k i x at key =
      let same : x.pubkey ≡ k = (string_eq.eqb_iff x.pubkey k).0 key in
      let s = sort-IsSorted accts in
      (
        key_at-keys_of bytes sorted i x at ∙ ap (λ t. some (decoded bytes t)) same,
        signs-call_message bytes program accounts instr_data blockhash sorted s sorted-small i x at
            ∙ granted-at (λ y. y.is_signer) (λ y a. refl) refl k i x at key,
        writes-call_message bytes program accounts instr_data blockhash sorted s sorted-small i x at
            ∙ granted-at (λ y. y.is_writable) (λ y a. refl) refl k i x at key,
      )

  index_of-Gives :
      (k : String)
      → has_key k accts ≡ true
      → Gives bytes from accounts m k (index_of k sorted % 256)
  index_of-Gives k h =
      let (x, at, key) = index_of-found k sorted (has_key-sort k accts ∙ h) in
      let lt = get_elem-lt sorted (index_of k sorted) x at in
      let whole : index_of k sorted % 256 ≡ index_of k sorted = omega (arith, lt, sorted-small) in
      subst (Gives bytes from accounts m k) (sym whole)
        (call_message-Gives k (index_of k sorted) x at key)

  indices-GivesEach :
      (given : List AccountMeta)
      → ((k : String) → has_key k given ≡ true → has_key k accts ≡ true)
      → GivesEach bytes from accounts m given (indices sorted given)
  indices-GivesEach [] h = tt
  indices-GivesEach (a ∷ given) h =
      let here : (a.pubkey == a.pubkey) ≡ true = (string_eq.eqb_iff a.pubkey a.pubkey).1 refl in
      (
        index_of-Gives a.pubkey (h a.pubkey (ground arith)),
        indices-GivesEach given (λ k g. h k (ground arith)),
      )

  pub accounts-GivesEach : GivesEach bytes from accounts m accounts (indices sorted accounts)
  accounts-GivesEach =
      indices-GivesEach accounts
        (λ k g. let all = has_key-collect bytes from program accounts accts e k in ground arith)

  pub program-Gives : Gives bytes from accounts m program (index_of program sorted % 256)
  program-Gives =
      let all = has_key-collect bytes from program accounts accts e program in
      let here : (program == program) ≡ true = (string_eq.eqb_iff program program).1 refl in
      index_of-Gives program (ground arith)

  pub keys-GivesFrom :
      (later : List AccountMeta) (i : ℕ)
      → ((d : ℕ) → get_elem? sorted (i + d) ≡ get_elem? later d)
      → GivesFrom bytes from accounts m (map (λ x. x.pubkey) later) i
  keys-GivesFrom [] i h = tt
  keys-GivesFrom (x ∷ later) i h =
      let same : i ≡ i + 0 = omega arith in
      let at : get_elem? sorted i ≡ some x = ap (get_elem? sorted) same ∙ h 0 in
      (
        call_message-Gives x.pubkey i x at ((string_eq.eqb_iff x.pubkey x.pubkey).1 refl),
        keys-GivesFrom later (suc i) (λ d.
            let next : suc i + d ≡ i + suc d = omega arith in
            ap (get_elem? sorted) next ∙ h (suc d)),
      )
