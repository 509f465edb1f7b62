-- ===== src/Chain/SolProgram/Keys.antt =====
-- The keys of the message of a program call of chain/tx_sol.go, in their order: the payer's first, and
-- only those of the call.
use Prim.Native.String.{String}
use teenet_wallet.Base.{
  ℕ, ◌≡◌, refl, ap, ◌∙◌, true, some, List, [], ◌∷◌, map, ◌==◌, string_eq, nat_eq, arith, All,
}
use teenet_wallet.Chain.SolProgram.{
  AccountMeta, has_key, payer, program_account, keys_of, decoded, sort, collect,
}
use teenet_wallet.Chain.SolProgram.Collecting.{has_key-collect}
use teenet_wallet.Chain.SolProgram.Counting.{has_key-sort}
use teenet_wallet.Chain.SolProgram.Payer.{collect-StartsWith}

abbrev pub Listed : String → String → List AccountMeta → String → Type 0
Listed from program accounts k =
    has_key k (program_account program ∷ (payer from ∷ accounts)) ≡ true

module _ (bytes : ℕ → List ℕ) (from program : String) (accounts accts : List AccountMeta)
    (e : collect bytes from program accounts ≡ some accts) where
  pub keys-Listed :
      (later : List AccountMeta)
      → ((k : String) → has_key k later ≡ true → has_key k (sort accts) ≡ true)
      → All (Listed from program accounts) (map (λ x. x.pubkey) later)
  keys-Listed [] h = tt
  keys-Listed (x ∷ later) h =
      let here : (x.pubkey == x.pubkey) ≡ true = (string_eq.eqb_iff x.pubkey x.pubkey).1 refl in
      let there : has_key x.pubkey (sort accts) ≡ true = h x.pubkey (ground arith) in
      let kept = has_key-sort x.pubkey accts in
      let all = has_key-collect bytes from program accounts accts e x.pubkey in
      (ground arith, keys-Listed later (λ k g. h k (ground arith)))

  -- The payer's key comes first.
  pub sorted-keys : (others : List String) × (map (λ x. x.pubkey) (sort accts) ≡ from ∷ others)
  sorted-keys =
      let (x, later, same, key, first) = collect-StartsWith bytes from program accounts accts e in
      let others = map (λ y. y.pubkey) later in
      (others, ap (map (λ y. y.pubkey)) same ∙ ap (λ k. k ∷ others) key)

pub keys_of-map :
    (bytes : ℕ → List ℕ) (accts : List AccountMeta)
    → keys_of bytes accts ≡ map (decoded bytes) (map (λ x. x.pubkey) accts)
keys_of-map bytes [] = refl
keys_of-map bytes (x ∷ accts) = ap (λ ks. decoded bytes x.pubkey ∷ ks) (keys_of-map bytes accts)
