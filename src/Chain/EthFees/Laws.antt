-- ===== src/Chain/EthFees/Laws.antt =====
-- What BumpETHGas of chain/tx_eth.go makes of the fees.
use teenet_wallet.Base.{
  ℕ, ◌+◌, ◌*◌, ◌/◌, ◌≤◌, ◌≡◌, refl, ap, ℤ, pos, lebℤ, leb, leb→le, leb-false, Option, none, some,
  inl, inr, ◌⊎◌, Bool-cases, guarded_some, sym, subst, ◌∙◌, ◌<◌, arith,
}
use teenet_wallet.Chain.EthFees.{
  EthTxParams, BigInts, bump, bumped, bump_eth_gas, set_fees, rbf_priority_fee_cap_wei,
}

-- The transaction without its nonce and its two fees: what it pays to whom on which chain.
unfoldable pub SamePayment : EthTxParams → EthTxParams → Type 0
SamePayment p q =
    (p.from ≡ q.from)
    × (p.to ≡ q.to)
    × (p.value ≡ q.value)
    × (p.call_data ≡ q.call_data)
    × (p.chain_id ≡ q.chain_id)
    × (p.gas_limit ≡ q.gas_limit)

-- A fee and the greater one that replaces it.
abbrev pub Raises : ℕ → ℕ → Type 0
Raises old new = (old < new) × (9 * old ≤ 8 * new)

-- `bump` on the numbers from 0.
abbrev pub bump_nat : ℕ → ℕ
bump_nat a = a * 125 / 100 + 1

bump_nat-Raises : (a : ℕ) → Raises a (bump_nat a)
bump_nat-Raises a = (omega arith, omega arith)

module _ (ints : BigInts) where
  open ints use {parse_int, print_int}

  bumped-SamePayment :
      (p q : EthTxParams) (tip max_fee : Option ℤ)
      → bumped ints tip max_fee p ≡ some q
      → SamePayment p q
  unfolding SamePayment
  bumped-SamePayment p q none max_fee e = cc
  bumped-SamePayment p q (some tip) none e = cc
  bumped-SamePayment p q (some tip) (some max_fee) e =
      let (_, same) = guarded_some (lebℤ (bump tip) rbf_priority_fee_cap_wei) _ q e in
      (
        ap (λ r. r.from) same,
        ap (λ r. r.to) same,
        ap (λ r. r.value) same,
        ap (λ r. r.call_data) same,
        ap (λ r. r.chain_id) same,
        ap (λ r. r.gas_limit) same,
      )

  pub bump_eth_gas-SamePayment :
      (p q : EthTxParams) → bump_eth_gas ints p ≡ some q → SamePayment p q
  unfolding bump_eth_gas
  bump_eth_gas-SamePayment p q e =
      bumped-SamePayment p q (parse_int p.max_priority_fee_per_gas) (parse_int p.max_fee_per_gas) e

  -- The fees of the second transaction replace those of the first one.
  abbrev pub RaisesFees : ℕ → ℕ → EthTxParams → Type 0
  RaisesFees tip max_fee q =
      (new_tip : ℕ) × (new_max_fee : ℕ) × (parse_int q.max_priority_fee_per_gas
        ≡ some (pos new_tip))
      × (parse_int q.max_fee_per_gas ≡ some (pos new_max_fee))
      × Raises tip new_tip
      × (new_tip ≤ 10000000000)
      × Raises max_fee new_max_fee

  bumped-RaisesFees :
      (p q : EthTxParams) (tip max_fee : ℕ)
      → ((z : ℤ) → parse_int (print_int z) ≡ some z)
      → bumped ints (some (pos tip)) (some (pos max_fee)) p ≡ some q
      → RaisesFees tip max_fee q
  bumped-RaisesFees p q tip max_fee prints e =
      let (fits, same) = guarded_some (lebℤ (bump (pos tip)) rbf_priority_fee_cap_wei) _ q e in
      subst (RaisesFees tip max_fee) same (
        bump_nat tip,
        bump_nat max_fee,
        prints (pos (bump_nat tip)),
        prints (pos (bump_nat max_fee)),
        bump_nat-Raises tip,
        leb→le _ _ fits,
        bump_nat-Raises max_fee,
      )

  bump_eth_gas-parsed :
      (p : EthTxParams) (tip max_fee : ℤ)
      → parse_int p.max_priority_fee_per_gas ≡ some tip
      → parse_int p.max_fee_per_gas ≡ some max_fee
      → bump_eth_gas ints p ≡ bumped ints (some tip) (some max_fee) p
  unfolding bump_eth_gas
  bump_eth_gas-parsed p tip max_fee t m = rw (bump_eth_gas, t, m) refl

  -- Where integers are read back as they were printed and the fees of a transaction are numbers from
  -- 0, BumpETHGas gives up if the raised tip is above 10 gwei, and if not it makes a transaction of
  -- the same payment in which both fees have grown, by an eighth at least, and the tip is at most 10
  -- gwei.
  pub bump_eth_gas_lem :
      (p : EthTxParams) (tip max_fee : ℕ)
      → ((z : ℤ) → parse_int (print_int z) ≡ some z)
      → parse_int p.max_priority_fee_per_gas ≡ some (pos tip)
      → parse_int p.max_fee_per_gas ≡ some (pos max_fee)
      → ((10000000000 < bump_nat tip) × (bump_eth_gas ints p ≡ none))
        ⊎ ((q : EthTxParams) × (bump_eth_gas ints p ≡ some q)
            × SamePayment p q
            × RaisesFees tip max_fee q)
  bump_eth_gas_lem p tip max_fee prints t m =
      let parsed = bump_eth_gas-parsed p (pos tip) (pos max_fee) t m in
      elim (Bool-cases (leb (bump_nat tip) 10000000000)) [
        | inr over ↦ inl (leb-false _ _ over, parsed ∙ rw over refl)
        | inl fits ↦
            let q : EthTxParams = set_fees ints (bump (pos tip)) (bump (pos max_fee)) p in
            let e : bump_eth_gas ints p ≡ some q = parsed ∙ rw fits refl in
            inr (
              q,
              e,
              bump_eth_gas-SamePayment p q e,
              bumped-RaisesFees p q tip max_fee prints (sym parsed ∙ e),
            )
      ]
