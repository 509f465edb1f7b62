-- ===== src/Chain/EthFees.antt =====
-- The fees of an Ethereum transaction that chain/tx_eth.go raises when a node asks for it: the
-- parameters of a transaction, BumpETHGas, and the errors by which a node asks.
pub mod Laws
pub mod Tally
pub mod Encoding
mod Examples
use teenet_wallet.Base.{
  ℕ, ℤ, pos, quotient, scale, ◌+ℤ◌, lebℤ, String, Bool, ◌||◌, Option, none, some, if◌then◌else◌,
}

-- ETHTxParams. The integers that are strings in the source are decimals.
pub record EthTxParams : Type 0 where
  pub nonce : ℕ
  pub max_fee_per_gas : String
  pub max_priority_fee_per_gas : String
  pub gas_limit : ℕ
  pub chain_id : String
  pub from : String
  pub to : String
  pub value : String
  pub call_data : String
  pub gas_price : String

-- What the code uses of math/big's Int and of strings.
pub record BigInts : Type 0 where
  -- `SetString(s, 10)` and `String()`
  pub parse_int : String → Option ℤ
  pub print_int : ℤ → String
  pub to_lower : String → String
  -- The text contains the second one.
  pub contains : String → String → Bool

abbrev pub rbf_priority_fee_cap_wei : ℤ
rbf_priority_fee_cap_wei = pos 10000000000

-- The factor 125/100, rounded down, and one more; Div of math/big rounds down here, since the divisor
-- is positive.
abbrev pub bump : ℤ → ℤ
bump v = quotient (scale v 125) 99 +ℤ pos 1

module _ (ints : BigInts) where
  open ints use {parse_int, print_int, to_lower, contains}

  abbrev pub set_fees : ℤ → ℤ → EthTxParams → EthTxParams
  set_fees tip max_fee p = record p {
    max_priority_fee_per_gas = print_int tip;
    max_fee_per_gas = print_int max_fee;
  }

  abbrev pub bumped : Option ℤ → Option ℤ → EthTxParams → Option EthTxParams
  bumped none max_fee p = none
  bumped (some tip) none p = none
  bumped (some tip) (some max_fee) p =
      if lebℤ (bump tip) rbf_priority_fee_cap_wei
      then some (set_fees (bump tip) (bump max_fee) p)
      else none

  -- `none` where BumpETHGas returns false, which leaves the parameters as they are.
  unfoldable pub bump_eth_gas : EthTxParams → Option EthTxParams
  bump_eth_gas p = bumped (parse_int p.max_priority_fee_per_gas) (parse_int p.max_fee_per_gas) p

  -- The texts of the errors that a node returns.
  abbrev pub is_replacement_underpriced : String → Bool
  is_replacement_underpriced err =
      let msg : String = to_lower err in
      contains msg "replacement transaction underpriced"
      || (contains msg "replacement underpriced" || contains msg "transaction underpriced")

  abbrev pub is_nonce_too_low : String → Bool
  is_nonce_too_low err =
      let msg : String = to_lower err in
      contains msg "nonce too low" || contains msg "already known"
