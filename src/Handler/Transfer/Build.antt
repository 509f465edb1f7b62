-- ===== src/Handler/Transfer/Build.antt =====
-- The transaction that Transfer of handler/wallet.go builds, by the family of the chain and with or
-- without a token.
use teenet_wallet.Base.{
  ℕ, ◌+◌, ◌^◌, ◌%◌, ℤ, pos, scale, ◌+ℤ◌, String, Bool, true, false, not, ◌&&◌, Option, none, some,
  inl, inr, ◌⊎◌, if◌then◌else◌, ◌==◌, nat_eq, string_eq, ltb, ◌>>=◌, ◌>>◌, demand, require,
}
use teenet_wallet.Db.{Found, found, missing, failed}
use teenet_wallet.Model.{AllowedContract, Wallet}
use teenet_wallet.Chain.Base58.{base58_decode}
use teenet_wallet.Chain.EthFees.{EthTxParams, BigInts}
use teenet_wallet.Handler.DailyLimit.{BigFloat}
use teenet_wallet.Handler.Approval.World.{Tables, World}
use teenet_wallet.Handler.Contract.Address.{AddressTools, normalize_evm_address}

-- The fields of model.ChainConfig that the handler reads.
pub record ChainConfig : Type 0 where
  pub name : String
  pub currency : String
  pub family : String

pub record TokenParams : Type 0 where
  pub contract : String
  pub decimals : ℤ
  pub symbol : String

-- The message to sign and the JSON of the parameters, the currency, the kind of transaction, the
-- recipient in the form that is used, the contract of the token, which is empty for a native
-- transfer, and the native amount that the wallet must hold.
pub record Built : Type 0 where
  pub message : String
  pub params : String
  pub currency : String
  pub tx_type : String
  pub to : String
  pub contract : String
  pub required : ℤ

-- The builders of the chain package, which ask a node, as they answer during one request, and the
-- arithmetic of math/big's Float; `none` is an error.
pub record Builders (fl : BigFloat) : Type 1 where
  -- The amount times the factor, rounded to an integer towards zero; `none` if it is infinite.
  pub whole_units : fl.Num → ℕ → Option ℕ
  -- The amount times 10^9 as a uint64, rounded towards zero and cut at both ends of the range.
  pub lamports : fl.Num → ℕ
  pub encode_erc20_transfer : String → ℕ → Option String
  -- The parameters and their signing hash, by the sender, the contract and the call data.
  pub build_eth_contract_call_tx : String → String → String → Option (EthTxParams × String)
  pub build_eth_tx : String → String → fl.Num → Option (EthTxParams × String)
  -- The JSON of the parameters and the message, by the sender, the recipient, the mint, the units
  -- and the decimals.
  pub build_sol_token_transfer_tx : String → String → String → ℕ → ℕ → Option (String × String)
  pub build_sol_tx : String → String → ℕ → Option (String × String)
  pub marshal_params : EthTxParams → Option String
  -- The balance of an address in the smallest unit, as a decimal.
  pub get_balance : String → Option String

abbrev pub sol_baseline_fee_lamports : ℕ
sol_baseline_fee_lamports = 5000

abbrev pub whitelisted : Wallet → String → ℕ → AllowedContract → Bool
whitelisted wallet address key c =
    (c.user_id == wallet.user_id) && ((c.chain == wallet.chain) && (c.contract_address == address))

abbrev pub allowed_row : Found (ℕ × AllowedContract) → Option AllowedContract
allowed_row (found (key, c)) = some c
allowed_row missing = none
allowed_row failed = none

-- The row of the whitelist for a token of the wallet's owner on the wallet's chain.
unfoldable pub find_allowed : {t : Tables} → Wallet → String → World t → Option AllowedContract
find_allowed {t} wallet address w =
    allowed_row (t.contracts.find (whitelisted wallet address) w.contracts)

abbrev pub or_default : ℕ → ℕ → ℕ
or_default d fallback = if d == 0 then fallback else d

-- The decimals of an SPL token: the whitelist's, or the request's, or 9.
abbrev pub spl_decimals : ℕ → ℤ → ℕ
spl_decimals d (pos n) = or_default (or_default d n) 9
spl_decimals d _ = or_default d 9

-- ethGasCost
abbrev pub eth_gas_cost : BigInts → EthTxParams → ℤ
eth_gas_cost ints p = elim (ints.parse_int p.max_fee_per_gas) [
  | none ↦ pos 0
  | some fee ↦ scale fee p.gas_limit
]

module _ (tools : AddressTools) (ints : BigInts) where
  abbrev pub symbol_or : AllowedContract → TokenParams → String
  symbol_or allowed token =
      let own = tools.to_upper allowed.symbol in
      if own == "" then tools.to_upper token.symbol else own

  abbrev pub is_base58 : String → Bool
  is_base58 s = elim (base58_decode tools.big_bytes s) [ none ↦ false | some bytes ↦ true ]

  module _ {fl : BigFloat} (builders : Builders fl) {t : Tables} (w : World t) (wallet : Wallet)
      (chain : ChainConfig) (amount : fl.Num) where
    -- An infinite amount makes a nil big.Int, whose use panics: gin's recovery answers 500.
    unfoldable pub build_erc20 : String → TokenParams → Built ⊎ ℕ
    build_erc20 to token = do
      let contract = tools.to_lower (tools.trim_space token.contract)
      allowed ← require (find_allowed wallet contract w) 403
      units ← require (builders.whole_units amount (10 ^ or_default allowed.decimals 18)) 500
      demand (not (units == 0)) 400
      demand (ltb units (2 ^ 256)) 400
      call_data ← require (builders.encode_erc20_transfer to units) 400
      tx ← require (builders.build_eth_contract_call_tx wallet.address contract call_data) 422
      json ← require (builders.marshal_params tx.0) 500
      inl (record {
        message = tx.1;
        params = json;
        currency = symbol_or allowed token;
        tx_type = "erc20_transfer";
        to = to;
        contract = contract;
        required = eth_gas_cost ints tx.0;
      })

    unfoldable pub build_eth : String → Built ⊎ ℕ
    build_eth to = do
      tx ← require (builders.build_eth_tx wallet.address to amount) 422
      json ← require (builders.marshal_params tx.0) 500
      value ← require (ints.parse_int tx.0.value) 500
      inl (record {
        message = tx.1;
        params = json;
        currency = chain.currency;
        tx_type = "transfer";
        to = to;
        contract = "";
        required = value +ℤ eth_gas_cost ints tx.0;
      })

    unfoldable pub build_spl : String → TokenParams → Built ⊎ ℕ
    build_spl to token = do
      let mint = tools.trim_space token.contract
      demand (is_base58 mint) 400
      demand (is_base58 to) 400
      allowed ← require (find_allowed wallet mint w) 403
      let decimals = spl_decimals allowed.decimals token.decimals
      units ← require (builders.whole_units amount (10 ^ decimals)) 500
      demand (not (units == 0) && ltb units (2 ^ 64)) 400
      tx ← require (builders.build_sol_token_transfer_tx wallet.address to mint units decimals) 422
      inl (record {
        message = tx.1;
        params = tx.0;
        currency = symbol_or allowed token;
        tx_type = "spl_transfer";
        to = to;
        contract = mint;
        required = pos sol_baseline_fee_lamports;
      })

    -- The amount with the fee wraps around, as a uint64.
    unfoldable pub build_sol : String → Built ⊎ ℕ
    build_sol to = do
      demand (is_base58 to) 400
      let lamports = builders.lamports amount
      demand (not (lamports == 0)) 400
      tx ← require (builders.build_sol_tx wallet.address to lamports) 422
      inl (record {
        message = tx.1;
        params = tx.0;
        currency = chain.currency;
        tx_type = "transfer";
        to = to;
        contract = "";
        required = pos ((lamports + sol_baseline_fee_lamports) % 2 ^ 64);
      })

    abbrev pub build_evm : String → Option TokenParams → Built ⊎ ℕ
    build_evm to none = build_eth to
    build_evm to (some token) = build_erc20 to token

    abbrev pub build_solana : String → Option TokenParams → Built ⊎ ℕ
    build_solana to none = build_sol to
    build_solana to (some token) = build_spl to token

    unfoldable pub build : String → Option TokenParams → Built ⊎ ℕ
    build to token =
        if chain.family == "evm"
        then (require (normalize_evm_address tools to) 400 >>= λ normal. build_evm normal token)
        else if chain.family == "solana"
        then build_solana to token
        else inr 400
