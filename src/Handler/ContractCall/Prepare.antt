-- ===== src/Handler/ContractCall/Prepare.antt =====
-- The checks of handler/contract_call.go and the calls that it builds, before the security decision.
use teenet_wallet.Base.{
  ℕ, ◌^◌, ℤ, pos, String, Bool, true, false, not, ◌&&◌, Option, none, some, List, [], ◌∷◌, inl, inr,
  ◌⊎◌, if◌then◌else◌, ◌==◌, nat_eq, string_eq, ltb, ◌>>=◌, ◌>>◌, demand, require,
}
use teenet_wallet.Model.{AllowedContract, Wallet}
use teenet_wallet.Chain.Base58.{base58_decode}
use teenet_wallet.Chain.Abi.Outcome.{AbiResult, ok, refused, panicked, out_of_fuel}
use teenet_wallet.Chain.Abi.Texts.{Text, cut}
use teenet_wallet.Chain.Abi.Words.{Args}
use teenet_wallet.Chain.Abi.Encode.{AbiTools, encode_call}
use teenet_wallet.Chain.Abi.Erc20.{encode_erc20_approve}
use teenet_wallet.Handler.DailyLimit.{BigFloat}
use teenet_wallet.Handler.Approval.World.{Tables, World}
use teenet_wallet.Handler.Requests.{Caller, load_user_wallet}
use teenet_wallet.Handler.Contract.Address.{AddressTools, normalize_evm_address}
use teenet_wallet.Handler.Spend.{Money}
use teenet_wallet.Handler.Transfer.Build.{ChainConfig, find_allowed, or_default}
use teenet_wallet.Handler.ContractCall.{BuiltCall}

pub record SolAccountMeta : Type 0 where
  pub pubkey : String
  pub is_signer : Bool
  pub is_writable : Bool

-- The body of a contract call; its signature and arguments are bytes, as the ABI encoder reads them.
pub record ContractCallRequest : Type 0 where
  pub contract : String
  pub func_sig : Text
  pub args : Args
  pub value : String
  pub memo : String
  pub accounts : List SolAccountMeta
  pub instruction_data : String

pub record ApproveTokenRequest : Type 0 where
  pub contract : String
  pub spender : String
  pub amount : String

-- What these handlers call: the registry of chains, the bytes of a text, the builders of the chain package
-- over RPC, with the JSON of the parameters and the message, the prices and encoding/json, whose errors for
-- contexts are ignored. `none` is an error.
pub record CallTools (fl : BigFloat) (m : Money fl) : Type 0 where
  pub get_chain : String → Option ChainConfig
  pub bytes_of : String → Text
  pub hex_bytes : String → Option (List ℕ)
  -- The number times the factor, rounded towards zero; `none` if it is infinite.
  pub whole_units : fl.Num → ℕ → Option ℕ
  -- By the sender, the contract, the call data and the value.
  pub build_eth_contract_call_tx :
      String → String → List ℕ → Option ℕ → Option (Option String × String)
  pub build_sol_program_call_tx :
      String → String → List SolAccountMeta → List ℕ → Option (String × String)
  pub has_prices : Bool
  -- A price above zero.
  pub usd_price : String → Option m.Price
  pub marshal_call : Wallet → String → ContractCallRequest → Option m.Usd → String
  pub marshal_program : Wallet → String → ContractCallRequest → String
  pub marshal_approve : Wallet → String → String → String → AllowedContract → String → String

module _ {fl : BigFloat} (m : Money fl) (addresses : AddressTools) (abi : AbiTools)
    (tools : CallTools fl m) (by : Caller) where
  -- A panic is answer_call with 500.
  abbrev pub calldata_or : AbiResult (List ℕ) → List ℕ ⊎ ℕ
  calldata_or (ok calldata) = inl calldata
  calldata_or refused = inr 400
  calldata_or panicked = inr 500
  calldata_or out_of_fuel = inr 500

  abbrev pub is_empty : Text → Bool
  is_empty [] = true
  is_empty (c ∷ s) = false

  -- extractMethodName, which only the messages and the context use.
  unfoldable pub extract_method_name : Text → Option Text
  extract_method_name func_sig = elim (cut b'(' func_sig) [
    | none ↦ none
    | some (front, back) ↦
        if is_empty front
        then none
        else (let name = abi.trim_space front in if is_empty name then none else some name)
  ]

  -- A number that is not negative; wei are `none` for zero and, as in the code, for infinity.
  abbrev pub not_negative : String → Option fl.Num
  not_negative text = elim (fl.parse text) [
    | none ↦ none
    | some x ↦ if fl.is_negative x then none else some x
  ]

  abbrev pub wei_of : fl.Num → Option ℕ
  wei_of x = if fl.is_positive x then tools.whole_units x (10 ^ 18) else none

  abbrev pub parse_value : String → Option (Option ℕ)
  parse_value value =
      if value == ""
      then some none
      else elim (not_negative value) [ none ↦ none | some x ↦ some (wei_of x) ]

  abbrev pub known_usd : m.Usd → Option m.Usd
  known_usd usd = if m.above_zero usd then some usd else none

  abbrev pub usd_at : Option fl.Num → Option m.Price → Option m.Usd
  usd_at none price = none
  usd_at (some x) none = none
  usd_at (some x) (some price) = known_usd (m.times x price)

  -- effectiveUSD, where zero is `none`.
  unfoldable pub effective_usd : ChainConfig → String → Option ℕ → Option m.Usd
  effective_usd chain value none = none
  effective_usd chain value (some wei) =
      if tools.has_prices && ltb 0 wei
      then usd_at (fl.parse value) (tools.usd_price chain.currency)
      else none

  abbrev pub is_base58_text : String → Bool
  is_base58_text s = elim (base58_decode addresses.big_bytes s) [ none ↦ false | some bytes ↦ true ]

  abbrev pub all_base58 : List SolAccountMeta → Bool
  all_base58 [] = true
  all_base58 (a ∷ accounts) = is_base58_text a.pubkey && all_base58 accounts

  abbrev pub has_accounts : List SolAccountMeta → Bool
  has_accounts [] = false
  has_accounts (a ∷ accounts) = true

  -- The allowance in the token's smallest unit. An infinite amount panics.
  abbrev pub units : AllowedContract → fl.Num → ℤ ⊎ ℕ
  units row x = elim (tools.whole_units x (10 ^ or_default row.decimals 18)) [
    | none ↦ inr 500
    | some n ↦ inl (pos n)
  ]

  abbrev pub token_amount : AllowedContract → String → ℤ ⊎ ℕ
  token_amount row amount =
      if amount == "0" then inl (pos 0) else (require (not_negative amount) 400 >>= units row)

  module _ {t : Tables} where
    -- contractCallEVM, up to the security decision. A body that does not bind is `none`.
    unfoldable pub prepare_evm :
        Wallet → ChainConfig → Option ContractCallRequest → World t → BuiltCall m ⊎ ℕ
    unfolding effective_usd extract_method_name
    prepare_evm wallet chain body w = do
      req ← require body 400
      demand (not (is_empty req.func_sig)) 400
      contract ← require (normalize_evm_address addresses req.contract) 400
      row ← require (find_allowed wallet contract w) 403
      name ← require (extract_method_name req.func_sig) 400
      calldata ← calldata_or (encode_call abi req.func_sig req.args)
      value ← require (parse_value req.value) 400
      tx ← require (tools.build_eth_contract_call_tx wallet.address contract calldata value) 422
      params ← require tx.0 500
      let usd = effective_usd chain req.value value
      inl (record {
        wallet = wallet;
        message = tx.1;
        params = params;
        context = tools.marshal_call wallet contract req usd;
        value_usd = usd;
        action = "contract_call";
        is_program = false;
      })

    -- contractCallSolana, up to the security decision.
    unfoldable pub prepare_solana : Wallet → Option ContractCallRequest → World t → BuiltCall m ⊎ ℕ
    prepare_solana wallet body w = do
      req ← require body 400
      let program = addresses.trim_space req.contract
      demand (is_base58_text program) 400
      row ← require (find_allowed wallet program w) 403
      instr ← require (tools.hex_bytes req.instruction_data) 400
      demand (has_accounts req.accounts) 400
      demand (all_base58 req.accounts) 400
      tx ← require (tools.build_sol_program_call_tx wallet.address program req.accounts instr) 422
      inl (record {
        wallet = wallet;
        message = tx.1;
        params = tx.0;
        context = tools.marshal_program wallet program req;
        value_usd = none;
        action = "contract_call";
        is_program = true;
      })

    abbrev pub prepare_family :
        Wallet → ChainConfig → Option ContractCallRequest → World t → BuiltCall m ⊎ ℕ
    prepare_family wallet chain body w =
        if chain.family == "evm"
        then prepare_evm wallet chain body w
        else if chain.family == "solana"
        then prepare_solana wallet body w
        else inr 400

    unfoldable pub prepare_call : String → Option ContractCallRequest → World t → BuiltCall m ⊎ ℕ
    prepare_call id body w = do
      wallet ← load_user_wallet by id w
      demand (wallet.status == "ready") 400
      chain ← require (tools.get_chain wallet.chain) 400
      prepare_family wallet chain body w

    -- executeApprove, up to the security decision; RevokeApproval approves zero.
    unfoldable pub prepare_approve :
        String → Option ApproveTokenRequest → String → World t → BuiltCall m ⊎ ℕ
    prepare_approve id body action w = do
      req ← require body 400
      wallet ← load_user_wallet by id w
      demand (wallet.status == "ready") 400
      chain ← require (tools.get_chain wallet.chain) 400
      demand (chain.family == "evm") 400
      contract ← require (normalize_evm_address addresses req.contract) 400
      spender ← require (normalize_evm_address addresses req.spender) 400
      row ← require (find_allowed wallet contract w) 403
      amount ← token_amount row req.amount
      calldata ← calldata_or (encode_erc20_approve abi (tools.bytes_of spender) amount)
      tx ← require (tools.build_eth_contract_call_tx wallet.address contract calldata none) 422
      params ← require tx.0 500
      inl (record {
        wallet = wallet;
        message = tx.1;
        params = params;
        context = tools.marshal_approve wallet contract spender req.amount row action;
        value_usd = none;
        action = action;
        is_program = false;
      })

-- The routes of handler/contract_call.go: the body is `none` if its JSON does not bind.
pub data CallRequest : Type 0 where
  call_contract : Option ContractCallRequest → CallRequest
  approve_token : Option ApproveTokenRequest → CallRequest
  -- The contract and the spender.
  revoke_approval : Option (String × String) → CallRequest

abbrev pub revoking : Option (String × String) → Option ApproveTokenRequest
revoking none = none
revoking (some (contract, spender)) =
    some (record { contract = contract; spender = spender; amount = "0" })

module _ {fl : BigFloat} (m : Money fl) (addresses : AddressTools) (abi : AbiTools)
    (tools : CallTools fl m) (by : Caller) {t : Tables} where
  unfoldable pub prepare_request : String → CallRequest → World t → BuiltCall m ⊎ ℕ
  prepare_request id (call_contract body) w = prepare_call m addresses abi tools by id body w
  prepare_request id (approve_token body) w =
      prepare_approve m addresses abi tools by id body "approve_token" w
  prepare_request id (revoke_approval body) w =
      prepare_approve m addresses abi tools by id (revoking body) "revoke_approval" w
