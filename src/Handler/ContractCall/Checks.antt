-- ===== src/Handler/ContractCall/Checks.antt =====
-- What a request has passed when handler/contract_call.go has built a call for it.
use teenet_wallet.Base.{
  ℕ, ◌≡◌, ap, subst, String, true, false, Option, none, some, List, inl, inr, inl_inj, ◌⊎◌,
  if◌then◌else◌, ◌==◌, string_eq, bind_ind, demand_ind, require_ind, not, Bool-cases,
}
use teenet_wallet.Model.{AllowedContract, Wallet}
use teenet_wallet.Chain.Abi.Encode.{AbiTools, encode_call}
use teenet_wallet.Chain.Abi.Erc20.{encode_erc20_approve}
use teenet_wallet.Handler.DailyLimit.{BigFloat}
use teenet_wallet.Handler.Approval.World.{Tables, World}
use teenet_wallet.Handler.Facts.{IsOwned, load_user_wallet-IsOwned, IsListed, find_allowed-IsListed}
use teenet_wallet.Handler.Requests.{Caller, load_user_wallet}
use teenet_wallet.Handler.Contract.Address.{AddressTools, normalize_evm_address}
use teenet_wallet.Handler.Spend.{Money}
use teenet_wallet.Handler.Transfer.Build.{ChainConfig, find_allowed}
use teenet_wallet.Handler.ContractCall.{BuiltCall}
use teenet_wallet.Handler.ContractCall.Prepare.{
  SolAccountMeta, ContractCallRequest, ApproveTokenRequest, CallTools, calldata_or, is_empty,
  extract_method_name, parse_value, is_base58_text, has_accounts, all_base58, prepare_evm,
  prepare_solana, prepare_family, prepare_call, token_amount, prepare_approve, CallRequest,
  call_contract, approve_token, revoke_approval, prepare_request,
}

-- The contract that a request names.
abbrev contract_of_call : Option ContractCallRequest → Option String
contract_of_call none = none
contract_of_call (some req) = some req.contract

abbrev contract_of_approve : Option ApproveTokenRequest → Option String
contract_of_approve none = none
contract_of_approve (some req) = some req.contract

abbrev pub contract_of : CallRequest → Option String
contract_of (call_contract body) = contract_of_call body
contract_of (approve_token body) = contract_of_approve body
contract_of (revoke_approval none) = none
contract_of (revoke_approval (some (contract, spender))) = some contract

-- The address by which the whitelist knows a contract.
abbrev pub address_on : AddressTools → ChainConfig → String → Option String
address_on addresses chain raw =
    if chain.family == "evm"
    then normalize_evm_address addresses raw
    else some (addresses.trim_space raw)

-- The call signs and sends what a builder made for the wallet and the address.
abbrev pub IsBuiltFor :
    {fl : BigFloat} (m : Money fl) → CallTools fl m → BuiltCall m → String → Type 0
IsBuiltFor m tools c address =
    ((calldata : List ℕ) × (value : Option ℕ) × (tools.build_eth_contract_call_tx c.wallet.address
          address calldata value
        ≡ some (some c.params, c.message)))
    ⊎ ((accounts : List SolAccountMeta) × (instr : List ℕ) × (tools.build_sol_program_call_tx
            c.wallet.address address accounts instr
          ≡ some (c.params, c.message)))

module _ {fl : BigFloat} (m : Money fl) (addresses : AddressTools) (abi : AbiTools)
    (tools : CallTools fl m) (by : Caller) {t : Tables} where
  -- The caller's ready wallet, a contract on the whitelist of its owner for its chain, and the transaction
  -- that was built.
  pub record CallChecks (id : String) (raw : Option String) (w : World t) (c : BuiltCall m)
      : Type 0 where
    pub contract : String
    pub named : raw ≡ some contract
    pub chain : ChainConfig
    pub address : String
    pub row : AllowedContract
    pub owned : IsOwned by id w c.wallet
    pub ready : (c.wallet.status == "ready") ≡ true
    pub chain_known : tools.get_chain c.wallet.chain ≡ some chain
    pub normal : address_on addresses chain contract ≡ some address
    pub listed : IsListed w c.wallet address row
    pub built : IsBuiltFor m tools c address

  module _ (id : String) (w : World t) (wallet : Wallet) (chain : ChainConfig)
      (owned : load_user_wallet by id w ≡ inl wallet) (ready : (wallet.status == "ready") ≡ true)
      (known : tools.get_chain wallet.chain ≡ some chain) where
    prepare_evm-CallChecks :
        (body : Option ContractCallRequest) (c : BuiltCall m)
        → (chain.family == "evm") ≡ true
        → prepare_evm m addresses abi tools by wallet chain body w ≡ inl c
        → CallChecks id (contract_of_call body) w c
    unfolding prepare_evm
    prepare_evm-CallChecks body c evm e = require_ind body _ e λ req bound e1.
        demand_ind (not (is_empty m addresses abi tools by req.func_sig)) _ e1 λ has_sig e2.
          require_ind (normalize_evm_address addresses req.contract) _ e2 λ address norm e3.
            require_ind (find_allowed wallet address w) _ e3 λ row listed e4.
              require_ind (extract_method_name m addresses abi tools by req.func_sig) _ e4
                λ name called e5.
                  bind_ind
                    (calldata_or m addresses abi tools by (encode_call abi req.func_sig req.args))
                    e5
                    λ calldata enc e6.
                      require_ind (parse_value m addresses abi tools by req.value) _ e6
                        λ value val e7.
                          require_ind
                            (tools.build_eth_contract_call_tx wallet.address address calldata value)
                            _ e7
                            λ tx made e8. require_ind tx.0 _ e8 λ params marshalled e9.
                              subst (CallChecks id (contract_of_call body) w) (inl_inj _ c e9)
                                (record {
                                  contract = req.contract;
                                  named = ap contract_of_call bound;
                                  chain = chain;
                                  address = address;
                                  row = row;
                                  owned = load_user_wallet-IsOwned by id w _ owned;
                                  ready = ready;
                                  chain_known = known;
                                  normal = rw evm norm;
                                  listed = find_allowed-IsListed w _ _ _ listed;
                                  built = inl (
                                    calldata,
                                    value,
                                    subst
                                        (λ q.
                                          tools.build_eth_contract_call_tx wallet.address address
                                            calldata value
                                          ≡ some (q, tx.1))
                                        marshalled made,
                                  );
                                })

    prepare_solana-CallChecks :
        (body : Option ContractCallRequest) (c : BuiltCall m)
        → (chain.family == "evm") ≡ false
        → prepare_solana m addresses abi tools by wallet body w ≡ inl c
        → CallChecks id (contract_of_call body) w c
    unfolding prepare_solana
    prepare_solana-CallChecks body c other e = require_ind body _ e λ req bound e1.
        let program : String = addresses.trim_space req.contract in
        demand_ind (is_base58_text m addresses abi tools by program) _ e1 λ base58 e2.
          require_ind (find_allowed wallet program w) _ e2 λ row listed e3.
            require_ind (tools.hex_bytes req.instruction_data) _ e3 λ instr decoded e4.
              demand_ind (has_accounts m addresses abi tools by req.accounts) _ e4
                λ some_account e5.
                  demand_ind (all_base58 m addresses abi tools by req.accounts) _ e5 λ keys e6.
                    require_ind
                      (tools.build_sol_program_call_tx wallet.address program req.accounts instr) _
                      e6
                      λ tx made e7.
                        subst (CallChecks id (contract_of_call body) w) (inl_inj _ c e7) (record {
                          contract = req.contract;
                          named = ap contract_of_call bound;
                          chain = chain;
                          address = program;
                          row = row;
                          owned = load_user_wallet-IsOwned by id w _ owned;
                          ready = ready;
                          chain_known = known;
                          normal = rw other;
                          listed = find_allowed-IsListed w _ _ _ listed;
                          built = inr (req.accounts, instr, made);
                        })

    prepare_family-CallChecks :
        (body : Option ContractCallRequest) (c : BuiltCall m)
        → prepare_family m addresses abi tools by wallet chain body w ≡ inl c
        → CallChecks id (contract_of_call body) w c
    prepare_family-CallChecks body c e = elim (Bool-cases (chain.family == "evm")) [
      | inl evm ↦ prepare_evm-CallChecks body c evm (rw evm at e)
      | inr other ↦ elim (Bool-cases (chain.family == "solana")) [
        | inl solana ↦ prepare_solana-CallChecks body c other (rw (other, solana) at e)
        | inr neither ↦
            let refusal : ◌≡◌ {A = BuiltCall m ⊎ ℕ} (inr 400) (inl c) = rw (other, neither) at e in
            cc
      ]
    ]

  prepare_call-CallChecks :
      (id : String) (body : Option ContractCallRequest) (w : World t) (c : BuiltCall m)
      → prepare_call m addresses abi tools by id body w ≡ inl c
      → CallChecks id (contract_of_call body) w c
  unfolding prepare_call
  prepare_call-CallChecks id body w c e = bind_ind (load_user_wallet by id w) e λ wallet owned e1.
      demand_ind (wallet.status == "ready") _ e1 λ ready e2.
        require_ind (tools.get_chain wallet.chain) _ e2
          λ chain known e3. prepare_family-CallChecks id w wallet chain owned ready known body c e3

  prepare_approve-CallChecks :
      (id : String) (body : Option ApproveTokenRequest) (action : String) (w : World t)
      (c : BuiltCall m)
      → prepare_approve m addresses abi tools by id body action w ≡ inl c
      → CallChecks id (contract_of_approve body) w c
  unfolding prepare_approve
  prepare_approve-CallChecks id body action w c e = require_ind body _ e λ req bound e0.
      bind_ind (load_user_wallet by id w) e0 λ wallet owned e1.
        demand_ind (wallet.status == "ready") _ e1 λ ready e2.
          require_ind (tools.get_chain wallet.chain) _ e2 λ chain known e3.
            demand_ind (chain.family == "evm") _ e3 λ evm e4.
              require_ind (normalize_evm_address addresses req.contract) _ e4 λ address norm e5.
                require_ind (normalize_evm_address addresses req.spender) _ e5 λ spender norm2 e6.
                  require_ind (find_allowed wallet address w) _ e6 λ row listed e7.
                    bind_ind (token_amount m addresses abi tools by row req.amount) e7
                      λ amount amt e8.
                        bind_ind
                          (calldata_or m addresses abi tools by
                            (encode_erc20_approve abi (tools.bytes_of spender) amount))
                          e8
                          λ calldata enc e9.
                            require_ind
                              (tools.build_eth_contract_call_tx wallet.address address calldata
                                none)
                              _ e9
                              λ tx made e10. require_ind tx.0 _ e10 λ params marshalled e11.
                                subst (CallChecks id (contract_of_approve body) w) (inl_inj _ c e11)
                                  (record {
                                    contract = req.contract;
                                    named = ap contract_of_approve bound;
                                    chain = chain;
                                    address = address;
                                    row = row;
                                    owned = load_user_wallet-IsOwned by id w _ owned;
                                    ready = ready;
                                    chain_known = known;
                                    normal = rw evm norm;
                                    listed = find_allowed-IsListed w _ _ _ listed;
                                    built = inl (
                                      calldata,
                                      none,
                                      subst
                                          (λ q.
                                            tools.build_eth_contract_call_tx wallet.address address
                                              calldata none
                                            ≡ some (q, tx.1))
                                          marshalled made,
                                    );
                                  })

  pub prepare_request-CallChecks :
      (id : String) (req : CallRequest) (w : World t) (c : BuiltCall m)
      → prepare_request m addresses abi tools by id req w ≡ inl c
      → CallChecks id (contract_of req) w c
  unfolding prepare_request
  prepare_request-CallChecks id (call_contract body) w c e = prepare_call-CallChecks id body w c e
  prepare_request-CallChecks id (approve_token body) w c e =
      prepare_approve-CallChecks id body "approve_token" w c e
  prepare_request-CallChecks id (revoke_approval none) w c e =
      prepare_approve-CallChecks id none "revoke_approval" w c e
  prepare_request-CallChecks id (revoke_approval (some (contract, spender))) w c e =
      prepare_approve-CallChecks id
        (some (record { contract = contract; spender = spender; amount = "0" })) "revoke_approval" w
        c e
