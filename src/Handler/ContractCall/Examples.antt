-- ===== src/Handler/ContractCall/Examples.antt =====
-- Examples for handler/contract_call.go: an API key waits for an approval, and a passkey session signs.
use Prim.Native.String.{String}
use teenet_wallet.Base.{
  ◌≡◌, refl, ◌*◌, true, false, none, some, [], ◌∷◌, replicate, string_eq, nat_eq,
}
use teenet_wallet.Db.Memory.{insert_all, empty}
use teenet_wallet.Model.{AllowedContract}
use teenet_wallet.Chain.EthFees.Tally.{tally_ints}
use teenet_wallet.Chain.Abi.Texts.{codes}
use teenet_wallet.Chain.Abi.Words.{text, cons, nil}
use teenet_wallet.Chain.Abi.Encode.{AbiTools, encode_call, encode_args, encode_arg}
use teenet_wallet.Chain.Abi.Erc20.{encode_erc20_approve}
use teenet_wallet.Handler.DailyLimit.Stroke.{stroke_float}
use teenet_wallet.Handler.Requests.{Caller, load_user_wallet, write_audit_ctx}
use teenet_wallet.Handler.Contract.Address.{AddressTools, normalize_evm_address}
use teenet_wallet.Handler.Broadcast.{delivered}
use teenet_wallet.Handler.Spend.{completed, pending_approval_reply, refused}
use teenet_wallet.Handler.Spend.Samples.{tables, world, money, node, api_key}
use teenet_wallet.Handler.Transfer.Build.{find_allowed}
use teenet_wallet.Handler.ContractCall.{CallState, run_call, decide, ask_approval, send_call}
use teenet_wallet.Handler.ContractCall.Prepare.{
  CallTools, CallRequest, call_contract, revoke_approval, prepare_request, prepare_call,
  prepare_evm, prepare_approve,
}
use teenet_wallet.Handler.ContractCall.Authority.{handle_call}

abbrev token : String
token = "0x1111111111111111111111111111111111111111"

abbrev addresses : AddressTools
addresses = record {
  trim_space = λ s. s;
  to_lower = λ s. s;
  to_upper = λ s. s;
  contains_any = λ s c. false;
  has_hex_prefix = λ s. true;
  byte_length = λ s. 42;
  is_hex_after_prefix = λ s. true;
  big_bytes = λ n. [];
  get_chain_family = λ c. some "evm";
  marshal_contract = λ c. "";
}

abbrev abi : AbiTools
abi = record {
  trim_space = λ s. s;
  hex_to_address = λ s. replicate 20 7;
  keccak256 = λ s. replicate 32 9;
}

abbrev tools : CallTools stroke_float money
tools = record {
  get_chain = λ c. some (record { name = c; currency = "ETH"; family = "evm" });
  bytes_of = codes;
  hex_bytes = λ s. some [];
  whole_units = λ x k. some (x * k);
  build_eth_contract_call_tx = λ from to call value. some (some "params", "message");
  build_sol_program_call_tx = λ from program accounts instr. none;
  has_prices = true;
  usd_price = λ c. some 2;
  marshal_call = λ w contract req usd. "call";
  marshal_program = λ w program req. "program";
  marshal_approve = λ w contract spender amount row action. action;
}

abbrev token_row : AllowedContract
token_row = record {
  user_id = 7;
  chain = "devnet";
  contract_address = token;
  label = "";
  symbol = "USDX";
  decimals = 2;
}

abbrev state : CallState tables
state = record { world = record world { contracts = insert_all (token_row ∷ []) empty }; log = [] }

-- A call that pays three strokes, six dollars, under a threshold of eight.
abbrev pay_call : CallRequest
pay_call = call_contract (
    some (record {
      contract = token;
      func_sig = codes "deposit(bool)";
      args = cons (text (codes "x")) nil;
      value = "III";
      memo = "";
      accounts = [];
      instruction_data = "";
    }))

abbrev revoke : CallRequest
revoke = revoke_approval (some (token, token))

abbrev passkey : Caller
passkey = record api_key { is_passkey_auth = true; auth_mode = "passkey" }

key_waits :
    (handle_call money tally_ints node
      (λ p s. delivered "h")
      (λ s. s)
      1800
      api_key
      addresses
      abi
      tools
      "w"
      revoke
      state).1
    ≡ pending_approval_reply 1
unfolding run_call prepare_request prepare_approve load_user_wallet normalize_evm_address
    find_allowed encode_erc20_approve decide ask_approval write_audit_ctx
key_waits = refl

-- The argument of this call is a text where a boolean is wanted.
bad_argument :
    (handle_call money tally_ints node
      (λ p s. delivered "h")
      (λ s. s)
      1800
      passkey
      addresses
      abi
      tools
      "w"
      pay_call
      state).1
    ≡ refused 400
unfolding run_call prepare_request prepare_call prepare_evm load_user_wallet normalize_evm_address
    find_allowed encode_call encode_args encode_arg decide
bad_argument = refl

passkey_signs :
    (handle_call money tally_ints node
      (λ p s. delivered "h")
      (λ s. s)
      1800
      passkey
      addresses
      abi
      tools
      "w"
      revoke
      state).1
    ≡ completed "hash"
unfolding run_call prepare_request prepare_approve load_user_wallet normalize_evm_address
    find_allowed encode_erc20_approve decide send_call write_audit_ctx
passkey_signs = refl
