-- ===== src/Handler/Contract/Examples.antt =====
-- Examples for handler/contract.go: adding a contract with an API key and with a passkey session.
use teenet_wallet.Base.{◌≡◌, refl, pos, true, false, none, some, [], ◌∷◌, ◌==◌, nat_eq, string_eq}
use teenet_wallet.Db.{Table}
use teenet_wallet.Db.Memory.{memory_table, Memory, empty, insert_all}
use teenet_wallet.Model.{AllowedContract, User, Wallet}
use teenet_wallet.Handler.Passkey.{PasskeyClient, verify_fresh_passkey_parsed}
use teenet_wallet.Handler.Approval.World.{Tables, World}
use teenet_wallet.Handler.Contract.{
  by_chain, Request, add_contract, handle, target, add_contract_for, submit,
}
use teenet_wallet.Handler.Contract.Address.{AddressTools, contract_address_for}
use teenet_wallet.Handler.Requests.{Caller}

abbrev tables : Tables
tables = record {
  approvals = memory_table _;
  contracts = memory_table AllowedContract;
  addresses = memory_table _;
  policies = memory_table _;
  wallets = memory_table Wallet;
  audits = memory_table _;
}

abbrev world : World tables
world = record {
  approvals = empty;
  contracts = empty;
  addresses = empty;
  policies = empty;
  wallets = empty;
  audits = empty;
  signed = [];
  sent = [];
  events = [];
}

abbrev tools : AddressTools
tools = record {
  trim_space = λ s. s;
  to_lower = λ s. s;
  to_upper = λ s. s;
  contains_any = λ s chars. false;
  has_hex_prefix = λ s. true;
  byte_length = λ s. 42;
  is_hex_after_prefix = λ s. true;
  big_bytes = λ n. [];
  get_chain_family = λ s. some s;
  marshal_contract = λ c. c.contract_address;
}

abbrev users : Table User
users = memory_table User

abbrev user_rows : Memory User
user_rows =
    insert_all (record { username = "u"; email = none; passkey_user_id = 70; created_at = 0 } ∷ [])
      empty

abbrev sdk : PasskeyClient
sdk = record {
  has_sdk = true;
  test_mode = false;
  marshal = λ s. some s;
  passkey_login_verify_as = λ login bytes u. some (u == 70);
}

abbrev api_key : Caller
api_key = record {
  user_id = 1;
  is_passkey_auth = false;
  auth_mode = "apikey";
  api_key_prefix = "ocw_";
  now = 100;
}

abbrev add : Request
add = add_contract (
    some (record {
      login_session_id = 5;
      credential = some "c";
      contract_address = "0xa";
      label = "";
      symbol = "USDC";
      decimals = pos 6;
    }))

-- The request waits for its approval.
handle-api_key : (handle sdk users user_rows tools 1800 api_key (by_chain "evm") add world).1 ≡ 202
unfolding handle target add_contract_for contract_address_for submit
handle-api_key = refl

-- The same request in a passkey session.
handle-passkey_session :
    (handle sdk users user_rows tools 1800
      (record api_key { is_passkey_auth = true })
      (by_chain "evm")
      add
      world).1
    ≡ 200
unfolding handle target add_contract_for contract_address_for submit verify_fresh_passkey_parsed
handle-passkey_session = refl
