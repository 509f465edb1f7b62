-- ===== src/Handler/AddressBook/Examples.antt =====
-- Examples for handler/addressbook.go: adding an entry with an API key and with a passkey session.
use teenet_wallet.Base.{◌≡◌, refl, true, false, none, some, [], string_eq, nat_eq}
use teenet_wallet.Db.{Table}
use teenet_wallet.Db.Memory.{memory_table, Memory, empty}
use teenet_wallet.Model.{User}
use teenet_wallet.Handler.Passkey.{PasskeyClient, verify_fresh_passkey_parsed}
use teenet_wallet.Handler.Contract.Address.{AddressTools, normalize_evm_address}
use teenet_wallet.Handler.Requests.{Caller, write_audit_ctx}
use teenet_wallet.Handler.Spend.Samples.{world, api_key}
use teenet_wallet.Handler.AddressBook.{
  EntryRequest, add_entry, check_add, submit_change, handle_entry,
}
use teenet_wallet.Handler.AddressBook.Entry.{
  nickname_matches, valid_nickname, valid_memo, validate_address,
}

good_nickname : nickname_matches "bob_1-x" ≡ true
good_nickname = refl

bad_nickname : nickname_matches "_bob" ≡ false
bad_nickname = refl

abbrev users : Table User
users = memory_table User

abbrev user_rows : Memory User
user_rows = empty

abbrev sdk : PasskeyClient
sdk = record {
  has_sdk = false;
  test_mode = true;
  marshal = λ s. some s;
  passkey_login_verify_as = λ login bytes u. none;
}

abbrev tools : AddressTools
tools = record {
  trim_space = λ s. s;
  to_lower = λ s. s;
  to_upper = λ s. s;
  contains_any = λ s chars. false;
  has_hex_prefix = λ s. true;
  byte_length = λ s. 42;
  is_hex_after_prefix = λ s. true;
  big_bytes = λ n. [];
  get_chain_family = λ s. some "evm";
  marshal_contract = λ c. c.contract_address;
}

abbrev passkey : Caller
passkey = record api_key { is_passkey_auth = true; auth_mode = "passkey" }

abbrev request : EntryRequest
request = add_entry (
    some (record {
      login_session_id = 1;
      credential = some "c";
      nickname = "bob";
      chain = "sepolia";
      address = "0x1";
      memo = "";
    }))

key_waits :
    (handle_entry sdk users user_rows tools (λ e. "{}") 1800 false api_key request world).1 ≡ 202
unfolding handle_entry check_add valid_nickname valid_memo validate_address normalize_evm_address
    submit_change write_audit_ctx
key_waits = refl

passkey_adds :
    (handle_entry sdk users user_rows tools (λ e. "{}") 1800 false passkey request world).1 ≡ 200
unfolding handle_entry check_add valid_nickname valid_memo validate_address normalize_evm_address
    submit_change write_audit_ctx verify_fresh_passkey_parsed
passkey_adds = refl
