-- ===== src/Handler/Policy/Examples.antt =====
-- Examples for SetPolicy and DeletePolicy of handler/wallet.go.
use teenet_wallet.Base.{◌≡◌, refl, true, false, none, some, string_eq, nat_eq}
use teenet_wallet.Db.{Table}
use teenet_wallet.Db.Memory.{memory_table, Memory, empty}
use teenet_wallet.Model.{User}
use teenet_wallet.Handler.DailyLimit.Stroke.{stroke_float}
use teenet_wallet.Handler.Passkey.{PasskeyClient, verify_fresh_passkey_parsed}
use teenet_wallet.Handler.Requests.{Caller, load_user_wallet, write_audit_ctx}
use teenet_wallet.Handler.Spend.Samples.{world, api_key}
use teenet_wallet.Handler.Policy.{PolicyRequest, set_policy, set_policy_of, handle_policy}

abbrev users : Table User
users = memory_table User

abbrev user_rows : Memory User
user_rows = empty

-- A client without a TEE, in test mode.
abbrev sdk : PasskeyClient
sdk = record {
  has_sdk = false;
  test_mode = true;
  marshal = λ s. some s;
  passkey_login_verify_as = λ login bytes u. none;
}

abbrev passkey : Caller
passkey = record api_key { is_passkey_auth = true; auth_mode = "passkey" }

abbrev request : PolicyRequest
request = set_policy (
    some (record {
      login_session_id = 1;
      credential = some "c";
      threshold_usd = "I";
      daily_limit_usd = "";
      enabled = none;
    }))

key_waits :
    (handle_policy stroke_float sdk users user_rows (λ p. "{}") 1800 api_key "w" request world).1
    ≡ 202
unfolding handle_policy set_policy_of load_user_wallet write_audit_ctx
key_waits = refl

passkey_sets :
    (handle_policy stroke_float sdk users user_rows (λ p. "{}") 1800 passkey "w" request world).1
    ≡ 200
unfolding handle_policy set_policy_of load_user_wallet write_audit_ctx verify_fresh_passkey_parsed
passkey_sets = refl
