-- ===== src/Handler/SolWrap/Examples.antt =====
-- Examples for UnwrapSOL of handler/wallet.go: with an API key and a policy, it waits for an approval.
use teenet_wallet.Base.{◌≡◌, refl, ◌*◌, true, false, none, some, string_eq}
use teenet_wallet.Chain.EthFees.Tally.{tally_ints}
use teenet_wallet.Handler.DailyLimit.Stroke.{stroke_float}
use teenet_wallet.Handler.Requests.{Caller, load_user_wallet, write_audit_ctx}
use teenet_wallet.Handler.Idempotency.{check_idempotency}
use teenet_wallet.Handler.Spend.{
  pending_approval_reply, spend, under_policy, create_approval_request, answer,
}
use teenet_wallet.Handler.Spend.Samples.{state, money, node, api_key, request_key}
use teenet_wallet.Handler.Transfer.{Prices}
use teenet_wallet.Handler.SolWrap.{WrapTools, prepare_unwrap, unwrap_sol}

abbrev prices : Prices money
prices = record {
  has_prices = false;
  usd_price = λ c. none;
  token_usd_price = λ chain contract. none;
  jupiter_price = λ mint. none;
  price_by_symbol = λ c. none;
}

abbrev tools : WrapTools stroke_float
tools = record {
  get_chain = λ c. some (record { name = c; currency = "SOL"; family = "solana" });
  lamports = λ a. a * 1000000000;
  build_sol_wrap_tx = λ from l. some ("wrap", "message");
  build_sol_unwrap_tx = λ from. some ("unwrap", "message");
  marshal_context = λ kind w a c. some kind;
  marshal_response = λ kind w a hash. hash;
}

waits_for_key :
    (unwrap_sol money prices tools api_key tally_ints node (λ s. s) 1800 true request_key state).1
    ≡ pending_approval_reply 1
unfolding unwrap_sol prepare_unwrap load_user_wallet answer check_idempotency spend under_policy
    create_approval_request write_audit_ctx
waits_for_key = refl

abbrev passkey : Caller
passkey = record api_key { is_passkey_auth = true; auth_mode = "passkey" }
