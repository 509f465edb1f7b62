-- ===== src/Handler/Transfer/Examples.antt =====
-- Examples for Transfer of handler/wallet.go: a token of the whitelist, and one that is not on it.
use teenet_wallet.Base.{
  ◌≡◌, refl, ◌*◌, String, true, false, none, some, [], nat_eq, string_eq, pos, ◌==◌,
}
use teenet_wallet.Chain.Base58.{base58_decode}
use teenet_wallet.Chain.EthFees.Tally.{tally_ints}
use teenet_wallet.Chain.EthFees.Encoding.{encode}
use teenet_wallet.Handler.DailyLimit.Stroke.{stroke_float}
use teenet_wallet.Handler.DailyLimit.{check_and_deduct_daily_limit_usd, deduct_from}
use teenet_wallet.Handler.Contract.Address.{AddressTools}
use teenet_wallet.Handler.Requests.{load_user_wallet, write_audit_ctx}
use teenet_wallet.Handler.Nicknames.{resolve_nickname}
use teenet_wallet.Handler.Idempotency.{check_idempotency, save}
use teenet_wallet.Handler.Broadcast.{sign_and_broadcast, attempts, attempt}
use teenet_wallet.Handler.Spend.{refused, completed, spend, under_policy, send_now, answer}
use teenet_wallet.Handler.Spend.Samples.{state, money, node, api_key, request_key}
use teenet_wallet.Handler.Transfer.{
  TransferRequest, Prices, TransferTools, amount_in_usd, proposal_for, prepare_with, prepare,
  transfer,
}
use teenet_wallet.Handler.Transfer.Build.{Builders, find_allowed, build_spl, build}

abbrev prices : Prices money
prices = record {
  has_prices = true;
  usd_price = λ c. none;
  token_usd_price = λ chain contract. none;
  jupiter_price = λ mint. some 2;
  price_by_symbol = λ c. none;
}

abbrev builders : Builders stroke_float
builders = record {
  whole_units = λ a factor. some (a * factor);
  lamports = λ a. a * 1000000000;
  encode_erc20_transfer = λ to units. some to;
  build_eth_contract_call_tx = λ from to d. none;
  build_eth_tx = λ from to a. none;
  build_sol_token_transfer_tx = λ from to mint units decimals. some ("to:b", "message");
  build_sol_tx = λ from to l. some ("to:b", "message");
  marshal_params = λ p. some (encode p);
  get_balance = λ a. none;
}

-- Every text of the examples is read as Base58.
abbrev tools : AddressTools
tools = record {
  trim_space = λ s. s;
  to_lower = λ s. s;
  to_upper = λ s. s;
  contains_any = λ s chars. false;
  has_hex_prefix = λ s. true;
  byte_length = λ s. 40;
  is_hex_after_prefix = λ s. true;
  big_bytes = λ n. [];
  get_chain_family = λ s. some "solana";
  marshal_contract = λ c. c.contract_address;
}

abbrev more : TransferTools
more = record {
  get_chain = λ c. some (record { name = c; currency = "SOL"; family = "solana" });
  equal_fold = λ s t. s == t;
  marshal_context = λ c. some "{}";
  marshal_response = λ c hash. hash;
}

abbrev token_transfer : String → TransferRequest
token_transfer mint = record {
  to = "b";
  amount = "III";
  memo = "";
  token = some (record { contract = mint; decimals = pos 0; symbol = "" });
}

sends_token :
    (transfer money prices builders tools more tally_ints api_key node
      (λ s. s)
      1800
      true
      request_key
      (some (token_transfer "mint"))
      state).1
    ≡ completed "hash"
unfolding transfer prepare prepare_with proposal_for amount_in_usd build build_spl find_allowed
    load_user_wallet resolve_nickname answer check_idempotency spend under_policy send_now
    check_and_deduct_daily_limit_usd deduct_from sign_and_broadcast attempts attempt write_audit_ctx
    save base58_decode
sends_token = refl

refuses_other :
    (transfer money prices builders tools more tally_ints api_key node
      (λ s. s)
      1800
      true
      request_key
      (some (token_transfer "other"))
      state).1
    ≡ refused 403
unfolding transfer prepare prepare_with build build_spl find_allowed load_user_wallet
    resolve_nickname answer check_idempotency base58_decode
refuses_other = refl
