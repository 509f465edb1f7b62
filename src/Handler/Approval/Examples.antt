-- ===== src/Handler/Approval/Examples.antt =====
-- Examples for handler/approval.go: one transfer that waits for its approval, on tables in memory.
use teenet_wallet.Base.{
  ◌≡◌, refl, ℕ, ◌≤◌, true, false, Option, none, some, List, [], ◌∷◌, nat_eq, string_eq, ◌==◌, ltb,
  ◌⊎◌,
}
use teenet_wallet.Db.{Table}
use teenet_wallet.Db.Memory.{memory_table, Memory, empty, insert_all}
use teenet_wallet.Model.{ApprovalRequest, pending, transfer, Wallet, User}
use teenet_wallet.Handler.DailyLimit.Stroke.{stroke_float}
use teenet_wallet.Handler.Passkey.{PasskeyClient, PasskeyBody, accepted, verify_fresh_passkey}
use teenet_wallet.Handler.Approval.World.{Tables, World, Outside}
use teenet_wallet.Handler.Approval.Flow.{
  approve, approve_locked, dispatch, reject_locked, expire_tick,
}
use teenet_wallet.Handler.Approval.Execute.{
  execute, sign_and_send, deduct_and_send, send_and_record, record_execution, rebuild,
}
use teenet_wallet.Handler.Approval.Lifecycle.{
  Action, approving, rejecting, ticking, run, act, RowFollows, run-RowFollows,
}
use teenet_wallet.Handler.Approval.SentOnce.{run-sent_at_most_once, sent_count, AlwaysUpdates}
use teenet_wallet.Handler.Approval.Authority.{approve-authority, IsOwnPending, HasNoEffects}

abbrev tables : Tables
tables = record {
  approvals = memory_table ApprovalRequest;
  contracts = memory_table _;
  addresses = memory_table _;
  policies = memory_table _;
  wallets = memory_table Wallet;
  audits = memory_table _;
}

abbrev transfer_request : ApprovalRequest
transfer_request = record {
  wallet_id = some "w";
  user_id = 7;
  approval_type = transfer;
  message = "00";
  tx_context = "";
  tx_params = "to:x";
  policy_data = "";
  tx_hash = "";
  status = pending;
  signature = "";
  approved_by = none;
  auth_mode = "apikey";
  api_key_prefix = "ocw_";
  expires_at = 1000;
}

abbrev wallet : Wallet
wallet = record {
  id = "w";
  user_id = 7;
  chain = "solana";
  key_name = "k";
  public_key = "p";
  address = "a";
  label = "";
  status = "ready";
}

abbrev world : World tables
world = record {
  approvals = insert_all (transfer_request ∷ []) empty;
  contracts = empty;
  addresses = empty;
  policies = empty;
  wallets = insert_all (wallet ∷ []) empty;
  audits = empty;
  signed = [];
  sent = [];
  events = [];
}

-- Every rebuild and signature succeeds, and no price is known.
abbrev outside : Outside stroke_float
outside = record {
  Price = ℕ;
  decode_contract = λ s. none;
  decode_entry = λ s. none;
  decode_policy = λ s. none;
  decode_message = λ s. some s;
  chain_family = λ s. some s;
  token_mint = λ s. none;
  program_id = λ s. none;
  wrap_params = λ s. none;
  rebuild_token = λ s. none;
  rebuild_program = λ s. none;
  rebuild_wrap = λ s. none;
  rebuild_native = λ s. some ("fresh", some s);
  is_eth_params = λ s. true;
  rebuild_eth = λ s. none;
  tee_sign = λ m k. some "sig";
  broadcast_signed = λ w p s. some "hash";
  has_prices = false;
  decode_context = λ s. none;
  usd_price = λ s. none;
  token_usd_price = λ c s. none;
  jupiter_price = λ s. none;
  price_by_symbol = λ s. none;
  amount_usd = λ s p. none;
}

abbrev actions : List (Action stroke_float)
actions =
    ticking 500
    ∷ approving outside 1 7 600
    ∷ approving outside 1 7 601
    ∷ rejecting 1 602
    ∷ ticking 2000
    ∷ []

always_updates : AlwaysUpdates tables
unfolding AlwaysUpdates
always_updates id f s = refl

-- The second approval, the rejection and the tick find the transfer approved.
run_sent : sent_count 1 (run actions world).sent ≡ 1
unfolding run act approve_locked reject_locked expire_tick dispatch execute sign_and_send
    deduct_and_send send_and_record record_execution rebuild
run_sent = refl

run-sent_at_most_once_example : sent_count 1 (run actions world).sent ≤ 1
run-sent_at_most_once_example = run-sent_at_most_once 1 actions world always_updates refl

run-RowFollows_example :
    RowFollows (some transfer_request) (tables.approvals.row 1 (run actions world).approvals)
run-RowFollows_example = run-RowFollows actions world 1

abbrev users : Table User
users = memory_table User

abbrev sdk : PasskeyClient
sdk = record {
  has_sdk = true;
  test_mode = false;
  marshal = λ s. some s;
  passkey_login_verify_as = λ login bytes u. some (u == 70);
}

abbrev user_rows : Memory User
user_rows =
    insert_all (record { username = "u"; email = none; passkey_user_id = 70; created_at = 0 } ∷ [])
      empty

abbrev body : Option PasskeyBody
body = some (record { login_session_id = 5; credential = some "c" })

-- User 1 presents the passkey but does not own the approval.
approve-authority_example :
    ((verify_fresh_passkey sdk users user_rows 1 body ≡ accepted)
      × ((p : IsOwnPending world (some 1) 1) × (ltb p.row.expires_at 600 ≡ false)))
    ⊎ HasNoEffects world (approve sdk users user_rows outside body (some 1) 1 600 world).0
approve-authority_example = approve-authority sdk users user_rows outside body 1 600 (some 1) world
