-- ===== src/Handler/Spend/Samples.antt =====
-- A wallet on a chain of the Solana family with a policy, for the examples: amounts are in strokes, the
-- TEE signs, the node takes every transaction, and a price of 2 dollars is known for one currency.
use teenet_wallet.Base.{ℕ, ◌*◌, true, false, some, [], ◌∷◌, nat_eq, string_eq, ◌==◌, ltb}
use teenet_wallet.Db.{Table}
use teenet_wallet.Db.Memory.{memory_table, empty, insert_all}
use teenet_wallet.Model.{ApprovalPolicy, AllowedContract, IdempotencyRecord, Wallet}
use teenet_wallet.Chain.EthFees.Encoding.{encode, decode}
use teenet_wallet.Handler.DailyLimit.Stroke.{stroke_float}
use teenet_wallet.Handler.Approval.World.{Tables, World}
use teenet_wallet.Handler.Requests.{Caller}
use teenet_wallet.Handler.Idempotency.{RequestKey}
use teenet_wallet.Handler.Broadcast.{Node, delivered}
use teenet_wallet.Handler.Spend.{Money, SpendState}

abbrev pub tables : Tables
tables = record {
  approvals = memory_table _;
  contracts = memory_table AllowedContract;
  addresses = memory_table _;
  policies = memory_table ApprovalPolicy;
  wallets = memory_table Wallet;
  audits = memory_table _;
}

abbrev pub wallet : Wallet
wallet = record {
  id = "w";
  user_id = 7;
  chain = "devnet";
  key_name = "k";
  public_key = "p";
  address = "a";
  label = "";
  status = "ready";
}

-- At most 20 dollars a day, and an approval above 8 dollars.
abbrev pub policy : ApprovalPolicy
policy = record {
  wallet_id = "w";
  threshold_usd = "IIIIIIII";
  daily_limit_usd = "IIIIIIIIIIIIIIIIIIII";
  daily_spent_usd = "0";
  daily_reset_at = 0;
  enabled = true;
}

abbrev pub token_row : AllowedContract
token_row = record {
  user_id = 7;
  chain = "devnet";
  contract_address = "mint";
  label = "";
  symbol = "USDX";
  decimals = 2;
}

abbrev pub world : World tables
world = record {
  approvals = empty;
  contracts = insert_all (token_row ∷ []) empty;
  addresses = empty;
  policies = insert_all (policy ∷ []) empty;
  wallets = insert_all (wallet ∷ []) empty;
  audits = empty;
  signed = [];
  sent = [];
  events = [];
}

abbrev pub records : Table IdempotencyRecord
records = memory_table IdempotencyRecord

abbrev pub state : SpendState tables records
state = record { world = world; saved = empty; log = [] }

abbrev pub money : Money stroke_float
money = record {
  Usd = ℕ;
  Price = ℕ;
  zero_usd = 0;
  is_zero = λ n. n == 0;
  above_zero = λ n. ltb 0 n;
  times = λ a p. a * p;
  to_num = λ n. n;
}

abbrev pub node : Node
node = record {
  tee_sign = λ k m key. some "sig";
  broadcast_signed = λ k w params sig. delivered "hash";
  fetch_pending_nonce = λ k w. some 6;
  unmarshal_params = decode;
  marshal_params = λ p. some (encode p);
  eth_signing_hash = λ p. some (encode p);
  chain_family = λ chain. some "solana";
}

abbrev pub api_key : Caller
api_key = record {
  user_id = 7;
  is_passkey_auth = false;
  auth_mode = "apikey";
  api_key_prefix = "ocw_";
  now = 100;
}

abbrev pub request_key : RequestKey
request_key = record { key = "once"; user_id = 7; wallet_id = "w" }
