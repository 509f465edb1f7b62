-- ===== src/Model.antt =====
-- The rows of model/policy.go, model/contract.go, model/addressbook.go, model/audit.go and
-- model/wallet.go, model/user.go, model/idempotency.go and model/apikey.go, without their primary keys: a table keeps a row under its key. Times are seconds.
use teenet_wallet.Base.{ℕ, String, Bool, Option}

pub record ApprovalPolicy : Type 0 where
  pub wallet_id : String
  pub threshold_usd : String
  pub daily_limit_usd : String
  pub daily_spent_usd : String
  pub daily_reset_at : ℕ
  pub enabled : Bool

-- The values that the code writes to `ApprovalRequest.Status`.
pub data Status : Type 0 where
  pending approved rejected expired failed_status : Status

-- The values that the code writes to `ApprovalRequest.ApprovalType`.
pub data ApprovalType : Type 0 where
  sign transfer contract_call : ApprovalType
  contract_add contract_update policy_change addressbook_add addressbook_update : ApprovalType

pub record ApprovalRequest : Type 0 where
  pub wallet_id : Option String
  pub user_id : ℕ
  pub approval_type : ApprovalType
  pub message : String
  pub tx_context : String
  pub tx_params : String
  pub policy_data : String
  pub tx_hash : String
  pub status : Status
  pub signature : String
  pub approved_by : Option ℕ
  pub auth_mode : String
  pub api_key_prefix : String
  pub expires_at : ℕ

pub record AllowedContract : Type 0 where
  pub user_id : ℕ
  pub chain : String
  pub contract_address : String
  pub label : String
  pub symbol : String
  pub decimals : ℕ

pub record AddressBookEntry : Type 0 where
  pub user_id : ℕ
  pub nickname : String
  pub chain : String
  pub address : String
  pub memo : String

pub record Wallet : Type 0 where
  pub id : String
  pub user_id : ℕ
  pub chain : String
  pub key_name : String
  pub public_key : String
  pub address : String
  pub label : String
  pub status : String

-- Without the JSON of `Details`.
pub record AuditLog : Type 0 where
  pub user_id : ℕ
  pub action : String
  pub wallet_id : Option String
  pub approval_id : Option ℕ
  pub status : String
  pub created_at : ℕ
  pub approved_at : Option ℕ

pub record User : Type 0 where
  pub username : String
  pub email : Option String
  pub passkey_user_id : ℕ
  pub created_at : ℕ

pub record IdempotencyRecord : Type 0 where
  pub key : String
  pub user_id : ℕ
  pub wallet_id : String
  pub status_code : ℕ
  pub response : String
  pub expires_at : ℕ

pub record ApiKey : Type 0 where
  pub user_id : ℕ
  pub key_hash : String
  pub key_salt : String
  pub prefix : String
  pub label : String
