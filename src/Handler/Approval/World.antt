-- ===== src/Handler/Approval/World.antt =====
-- What the handlers of handler/approval.go share: the tables, the outside world, what they leave
-- behind, and the helpers that more than one branch calls. A response is its HTTP status.
use teenet_wallet.Base.{
  ℕ, String, Bool, false, ◌&&◌, Option, none, some, List, [], ◌∷◌, ◌++◌, ◌==◌, nat_eq, string_eq,
}
use teenet_wallet.Db.{Found, found, missing, failed, Table}
use teenet_wallet.Model.{
  ApprovalPolicy, Status, approved, ApprovalRequest, AllowedContract, AddressBookEntry, Wallet,
  AuditLog,
}
use teenet_wallet.Handler.DailyLimit.{BigFloat}

pub record Tables : Type 1 where
  pub approvals : Table ApprovalRequest
  pub contracts : Table AllowedContract
  pub addresses : Table AddressBookEntry
  pub policies : Table ApprovalPolicy
  pub wallets : Table Wallet
  pub audits : Table AuditLog

-- The event that broadcastApproval sends, without the chain that it looks up for the client.
pub record ApprovalEvent : Type 0 where
  pub user_id : ℕ
  pub approval_id : ℕ
  pub status : String
  pub tx_hash : String

-- A transaction that was handed to the chain for an approval.
pub record Broadcast : Type 0 where
  pub approval_id : ℕ
  pub params : String
  pub signature : String

-- The tables, the signatures asked of the TEE (the approval and the message), the transactions
-- sent, and the events sent to subscribers.
pub record World (t : Tables) : Type 0 where
  pub approvals : t.approvals.Store
  pub contracts : t.contracts.Store
  pub addresses : t.addresses.Store
  pub policies : t.policies.Store
  pub wallets : t.wallets.Store
  pub audits : t.audits.Store
  pub signed : List (ℕ × String)
  pub sent : List Broadcast
  pub events : List ApprovalEvent

-- The fields of the stored transaction parameters by which the code tells them apart.
pub record WrapParams : Type 0 where
  pub blockhash : String
  pub wrap : Bool
  pub lamports : ℕ

pub record TxContext : Type 0 where
  pub amount : String
  pub currency : String
  pub contract : String
  pub chain : String

-- What a rebuilt transaction brings: the message to sign, and its parameters if they can be encoded.
abbrev pub Rebuilt : Type 0
Rebuilt = String × Option String

-- The packages that the handlers call, as they answer during one request: encoding/json, the chain
-- package's builders over RPC, the TEE SDK, the broadcast and the price service. `none` is an
-- error, a price that is not positive, or a type that the JSON does not fit.
pub record Outside (fl : BigFloat) : Type 1 where
  pub Price : Type 0
  pub decode_contract : String → Option (ℕ × AllowedContract)
  pub decode_entry : String → Option (ℕ × AddressBookEntry)
  pub decode_policy : String → Option ApprovalPolicy
  pub decode_message : String → Option String
  pub chain_family : String → Option String
  -- The `mint` and `program_id` of the parameters.
  pub token_mint : String → Option String
  pub program_id : String → Option String
  pub wrap_params : String → Option WrapParams
  pub rebuild_token : String → Option Rebuilt
  pub rebuild_program : String → Option Rebuilt
  pub rebuild_wrap : String → Option Rebuilt
  pub rebuild_native : String → Option Rebuilt
  pub is_eth_params : String → Bool
  pub rebuild_eth : String → Option Rebuilt
  -- The TEE signs the message with the key of this name.
  pub tee_sign : String → String → Option String
  pub broadcast_signed : Wallet → String → String → Option String
  -- `h.prices != nil`
  pub has_prices : Bool
  pub decode_context : String → Option TxContext
  pub usd_price : String → Option Price
  pub token_usd_price : String → String → Option Price
  pub jupiter_price : String → Option Price
  pub price_by_symbol : String → Option Price
  -- The amount times the price, printed with six decimals.
  pub amount_usd : String → Price → Option String

abbrev pub set_status : Status → ApprovalRequest → ApprovalRequest
set_status st a = record a { status = st }

abbrev pub set_approved : ℕ → ApprovalRequest → ApprovalRequest
set_approved user a = record a { status = approved; approved_by = some user }

abbrev pub is_pending_log : ℕ → ℕ → AuditLog → Bool
is_pending_log id key log = elim log.approval_id [
  | none ↦ false
  | some a ↦ (a == id) && (log.status == "pending")
]

abbrev pub resolve_log : String → ℕ → AuditLog → AuditLog
resolve_log st now log = record log { status = st; approved_at = some now }

module _ {t : Tables} where
  -- `h.db.Model(&approval).Updates(f)`, whose error is not looked at.
  abbrev pub update_approval : ℕ → (ApprovalRequest → ApprovalRequest) → World t → World t
  update_approval id f w = record w { approvals = (t.approvals.update id f w.approvals).0 }

  abbrev pub resolve_found : String → ℕ → World t → Found (ℕ × AuditLog) → World t
  resolve_found st now w missing = w
  resolve_found st now w failed = w
  resolve_found st now w (found (log, _)) = record w {
    audits = (t.audits.update log (resolve_log st now) w.audits).0;
  }

  -- updateAuditByApprovalID in handler/audit.go.
  abbrev pub update_audit_by_approval_id : ℕ → String → ℕ → World t → World t
  update_audit_by_approval_id id st now w =
      resolve_found st now w (t.audits.find (is_pending_log id) w.audits)

  abbrev pub broadcast_approval : ℕ → ApprovalRequest → String → String → World t → World t
  broadcast_approval id a st tx_hash w =
      let e : ApprovalEvent = record {
        user_id = a.user_id;
        approval_id = id;
        status = st;
        tx_hash = tx_hash;
      } in
      record w { events = w.events ++ e ∷ [] }

  -- The end of a change that is applied at once: approved, audited and announced.
  abbrev pub finish_change : ℕ → ApprovalRequest → ℕ → ℕ → World t → World t
  finish_change id a user now w =
      broadcast_approval id a "approved" ""
        (update_audit_by_approval_id id "success" now (update_approval id (set_approved user) w))
