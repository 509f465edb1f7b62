-- ===== src/Handler/Requests.antt =====
-- What handlers share: the caller of a request, the audit log (handler/audit.go) and the creation of
-- an approval (createPendingApproval of handler/helpers.go).
use teenet_wallet.Base.{
  ℕ, ◌+◌, String, Bool, Option, none, nat_eq, string_eq, ◌&&◌, ◌==◌, inl, inr, ◌⊎◌, if◌then◌else◌,
}
use teenet_wallet.Db.{Created, Found, found, missing, failed}
use teenet_wallet.Model.{ApprovalRequest, pending, ApprovalType, AuditLog, Wallet}
use teenet_wallet.Handler.Approval.World.{Tables, World}

-- Who sends a request: the session or the API key that the middleware found, and when.
pub record Caller : Type 0 where
  pub user_id : ℕ
  pub is_passkey_auth : Bool
  pub auth_mode : String
  pub api_key_prefix : String
  pub now : ℕ

abbrev pub pending_approval : Caller → ApprovalType → Option String → String → ℕ → ApprovalRequest
pending_approval by ty wallet_id policy_data expiry = record {
  wallet_id = wallet_id;
  user_id = by.user_id;
  approval_type = ty;
  message = "";
  tx_context = "";
  tx_params = "";
  policy_data = policy_data;
  tx_hash = "";
  status = pending;
  signature = "";
  approved_by = none;
  auth_mode = by.auth_mode;
  api_key_prefix = by.api_key_prefix;
  expires_at = by.now + expiry;
}

abbrev pub own_wallet : String → ℕ → ℕ → Wallet → Bool
own_wallet id user key x = (x.id == id) && (x.user_id == user)

abbrev pub wallet_or_404 : Found (ℕ × Wallet) → Wallet ⊎ ℕ
wallet_or_404 missing = inr 404
wallet_or_404 failed = inr 404
wallet_or_404 (found (key, x)) = inl x

module _ {t : Tables} (by : Caller) where
  -- loadUserWallet of handler/wallet.go: the wallet of the path, if it is the caller's.
  unfoldable pub load_user_wallet : String → World t → Wallet ⊎ ℕ
  load_user_wallet id w =
      if id == ""
      then inr 400
      else wallet_or_404 (t.wallets.find (own_wallet id by.user_id) w.wallets)

  -- writeAuditCtx and writeAuditLog in handler/audit.go, whose errors are logged.
  unfoldable pub write_audit_ctx : String → String → Option String → Option ℕ → World t → World t
  write_audit_ctx action status wallet_id approval_id w =
      let row : AuditLog = record {
        user_id = by.user_id;
        action = action;
        wallet_id = wallet_id;
        approval_id = approval_id;
        status = status;
        created_at = by.now;
        approved_at = none;
      } in
      record w { audits = (t.audits.create row w.audits).0 }

  -- createPendingApproval
  abbrev pub create_pending_approval :
      ApprovalType → Option String → String → ℕ → World t → t.approvals.Store × Created
  create_pending_approval ty wallet_id policy_data expiry w =
      t.approvals.create (pending_approval by ty wallet_id policy_data expiry) w.approvals
