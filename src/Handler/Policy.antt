-- ===== src/Handler/Policy.antt =====
-- SetPolicy and DeletePolicy of handler/wallet.go: who may change the approval policy of a wallet. An
-- API key may only propose a policy, which becomes an approval.
pub mod Rows
pub mod Authority
mod Examples
use teenet_wallet.Base.{
  ℕ, String, Bool, true, false, ◌&&◌, ◌||◌, Option, none, some, inl, inr, ◌⊎◌, if◌then◌else◌, ◌==◌,
  string_eq,
}
use teenet_wallet.Db.{
  Found, found, missing, failed, Created, created, duplicate, not_created, Affected, rows_changed,
  no_rows, write_error, Table,
}
use teenet_wallet.Model.{ApprovalPolicy, policy_change, User, Wallet}
use teenet_wallet.Handler.DailyLimit.{BigFloat, positive}
use teenet_wallet.Handler.Passkey.{
  PasskeyClient, PasskeyBody, Check, accepted, refused, verify_fresh_passkey,
  verify_fresh_passkey_parsed,
}
use teenet_wallet.Handler.Approval.World.{Tables, World}
use teenet_wallet.Handler.Approval.Changes.{new_policy, apply_policy, policy_of, save_policy}
use teenet_wallet.Handler.Requests.{
  Caller, write_audit_ctx, create_pending_approval, load_user_wallet,
}

-- The body of a request, as bound from its JSON.
pub record SetPolicyReq : Type 0 where
  pub login_session_id : ℕ
  pub credential : Option String
  pub threshold_usd : String
  pub daily_limit_usd : String
  pub enabled : Option Bool

abbrev pub or_true : Option Bool → Bool
or_true none = true
or_true (some b) = b

abbrev pub proposed_policy : String → SetPolicyReq → ApprovalPolicy
proposed_policy wallet_id req = record (new_policy wallet_id) {
  threshold_usd = req.threshold_usd;
  daily_limit_usd = req.daily_limit_usd;
  enabled = or_true req.enabled;
}

abbrev pub same_bool : Bool → Bool → Bool
same_bool true b = b
same_bool false true = false
same_bool false false = true

-- The stored policy is as the request wants it.
abbrev pub is_same_policy : SetPolicyReq → Found (ℕ × ApprovalPolicy) → Bool
is_same_policy req missing = false
is_same_policy req failed = false
is_same_policy req (found (key, p)) =
    (p.threshold_usd == req.threshold_usd)
    && (same_bool p.enabled (or_true req.enabled) && (p.daily_limit_usd == req.daily_limit_usd))

abbrev pub is_positive_number : BigFloat → String → Bool
is_positive_number fl s = elim (positive fl s) [ none ↦ false | some x ↦ true ]

abbrev pub is_valid_policy : BigFloat → SetPolicyReq → Bool
is_valid_policy fl req =
    is_positive_number fl req.threshold_usd
    && ((req.daily_limit_usd == "") || is_positive_number fl req.daily_limit_usd)

-- The requests that these handlers serve; the body is `none` if its JSON does not bind.
pub data PolicyRequest : Type 0 where
  set_policy : Option SetPolicyReq → PolicyRequest
  delete_policy : Option PasskeyBody → PolicyRequest

module _ (fl : BigFloat) (sdk : PasskeyClient) (users : Table User) (us : users.Store)
    (marshal : ApprovalPolicy → String) (expiry : ℕ) {t : Tables} (by : Caller) where
  abbrev pub policy_asked : String → World t → t.approvals.Store × Created → World t × ℕ
  policy_asked wallet_id w (s, duplicate) = (record w { approvals = s }, 500)
  policy_asked wallet_id w (s, not_created) = (record w { approvals = s }, 500)
  policy_asked wallet_id w (s, created id) = (
    write_audit_ctx by "policy_update" "pending" (some wallet_id) (some id)
        (record w { approvals = s }),
    202,
  )

  abbrev pub policy_stored : String → World t → t.policies.Store × Bool → World t × ℕ
  policy_stored wallet_id w (s, false) = (record w { policies = s }, 500)
  policy_stored wallet_id w (s, true) = (
    write_audit_ctx by "policy_update" "success" (some wallet_id) none (record w { policies = s }),
    200,
  )

  abbrev pub store_checked : String → SetPolicyReq → Check → World t → World t × ℕ
  store_checked wallet_id req (refused status) w = (w, status)
  store_checked wallet_id req accepted w =
      policy_stored wallet_id w
        (save_policy t.policies wallet_id (proposed_policy wallet_id req) w.policies)

  abbrev pub submit_policy : String → SetPolicyReq → World t → World t × ℕ
  submit_policy wallet_id req w =
      if by.is_passkey_auth
      then store_checked wallet_id req
          (verify_fresh_passkey_parsed sdk users us by.user_id req.login_session_id req.credential)
          w
      else policy_asked wallet_id w (
          create_pending_approval by policy_change (some wallet_id)
            (marshal (proposed_policy wallet_id req)) expiry w)

  unfoldable pub set_policy_of : Wallet → Option SetPolicyReq → World t → World t × ℕ
  set_policy_of wallet none w = (w, 400)
  set_policy_of wallet (some req) w =
      if is_valid_policy fl req
      then (if is_same_policy req (t.policies.find (policy_of wallet.id) w.policies)
          then (w, 200)
          else submit_policy wallet.id req w)
      else (w, 400)

  abbrev pub policies_deleted : Wallet → World t → t.policies.Store × Affected → World t × ℕ
  policies_deleted wallet w (s, write_error) = (record w { policies = s }, 500)
  policies_deleted wallet w (s, no_rows) = (record w { policies = s }, 404)
  policies_deleted wallet w (s, rows_changed) = (
    write_audit_ctx by "policy_update" "success" (some wallet.id) none (record w { policies = s }),
    200,
  )

  abbrev pub on_wallet : (Wallet → World t → World t × ℕ) → Wallet ⊎ ℕ → World t → World t × ℕ
  on_wallet k (inr status) w = (w, status)
  on_wallet k (inl wallet) w = k wallet w

  abbrev pub delete_policy_of : Wallet → World t → World t × ℕ
  delete_policy_of wallet w =
      policies_deleted wallet w (t.policies.delete_where (policy_of wallet.id) w.policies)

  abbrev pub delete_checked : String → Check → World t → World t × ℕ
  delete_checked id (refused status) w = (w, status)
  delete_checked id accepted w = on_wallet delete_policy_of (load_user_wallet by id w) w

  -- SetPolicy and DeletePolicy, for the wallet of the path.
  unfoldable pub handle_policy : String → PolicyRequest → World t → World t × ℕ
  handle_policy id (set_policy body) w =
      on_wallet (λ wallet. set_policy_of wallet body) (load_user_wallet by id w) w
  handle_policy id (delete_policy body) w =
      delete_checked id (verify_fresh_passkey sdk users us by.user_id body) w
