-- ===== src/Handler/Spend.antt =====
-- What the handlers of handler/wallet.go do with a transaction that is built: the approval policy of
-- the wallet, the daily limit, the approval threshold, createApprovalRequest and signAndBroadcast.
-- Transfer, WrapSOL and UnwrapSOL run this code.
mod Cases
pub mod Clearance
pub mod Counter
pub mod Replay
pub mod Samples
mod Examples
use teenet_wallet.Base.{
  ℕ, String, Bool, true, false, not, ◌&&◌, ◌||◌, Option, none, some, List, ◌++◌, inl, inr, ◌⊎◌,
  if◌then◌else◌, ◌==◌, string_eq,
}
use teenet_wallet.Db.{
  Found, found, missing, failed, Created, created, duplicate, not_created, Table,
}
use teenet_wallet.Model.{ApprovalPolicy, ApprovalRequest, sign, IdempotencyRecord, Wallet}
use teenet_wallet.Chain.EthFees.{BigInts}
use teenet_wallet.Handler.DailyLimit.{
  BigFloat, Outcome, allowed, exceeded, update_error, enabled_for, positive,
  check_and_deduct_daily_limit_usd, release_daily_spent_usd,
}
use teenet_wallet.Handler.Approval.World.{Tables, World}
use teenet_wallet.Handler.Requests.{Caller, write_audit_ctx, pending_approval}
use teenet_wallet.Handler.Idempotency.{RequestKey, save, check_idempotency}
use teenet_wallet.Handler.Broadcast.{
  Node, Attempt, SignBroadcastResult, done, signing_failed, broadcast_failed, sign_and_broadcast,
}

-- Amounts in US dollars, which are float64 values, and prices above zero.
pub record Money (fl : BigFloat) : Type 1 where
  pub Usd : Type 0
  pub Price : Type 0
  pub zero_usd : Usd
  pub is_zero : Usd → Bool
  pub above_zero : Usd → Bool
  -- The amount as a float64 times the price.
  pub times : fl.Num → Price → Usd
  -- `SetFloat64`
  pub to_num : Usd → fl.Num

-- A response: a refusal by its status, a response from the idempotency store, a completed
-- transaction by its hash, or 202 with the approval to wait for.
pub data Reply : Type 0 where
  refused : (status : ℕ) → Reply
  replayed : (status : ℕ) → (response : String) → Reply
  completed : (tx_hash : String) → Reply
  pending_approval_reply : (approval_id : ℕ) → Reply

-- A built transaction: the message to sign and the parameters to send, the JSON of its context if it
-- can be encoded, its amount in US dollars, zero if unknown, whether an active policy wants
-- an approval whatever the amount, the action for the audit log, and the response by its hash.
pub record Proposal {fl : BigFloat} (m : Money fl) : Type 0 where
  pub wallet : Wallet
  pub message : String
  pub params : String
  pub context : Option String
  pub amount_usd : m.Usd
  pub unpriced : Bool
  pub action : String
  pub response : String → String

-- The tables, the idempotency store, and the turns of signAndBroadcast.
pub record SpendState (t : Tables) (records : Table IdempotencyRecord) : Type 0 where
  pub world : World t
  pub saved : records.Store
  pub log : List Attempt

abbrev pub policy_of : {t : Tables} → World t → Wallet → Option ApprovalPolicy
policy_of {t} w wallet = elim (t.policies.find (enabled_for wallet.id) w.policies) [
  | found (id, p) ↦ some p
  | missing ↦ none
  | failed ↦ none
]

module _ {fl : BigFloat} (m : Money fl) where
  abbrev pub exceeds_usd_threshold : m.Usd → String → Bool
  exceeds_usd_threshold amount threshold = elim (positive fl threshold) [
    | none ↦ false
    | some t ↦ fl.gtb (m.to_num amount) t
  ]

  abbrev pub usd_text : m.Usd → String
  usd_text amount = fl.text (m.to_num amount)

  abbrev pub asked_approval : (String → String) → ℕ → Caller → Proposal m → String → ApprovalRequest
  asked_approval hex expiry by p context =
      record (pending_approval by sign (some p.wallet.id) "" expiry) {
        message = hex p.message;
        tx_context = context;
        tx_params = p.params;
      }

  abbrev pub is_limited : Proposal m → ApprovalPolicy → Bool
  is_limited p policy = not (policy.daily_limit_usd == "") && m.above_zero p.amount_usd

  module _ (ints : BigInts) (node : Node) (hex : String → String) (expiry : ℕ) {t : Tables}
      {records : Table IdempotencyRecord} (has_store : Bool) (by : Caller) (key : RequestKey) where
    abbrev pub approval_asked :
        Proposal m
        → SpendState t records
        → t.approvals.Store × Created
        → SpendState t records × Reply
    approval_asked p s (st, duplicate) =
        (record s { world = record s.world { approvals = st } }, refused 500)
    approval_asked p s (st, not_created) =
        (record s { world = record s.world { approvals = st } }, refused 500)
    approval_asked p s (st, created id) = (
      record s {
        world =
            write_audit_ctx by (if p.params == "" then "sign" else "transfer") "pending"
              (some p.wallet.id) (some id) (record s.world { approvals = st });
      },
      pending_approval_reply id,
    )

    -- createApprovalRequest
    unfoldable pub create_approval_request :
        Proposal m → SpendState t records → SpendState t records × Reply
    create_approval_request p s = elim p.context [
      | none ↦ (s, refused 500)
      | some context ↦
          approval_asked p s
            (t.approvals.create (asked_approval hex expiry by p context) s.world.approvals)
    ]

    abbrev pub release : Proposal m → Option String → SpendState t records → SpendState t records
    release p none s = s
    release p (some amount) s = record s {
      world = record s.world {
        policies = release_daily_spent_usd fl t.policies p.wallet.id amount by.now s.world.policies;
      };
    }

    abbrev pub log_attempts : List Attempt → SpendState t records → SpendState t records
    log_attempts new s = record s { log = s.log ++ new }

    -- The end of a handler, after signAndBroadcast, by what was taken from the daily limit.
    abbrev pub settled :
        Proposal m
        → Option String
        → SpendState t records
        → List Attempt × SignBroadcastResult
        → SpendState t records × Reply
    settled p taken s (new, signing_failed) = (release p taken (log_attempts new s), refused 422)
    settled p taken s (new, broadcast_failed err) = (
      release p taken (log_attempts new s),
      refused (if ints.contains err "rpc error:" then 400 else 422),
    )
    settled p taken s (new, done sig hash) = (
      record (log_attempts new s) {
        world = write_audit_ctx by p.action "success" (some p.wallet.id) none s.world;
        saved = save records has_store key by.now 200 (p.response hash) s.saved;
      },
      completed hash,
    )

    unfoldable pub send_now :
        Proposal m → Option String → SpendState t records → SpendState t records × Reply
    send_now p taken s =
        settled p taken s (sign_and_broadcast ints node p.wallet p.message p.params)

    -- The threshold of a single transaction.
    abbrev pub under_threshold :
        Proposal m
        → ApprovalPolicy
        → Option String
        → SpendState t records
        → SpendState t records × Reply
    under_threshold p policy taken s =
        if m.above_zero p.amount_usd && exceeds_usd_threshold p.amount_usd policy.threshold_usd
        then create_approval_request p (release p taken s)
        else send_now p taken s

    abbrev pub after_limit :
        Proposal m
        → ApprovalPolicy
        → SpendState t records
        → t.policies.Store × Outcome
        → SpendState t records × Reply
    after_limit p policy s (st, update_error) =
        (record s { world = record s.world { policies = st } }, refused 500)
    after_limit p policy s (st, exceeded) =
        (record s { world = record s.world { policies = st } }, refused 400)
    after_limit p policy s (st, allowed) =
        under_threshold p policy (some (usd_text p.amount_usd))
          (record s { world = record s.world { policies = st } })

    unfoldable pub under_policy :
        Proposal m → ApprovalPolicy → SpendState t records → SpendState t records × Reply
    under_policy p policy s =
        if p.unpriced
        then create_approval_request p s
        else if is_limited p policy
        then after_limit p policy s (
            check_and_deduct_daily_limit_usd fl t.policies p.wallet.id (usd_text p.amount_usd)
              by.now s.world.policies)
        else under_threshold p policy none s

    -- The policy is the enabled one of the wallet, if it has one.
    unfoldable pub spend :
        Proposal m → Option ApprovalPolicy → SpendState t records → SpendState t records × Reply
    spend p none s = send_now p none s
    spend p (some policy) s = under_policy p policy s

    abbrev pub spend_prepared :
        (Proposal m × Option ApprovalPolicy) ⊎ ℕ
        → SpendState t records
        → SpendState t records × Reply
    spend_prepared (inr status) s = (s, refused status)
    spend_prepared (inl (p, policy)) s = spend p policy s

    abbrev pub unless_saved :
        Option (ℕ × String)
        → (Proposal m × Option ApprovalPolicy) ⊎ ℕ
        → SpendState t records
        → SpendState t records × Reply
    unless_saved (some (status, response)) prepared s = (s, replayed status response)
    unless_saved none prepared s = spend_prepared prepared s

    -- A handler, by what its checks come to: a saved response comes first.
    unfoldable pub answer :
        (World t → (Proposal m × Option ApprovalPolicy) ⊎ ℕ)
        → SpendState t records
        → SpendState t records × Reply
    answer prepare s =
        unless_saved (check_idempotency records has_store key by.now s.saved) (prepare s.world) s
