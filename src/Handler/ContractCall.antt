-- ===== src/Handler/ContractCall.antt =====
-- ContractCall, ApproveToken and RevokeApproval of handler/contract_call.go. What the checks come to is a
-- built call or the status of a refusal; the rest asks for an approval, or signs and sends the call.
pub mod Prepare
pub mod Checks
pub mod Authority
mod Examples
use teenet_wallet.Base.{
  ℕ, String, Bool, true, false, not, ◌&&◌, Option, none, some, List, [], ◌∷◌, ◌++◌, inl, inr, ◌⊎◌,
  if◌then◌else◌, ◌==◌, string_eq,
}
use teenet_wallet.Db.{Created, created, duplicate, not_created, Found, found, missing, failed}
use teenet_wallet.Model.{ApprovalPolicy, ApprovalRequest, contract_call, Wallet}
use teenet_wallet.Chain.EthFees.{BigInts}
use teenet_wallet.Handler.DailyLimit.{
  BigFloat, Outcome, allowed, exceeded, update_error, check_and_deduct_daily_limit_usd,
}
use teenet_wallet.Handler.Approval.World.{Tables, World}
use teenet_wallet.Handler.Requests.{Caller, write_audit_ctx, pending_approval}
use teenet_wallet.Handler.Broadcast.{Node, Attempt, not_signed, sent, Delivery, delivered, rejected}
use teenet_wallet.Handler.Spend.{
  Money, Reply, refused, completed, pending_approval_reply, policy_of, exceeds_usd_threshold,
  usd_text,
}

-- A built call: the message to sign and the parameters to send, the JSON of its context, its value in US
-- dollars if it has one that is known, the action for the audit log, and whether it is a program call.
pub record BuiltCall {fl : BigFloat} (m : Money fl) : Type 0 where
  pub wallet : Wallet
  pub message : String
  pub params : String
  pub context : String
  pub value_usd : Option m.Usd
  pub action : String
  pub is_program : Bool

-- The tables, and what was asked of the TEE and the node.
pub record CallState (t : Tables) : Type 0 where
  pub world : World t
  pub log : List Attempt

module _ {fl : BigFloat} (m : Money fl) (ints : BigInts) (node : Node)
    (broadcast_program : String → String → Delivery) (hex : String → String) (expiry : ℕ)
    (by : Caller) where
  abbrev pub asked_call : BuiltCall m → ApprovalRequest
  asked_call c = record (pending_approval by contract_call (some c.wallet.id) "" expiry) {
    message = hex c.message;
    tx_context = c.context;
    tx_params = c.params;
  }

  -- broadcastSigned, or AssembleAndBroadcastSOLProgram for a program call.
  abbrev pub deliver_call : BuiltCall m → String → Delivery
  deliver_call c sig =
      if c.is_program
      then broadcast_program c.params sig
      else node.broadcast_signed 0 c.wallet c.params sig

  abbrev pub attempt_of : BuiltCall m → Option String → Attempt
  attempt_of c none = not_signed c.message
  attempt_of c (some sig) = sent c.message c.params sig (deliver_call c sig)

  -- One signature, and one broadcast if there is one.
  abbrev pub attempt_call : BuiltCall m → Attempt
  attempt_call c = attempt_of c (node.tee_sign 0 c.message c.wallet.key_name)

  module _ {t : Tables} where
    abbrev pub call_asked :
        BuiltCall m → CallState t → t.approvals.Store × Created → CallState t × Reply
    call_asked c s (st, duplicate) =
        (record s { world = record s.world { approvals = st } }, refused 500)
    call_asked c s (st, not_created) =
        (record s { world = record s.world { approvals = st } }, refused 500)
    call_asked c s (st, created id) = (
      record s {
        world =
            write_audit_ctx by c.action "pending" (some c.wallet.id) (some id)
              (record s.world { approvals = st });
      },
      pending_approval_reply id,
    )

    unfoldable pub ask_approval : BuiltCall m → CallState t → CallState t × Reply
    ask_approval c s = call_asked c s (t.approvals.create (asked_call c) s.world.approvals)

    abbrev pub answer_call : BuiltCall m → CallState t → Delivery → CallState t × Reply
    answer_call c s (rejected err) =
        (s, refused (if ints.contains err "rpc error:" then 400 else 422))
    answer_call c s (delivered hash) = (
      record s { world = write_audit_ctx by c.action "success" (some c.wallet.id) none s.world },
      completed hash,
    )

    abbrev pub signed_call : BuiltCall m → CallState t → Option String → CallState t × Reply
    signed_call c s none = (s, refused 422)
    signed_call c s (some sig) = answer_call c s (deliver_call c sig)

    -- A failure does not give back what was taken from the daily limit.
    unfoldable pub send_call : BuiltCall m → CallState t → CallState t × Reply
    send_call c s =
        signed_call c (record s { log = s.log ++ attempt_call c ∷ [] })
          (node.tee_sign 0 c.message c.wallet.key_name)

    abbrev pub call_deducted :
        BuiltCall m → CallState t → t.policies.Store × Outcome → CallState t × Reply
    call_deducted c s (st, update_error) =
        (record s { world = record s.world { policies = st } }, refused 500)
    call_deducted c s (st, exceeded) =
        (record s { world = record s.world { policies = st } }, refused 400)
    call_deducted c s (st, allowed) =
        send_call c (record s { world = record s.world { policies = st } })

    -- A call with a value, under the policy of the wallet if it has one: the threshold, then the limit.
    abbrev pub under_call_policy :
        BuiltCall m → m.Usd → Option ApprovalPolicy → CallState t → CallState t × Reply
    under_call_policy c usd none s = send_call c s
    under_call_policy c usd (some policy) s =
        if exceeds_usd_threshold m usd policy.threshold_usd
        then ask_approval c s
        else if policy.daily_limit_usd == ""
        then send_call c s
        else call_deducted c s (
            check_and_deduct_daily_limit_usd fl t.policies c.wallet.id (usd_text m usd) by.now
              s.world.policies)

    abbrev pub with_value : BuiltCall m → Option m.Usd → CallState t → CallState t × Reply
    with_value c none s = send_call c s
    with_value c (some usd) s = under_call_policy c usd (policy_of s.world c.wallet) s

    -- The security decision: with an API key a call always waits for an approval.
    unfoldable pub decide : BuiltCall m → CallState t → CallState t × Reply
    decide c s = if by.is_passkey_auth then with_value c c.value_usd s else ask_approval c s

    abbrev pub decide_prepared : BuiltCall m ⊎ ℕ → CallState t → CallState t × Reply
    decide_prepared (inr status) s = (s, refused status)
    decide_prepared (inl c) s = decide c s

    -- A handler, by its checks.
    unfoldable pub run_call : (World t → BuiltCall m ⊎ ℕ) → CallState t → CallState t × Reply
    run_call prepare s = decide_prepared (prepare s.world) s
