-- ===== src/Handler/ContractCall/Authority.antt =====
-- What has to hold before handler/contract_call.go signs a call.
use teenet_wallet.Base.{
  ℕ, ◌≡◌, String, true, Option, none, some, [], ◌∷◌, ◌++◌, ◌⊎◌, ◌==◌, string_eq,
}
use teenet_wallet.Model.{ApprovalPolicy, ApprovalRequest, contract_call}
use teenet_wallet.Handler.Facts.{IsPolicyOf, IsUnder, WaitsWith}
use teenet_wallet.Chain.EthFees.{BigInts}
use teenet_wallet.Chain.Abi.Encode.{AbiTools}
use teenet_wallet.Handler.DailyLimit.{BigFloat, Outcome, allowed, check_and_deduct_daily_limit_usd}
use teenet_wallet.Handler.Approval.World.{Tables, World}
use teenet_wallet.Handler.Requests.{Caller}
use teenet_wallet.Handler.Contract.Address.{AddressTools}
use teenet_wallet.Handler.Broadcast.{Node, Delivery}
use teenet_wallet.Handler.Spend.{
  Money, Reply, refused, replayed, completed, pending_approval_reply, usd_text,
}
use teenet_wallet.Handler.ContractCall.{BuiltCall, CallState, attempt_call, run_call}
use teenet_wallet.Handler.ContractCall.Prepare.{CallTools, CallRequest, prepare_request}
use teenet_wallet.Handler.ContractCall.Checks.{CallChecks, contract_of}

module _ {fl : BigFloat} (m : Money fl) (by : Caller) {t : Tables} where
  abbrev pub call_deduction : BuiltCall m → m.Usd → World t → t.policies.Store × Outcome
  call_deduction c usd w =
      check_and_deduct_daily_limit_usd fl t.policies c.wallet.id (usd_text m usd) by.now w.policies

  -- A value is not above the threshold of the policy, and the daily limit has room for it.
  abbrev pub IsWithinPolicy : BuiltCall m → Option m.Usd → Option ApprovalPolicy → World t → Type 0
  IsWithinPolicy c none policy w = Unit {0}
  IsWithinPolicy c (some usd) none w = Unit {0}
  IsWithinPolicy c (some usd) (some policy) w =
      IsUnder fl (m.to_num usd) policy.threshold_usd
      × (((policy.daily_limit_usd == "") ≡ true) ⊎ ((call_deduction c usd w).1 ≡ allowed))

module _ {fl : BigFloat} (m : Money fl) (ints : BigInts) (node : Node)
    (broadcast_program : String → String → Delivery) (hex : String → String) (expiry : ℕ)
    (by : Caller) {t : Tables} where
  -- A response without a signature: a refusal, or an approval that waits with the call.
  abbrev pub IsHeldCall : BuiltCall m → CallState t × Reply → Type 0
  IsHeldCall c (s, refused status) = Unit {0}
  IsHeldCall c (s, replayed status response) = ⊥
  IsHeldCall c (s, completed hash) = ⊥
  IsHeldCall c (s, pending_approval_reply id) =
      (a : ApprovalRequest) × (t.approvals.row id s.world.approvals ≡ some a)
      × WaitsWith by contract_call c.wallet (hex c.message) c.params c.context a

  -- One attempt to sign and send the call.
  abbrev pub IsSent : BuiltCall m → CallState t → CallState t → Type 0
  IsSent c s s' = s'.log ≡ s.log ++ attempt_call m ints node broadcast_program hex expiry by c ∷ []

  abbrev pub IsDecided : BuiltCall m → CallState t → CallState t × Reply → Type 0
  IsDecided c s r =
      ((r.0.log ≡ s.log) × IsHeldCall c r)
      ⊎ ((by.is_passkey_auth ≡ true)
          × (o : Option ApprovalPolicy) × IsPolicyOf s.world c.wallet o
          × IsWithinPolicy m by c c.value_usd o s.world
          × IsSent c s r.0)

  module _ (addresses : AddressTools) (abi : AbiTools) (tools : CallTools fl m) (id : String)
      (req : CallRequest) where
    -- The handler, by what its checks come to.
    abbrev pub handle_call : CallState t → CallState t × Reply
    handle_call =
        run_call m ints node broadcast_program hex expiry by
          (prepare_request m addresses abi tools by id req)

    abbrev pub IsAuthorised : CallState t → CallState t × Reply → Type 0
    IsAuthorised s r =
        ((status : ℕ) × (r ≡ (s, refused status)))
        ⊎ ((c : BuiltCall m) × CallChecks m addresses abi tools by id (contract_of req) s.world c
            × IsDecided c s r)
