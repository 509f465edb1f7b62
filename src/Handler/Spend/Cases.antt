-- ===== src/Handler/Spend/Cases.antt =====
-- The ways that the policy code of handler/wallet.go takes a built transaction.
use teenet_wallet.Base.{
  ℕ, ◌≡◌, refl, ap, sym, subst, String, Bool, true, false, ◌&&◌, Option, none, some, inl, inr, ◌⊎◌,
  if_ind,
}
use teenet_wallet.Db.{Table}
use teenet_wallet.Model.{ApprovalPolicy, IdempotencyRecord}
use teenet_wallet.Chain.EthFees.{BigInts}
use teenet_wallet.Handler.DailyLimit.{
  BigFloat, Outcome, allowed, exceeded, update_error, check_and_deduct_daily_limit_usd,
}
use teenet_wallet.Handler.Approval.World.{Tables}
use teenet_wallet.Handler.Requests.{Caller}
use teenet_wallet.Handler.Idempotency.{RequestKey}
use teenet_wallet.Handler.Broadcast.{Node}
use teenet_wallet.Handler.Spend.{
  Money, Reply, refused, Proposal, SpendState, exceeds_usd_threshold, usd_text, is_limited,
  create_approval_request, release, send_now, under_threshold, after_limit, under_policy, spend,
}

abbrev pub with_policies :
    {t : Tables} {records : Table IdempotencyRecord}
    → SpendState t records
    → t.policies.Store
    → SpendState t records
with_policies s st = record s { world = record s.world { policies = st } }

abbrev pub is_above : {fl : BigFloat} (m : Money fl) → Proposal m → ApprovalPolicy → Bool
is_above m p policy =
    m.above_zero p.amount_usd && exceeds_usd_threshold m p.amount_usd policy.threshold_usd

module _ {fl : BigFloat} (m : Money fl) {t : Tables} {records : Table IdempotencyRecord}
    (by : Caller) where
  -- The deduction for a transaction.
  abbrev pub deduction : Proposal m → SpendState t records → t.policies.Store × Outcome
  deduction p s =
      check_and_deduct_daily_limit_usd fl t.policies p.wallet.id (usd_text m p.amount_usd) by.now
        s.world.policies

  -- What was taken from the daily limit, and the state afterwards.
  abbrev pub IsTaken :
      Proposal m
      → ApprovalPolicy
      → SpendState t records
      → Option String
      → SpendState t records
      → Type 0
  IsTaken p policy s none s' = (is_limited m p policy ≡ false) × (s' ≡ s)
  IsTaken p policy s (some amount) s' =
      (is_limited m p policy ≡ true)
      × (amount ≡ usd_text m p.amount_usd)
      × ((deduction p s).1 ≡ allowed)
      × (s' ≡ with_policies s (deduction p s).0)

module _ {fl : BigFloat} (m : Money fl) (ints : BigInts) (node : Node) (hex : String → String)
    (expiry : ℕ) {t : Tables} {records : Table IdempotencyRecord} (has_store : Bool) (by : Caller)
    (key : RequestKey) (p : Proposal m) (s : SpendState t records)
    (P : SpendState t records × Reply → Type 0)
    (asks_unpriced : P (create_approval_request m ints node hex expiry has_store by key p s))
    (refuses : (policy : ApprovalPolicy) (status : ℕ)
      → is_limited m p policy ≡ true
      → ((deduction m by p s).1 ≡ exceeded) ⊎ ((deduction m by p s).1 ≡ update_error)
      → P (with_policies s (deduction m by p s).0, refused status))
    (asks_above : (policy : ApprovalPolicy) (taken : Option String) (s' : SpendState t records)
      → IsTaken m by p policy s taken s'
      → P (
          create_approval_request m ints node hex expiry has_store by key p
            (release m ints node hex expiry has_store by key p taken s'))) where
  module _ (policy : ApprovalPolicy)
      (sends : (taken : Option String) (s' : SpendState t records)
        → p.unpriced ≡ false
        → is_above m p policy ≡ false
        → IsTaken m by p policy s taken s'
        → P (send_now m ints node hex expiry has_store by key p taken s')) where
    under_threshold_ind :
        (taken : Option String) (s' : SpendState t records)
        → p.unpriced ≡ false
        → IsTaken m by p policy s taken s'
        → P (under_threshold m ints node hex expiry has_store by key p policy taken s')
    under_threshold_ind taken s' priced h =
        if_ind P (is_above m p policy) _ _ (λ above. asks_above policy taken s' h)
          (λ below. sends taken s' priced below h)

    after_limit_ind :
        (r : t.policies.Store × Outcome)
        → deduction m by p s ≡ r
        → p.unpriced ≡ false
        → is_limited m p policy ≡ true
        → P (after_limit m ints node hex expiry has_store by key p policy s r)
    after_limit_ind (st, allowed) e priced limited =
        under_threshold_ind (some (usd_text m p.amount_usd)) (with_policies s st) priced
          (limited, refl, ap (λ r. r.1) e, ap (λ r. with_policies s r.0) (sym e))
    after_limit_ind (st, exceeded) e priced limited =
        subst (λ u. P (with_policies s u, refused 400)) (ap (λ r. r.0) e)
          (refuses policy 400 limited (inl (ap (λ r. r.1) e)))
    after_limit_ind (st, update_error) e priced limited =
        subst (λ u. P (with_policies s u, refused 500)) (ap (λ r. r.0) e)
          (refuses policy 500 limited (inr (ap (λ r. r.1) e)))

    under_policy_ind : P (under_policy m ints node hex expiry has_store by key p policy s)
    unfolding under_policy
    under_policy_ind =
        if_ind P p.unpriced _ _ (λ unknown. asks_unpriced)
          λ priced.
            if_ind P (is_limited m p policy) _ _
              (λ limited. after_limit_ind (deduction m by p s) refl priced limited)
              (λ free. under_threshold_ind none s priced (free, refl))

  pub spend_ind :
      (o : Option ApprovalPolicy)
      → (o ≡ none → P (send_now m ints node hex expiry has_store by key p none s))
      → ((policy : ApprovalPolicy) (taken : Option String) (s' : SpendState t records)
          → o ≡ some policy
          → p.unpriced ≡ false
          → is_above m p policy ≡ false
          → IsTaken m by p policy s taken s'
          → P (send_now m ints node hex expiry has_store by key p taken s'))
      → P (spend m ints node hex expiry has_store by key p o s)
  unfolding spend
  spend_ind none free sends = free refl
  spend_ind (some policy) free sends =
      under_policy_ind policy λ taken s' priced below h. sends policy taken s' refl priced below h
