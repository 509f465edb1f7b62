-- ===== src/Handler/DailyLimit.antt =====
-- The daily USD counter of handler/wallet.go: checkAndDeductDailyLimitUSD, releaseDailySpentUSD and
-- addDailySpentUSD. Each runs under the wallet's mutex, so a call is one step on the policy table.
pub mod Exact
pub mod Laws
pub mod Stroke
mod Examples
use teenet_wallet.Base.{
  ℕ, ◌-◌, ◌%◌, String, Bool, true, false, not, ◌&&◌, ◌||◌, Option, none, some, ltb, if◌then◌else◌,
  ◌==◌, string_eq,
}
use teenet_wallet.Db.{Found, found, missing, failed, Table}
use teenet_wallet.Model.{ApprovalPolicy}

-- What the code uses of math/big's Float: there are no floats, so the type and its operations are
-- a parameter.
pub record BigFloat : Type 1 where
  pub Num : Type 0
  -- `new(big.Float)`
  pub zero_value : Num
  -- `SetString`
  pub parse : String → Option Num
  -- `Sign() > 0` and `Sign() < 0`
  pub is_positive : Num → Bool
  pub is_negative : Num → Bool
  pub add : Num → Num → Num
  pub sub : Num → Num → Num
  -- `a.Cmp(b) > 0`
  pub gtb : Num → Num → Bool
  -- `Text('f', 6)`
  pub text : Num → String

-- utcStartOfDay in handler/helpers.go, on Unix seconds.
abbrev pub utc_start_of_day : ℕ → ℕ
utc_start_of_day now = now - now % 86400

-- (exceeded, error) of checkAndDeductDailyLimitUSD; the message goes with `exceeded`.
pub data Outcome : Type 0 where
  allowed exceeded update_error : Outcome

abbrev pub enabled_for : String → ℕ → ApprovalPolicy → Bool
enabled_for wallet_id id p = (p.wallet_id == wallet_id) && p.enabled

module _ (fl : BigFloat) where
  open fl use {Num, zero_value, parse, is_positive, is_negative, add, sub, gtb, text}

  -- A string that holds a number above zero.
  abbrev pub positive : String → Option Num
  positive s = elim (parse s) [ none ↦ none | some x ↦ if is_positive x then some x else none ]

  -- `spent, _ := SetString(s)`, with zero in place of nil.
  abbrev pub or_zero : Option Num → Num
  or_zero none = zero_value
  or_zero (some x) = x

  -- The counter and its reset time as the code reads them at `now`.
  abbrev pub current_spent : ApprovalPolicy → ℕ → String
  current_spent p now =
      if ltb p.daily_reset_at (utc_start_of_day now) then "0" else p.daily_spent_usd

  abbrev pub current_reset : ApprovalPolicy → ℕ → ℕ
  current_reset p now =
      if ltb p.daily_reset_at (utc_start_of_day now) then utc_start_of_day now else p.daily_reset_at

  abbrev pub new_spent : ApprovalPolicy → ℕ → Num → Num
  new_spent p now amount = add (or_zero (parse (current_spent p now))) amount

  abbrev pub store_spent : Num → ℕ → ApprovalPolicy → ApprovalPolicy
  store_spent x reset_at p = record p { daily_spent_usd = text x; daily_reset_at = reset_at }

  abbrev pub set_spent : Num → ApprovalPolicy → ApprovalPolicy
  set_spent x p = record p { daily_spent_usd = text x }

  -- The counter after a release, which stops at zero.
  abbrev pub less_amount : Num → Num → Num
  less_amount spent amount = if is_negative (sub spent amount) then zero_value else sub spent amount

  module _ (policies : Table ApprovalPolicy) where
    open policies use {Store, find, update}

    -- The update at the end of checkAndDeductDailyLimitUSD, whose error is returned.
    abbrev pub deducted : Store × Bool → Store × Outcome
    deducted (s, true) = (s, allowed)
    deducted (s, false) = (s, update_error)

    unfoldable pub deduct_from : ℕ → ApprovalPolicy → String → ℕ → Store → Store × Outcome
    deduct_from id p amount_usd now s = elim (positive p.daily_limit_usd) [
      | none ↦ (s, allowed)
      | some limit ↦ elim (positive amount_usd) [
        | none ↦ (s, allowed)
        | some amount ↦
            if gtb (new_spent p now amount) limit
            then (s, exceeded)
            else deducted (update id (store_spent (new_spent p now amount) (current_reset p now)) s)
      ]
    ]

    unfoldable pub check_and_deduct_daily_limit_usd : String → String → ℕ → Store → Store × Outcome
    unfolding deduct_from
    check_and_deduct_daily_limit_usd wallet_id amount_usd now s =
        elim (find (enabled_for wallet_id) s) [
          | found (id, p) ↦
              if p.daily_limit_usd == "" then (s, allowed) else deduct_from id p amount_usd now s
          | missing ↦ (s, allowed)
          | failed ↦ (s, allowed)
        ]

    unfoldable pub release_from : ℕ → ApprovalPolicy → Num → ℕ → Store → Store
    release_from id p amount now s =
        if ltb p.daily_reset_at (utc_start_of_day now) then s else elim (parse p.daily_spent_usd) [
          | none ↦ s
          | some spent ↦ (update id (set_spent (less_amount spent amount)) s).0
        ]

    unfoldable pub release_daily_spent_usd : String → String → ℕ → Store → Store
    unfolding release_from
    release_daily_spent_usd wallet_id amount_usd now s = elim (positive amount_usd) [
      | none ↦ s
      | some amount ↦ elim (find (enabled_for wallet_id) s) [
        | found (id, p) ↦ release_from id p amount now s
        | missing ↦ s
        | failed ↦ s
      ]
    ]

    pub add_daily_spent_usd : String → String → ℕ → Store → Store
    add_daily_spent_usd wallet_id amount_usd now s = elim (positive amount_usd) [
      | none ↦ s
      | some amount ↦ elim (find (enabled_for wallet_id) s) [
        | found (id, p) ↦
            (update id (store_spent (new_spent p now amount) (current_reset p now)) s).0
        | missing ↦ s
        | failed ↦ s
      ]
    ]
