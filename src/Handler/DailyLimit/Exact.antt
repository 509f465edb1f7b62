-- ===== src/Handler/DailyLimit/Exact.antt =====
-- checkAndDeductDailyLimitUSD of handler/wallet.go on every branch, by the rows before and after.
use teenet_wallet.Base.{
  ℕ, ◌-◌, ◌%◌, ◌≤◌, ◌<◌, ◌≡◌, refl, subst, String, Bool, true, false, ◌&&◌, Option, none, some, ltb,
  ◌==◌, string_eq, nat_eq, inl, inr, ◌⊎◌, Bool-cases, and_true, Option-cases, arith,
}
use teenet_wallet.Db.{missing, failed, Table, Found-cases}
use teenet_wallet.Model.{ApprovalPolicy}
use teenet_wallet.Handler.DailyLimit.{
  BigFloat, Outcome, allowed, exceeded, update_error, enabled_for, positive, or_zero, current_spent,
  current_reset, new_spent, store_spent, deducted, deduct_from, check_and_deduct_daily_limit_usd,
  utc_start_of_day,
}

module _ (fl : BigFloat) where
  -- A text read as a number above zero, and one that is not.
  abbrev pub IsPositive : String → fl.Num → Type 0
  IsPositive s x = (fl.parse s ≡ some x) × (fl.is_positive x ≡ true)

  abbrev pub IsNotPositive : String → Type 0
  IsNotPositive s =
      (fl.parse s ≡ none) ⊎ ((x : fl.Num) × (fl.parse s ≡ some x) × (fl.is_positive x ≡ false))

  abbrev pub IsRead : String → fl.Num → Type 0
  IsRead s x = (fl.parse s ≡ some x) ⊎ ((fl.parse s ≡ none) × (x ≡ fl.zero_value))

  -- What is spent at `now`, and the day that it counts for: the stored counter if it was reset since
  -- midnight, and otherwise zero, for the day that began then.
  abbrev pub IsSpent : ApprovalPolicy → ℕ → fl.Num → ℕ → Type 0
  IsSpent p now x day =
      ((p.daily_reset_at < now - now % 86400) × IsRead "0" x × (day ≡ now - now % 86400))
      ⊎ ((now - now % 86400 ≤ p.daily_reset_at)
          × IsRead p.daily_spent_usd x
          × (day ≡ p.daily_reset_at))

  pub positive-split :
      (s : String)
      → ((x : fl.Num) × (positive fl s ≡ some x) × IsPositive s x)
        ⊎ ((positive fl s ≡ none) × IsNotPositive s)
  positive-split s = elim (Option-cases (fl.parse s)) [
    | inl n ↦ inr (rw (positive, n) refl, inl n)
    | inr (x, e) ↦ elim (Bool-cases (fl.is_positive x)) [
      | inl above ↦ inl (x, rw (positive, e, above) refl, (e, above))
      | inr below ↦ inr (rw (positive, e, below) refl, inr (x, e, below))
    ]
  ]

  or_zero-IsRead : (s : String) → IsRead s (or_zero fl (fl.parse s))
  or_zero-IsRead s = elim (Option-cases (fl.parse s)) [
    | inl n ↦ rw n (inr (refl, refl))
    | inr (x, e) ↦ rw e (inl refl)
  ]

  current-IsSpent :
      (p : ApprovalPolicy) (now : ℕ)
      → IsSpent p now (or_zero fl (fl.parse (current_spent fl p now))) (current_reset fl p now)
  current-IsSpent p now = elim (Bool-cases (ltb p.daily_reset_at (utc_start_of_day now))) [
    | inl stale ↦ rw stale (inl (ground (arith, stale), or_zero-IsRead "0", refl))
    | inr today ↦ rw today (inr (ground (arith, today), or_zero-IsRead p.daily_spent_usd, refl))
  ]

  module _ (policies : Table ApprovalPolicy) where
    open policies use {Store, row, find, update, find_found, update_row}

    -- The row after a deduction: the new counter and its day, and the rest as it was.
    abbrev pub IsCounted : ApprovalPolicy → fl.Num → ℕ → Option ApprovalPolicy → Type 0
    IsCounted p total day r =
        (q : ApprovalPolicy) × (r ≡ some q)
        × (q.daily_spent_usd ≡ fl.text total)
        × (q.daily_reset_at ≡ day)
        × (q.wallet_id ≡ p.wallet_id)
        × (q.daily_limit_usd ≡ p.daily_limit_usd)
        × (q.threshold_usd ≡ p.threshold_usd)
        × (q.enabled ≡ p.enabled)

    -- What a deduction of `amount` under `limit` comes to, with `x` spent before.
    abbrev pub Deducts :
        ℕ → ApprovalPolicy → fl.Num → fl.Num → ℕ → fl.Num → ℕ → Store → Store × Outcome → Type 0
    Deducts id p limit amount now x day s (s', outcome) =
        ((fl.gtb (fl.add x amount) limit ≡ true) × (outcome ≡ exceeded) × (s' ≡ s))
        ⊎ ((fl.gtb (fl.add x amount) limit ≡ false)
            × (outcome ≡ allowed)
            × IsCounted p (fl.add x amount) day (row id s'))
        ⊎ ((fl.gtb (fl.add x amount) limit ≡ false)
            × (outcome ≡ update_error)
            × ((j : ℕ) → row j s' ≡ row j s))

    -- A row for the wallet that is enabled.
    abbrev pub IsEnabledFor : String → ℕ → ApprovalPolicy → Store → Type 0
    IsEnabledFor wallet_id id p s =
        (row id s ≡ some p) × (p.wallet_id ≡ wallet_id) × (p.enabled ≡ true)

    -- Nothing to deduct: no enabled policy is found, or its limit or the amount is not above zero.
    abbrev pub IsUnlimited : String → String → Store → Type 0
    IsUnlimited wallet_id amount_usd s =
        (find (λ j p. (p.wallet_id == wallet_id) && p.enabled) s ≡ missing)
        ⊎ (find (λ j p. (p.wallet_id == wallet_id) && p.enabled) s ≡ failed)
        ⊎ ((id : ℕ) × (p : ApprovalPolicy) × IsEnabledFor wallet_id id p s
            × ((p.daily_limit_usd ≡ "")
                ⊎ IsNotPositive p.daily_limit_usd
                ⊎ IsNotPositive amount_usd))

    abbrev pub Answers : String → String → ℕ → Store → Store × Outcome → Type 0
    Answers wallet_id amount_usd now s r =
        (IsUnlimited wallet_id amount_usd s × (r ≡ (s, allowed)))
        ⊎ ((id : ℕ) × (p : ApprovalPolicy) × (limit : fl.Num) × (amount : fl.Num) × (x : fl.Num)
            × (day : ℕ) × IsEnabledFor wallet_id id p s
            × IsPositive p.daily_limit_usd limit
            × IsPositive amount_usd amount
            × IsSpent p now x day
            × Deducts id p limit amount now x day s r)

    deducted-cases :
        (r : Store × Bool)
        → ((r.1 ≡ true) × (deducted fl policies r ≡ (r.0, allowed)))
          ⊎ ((r.1 ≡ false) × (deducted fl policies r ≡ (r.0, update_error)))
    deducted-cases (s, true) = inl (refl, refl)
    deducted-cases (s, false) = inr (refl, refl)

    deduct_from-Deducts :
        (id : ℕ) (p : ApprovalPolicy) (limit amount : fl.Num) (amount_usd : String) (now : ℕ)
        (s : Store)
        → row id s ≡ some p
        → positive fl p.daily_limit_usd ≡ some limit
        → positive fl amount_usd ≡ some amount
        → Deducts id p limit amount now
            (or_zero fl (fl.parse (current_spent fl p now)))
            (current_reset fl p now)
            s
            (deduct_from fl policies id p amount_usd now s)
    unfolding deduct_from
    deduct_from-Deducts id p limit amount amount_usd now s here l a =
        let f = store_spent fl (new_spent fl p now amount) (current_reset fl p now) in
        elim (Bool-cases (fl.gtb (new_spent fl p now amount) limit)) [
          | inl over ↦ rw (l, deduct_from, a, over) (inl (refl, refl, refl))
          | inr fits ↦ elim (deducted-cases (update id f s)) [
            | inl (good, e) ↦
                rw (l, deduct_from, a, fits, e)
                  (inr (
                    inl (
                      refl,
                      refl,
                      (
                        f p,
                        rw (update_row id f s id, good, (nat_eq.eqb_iff id id).1 refl, here) refl,
                        refl,
                        refl,
                        refl,
                        refl,
                        refl,
                        refl,
                      ),
                    )))
            | inr (bad, e) ↦
                rw (l, deduct_from, a, fits, e)
                  (inr (inr (refl, refl, λ j. rw (update_row id f s j, bad) refl)))
          ]
        ]

    found-Answers :
        (wallet_id amount_usd : String) (now id : ℕ) (p : ApprovalPolicy) (s : Store)
        → IsEnabledFor wallet_id id p s
        → Answers wallet_id amount_usd now s (deduct_from fl policies id p amount_usd now s)
    unfolding deduct_from
    found-Answers wallet_id amount_usd now id p s here = elim (positive-split p.daily_limit_usd) [
      | inr (none_set, no_limit) ↦
          inl (inr (inr (id, p, here, inr (inl no_limit))), rw (deduct_from, none_set) refl)
      | inl (limit, l, is_limit) ↦ elim (positive-split amount_usd) [
        | inr (nothing, no_amount) ↦
            inl (inr (inr (id, p, here, inr (inr no_amount))), rw (deduct_from, l, nothing) refl)
        | inl (amount, a, is_amount) ↦ inr (
          id,
          p,
          limit,
          amount,
          _,
          _,
          here,
          is_limit,
          is_amount,
          current-IsSpent p now,
          deduct_from-Deducts id p limit amount amount_usd now s here.0 l a,
        )
      ]
    ]

    -- A deduction is allowed and changes nothing if no enabled policy of the wallet is found, or the
    -- policy has no limit above zero, or the amount is not above zero. Otherwise what is spent today
    -- counts from zero since midnight, and if it is above the limit with the amount, the answer is
    -- `exceeded` and nothing changes; if not, the answer is `allowed` with the sum as the new counter of the policy,
    -- or an error with every row unchanged.
    pub check_and_deduct_exact :
        (wallet_id amount_usd : String) (now : ℕ) (s : Store)
        → Answers wallet_id amount_usd now s
            (check_and_deduct_daily_limit_usd fl policies wallet_id amount_usd now s)
    unfolding check_and_deduct_daily_limit_usd
    check_and_deduct_exact wallet_id amount_usd now s =
        elim (Found-cases (find (enabled_for wallet_id) s)) [
          | inr (inl e) ↦ inl (inl e, rw (check_and_deduct_daily_limit_usd, e) refl)
          | inr (inr e) ↦ inl (inr (inl e), rw (check_and_deduct_daily_limit_usd, e) refl)
          | inl ((id, p), e) ↦
              let (here, own) = find_found _ s id p e in
              let (of_wallet, on) = and_true _ _ own in
              let is_enabled : IsEnabledFor wallet_id id p s =
                (here, (string_eq.eqb_iff p.wallet_id wallet_id).0 of_wallet, on) in
              elim (Bool-cases (p.daily_limit_usd == "")) [
                | inl empty ↦ inl (
                  inr (
                      inr (
                        id,
                        p,
                        is_enabled,
                        inl ((string_eq.eqb_iff p.daily_limit_usd "").0 empty),
                      )),
                  rw (check_and_deduct_daily_limit_usd, e, empty) refl,
                )
                | inr limited ↦
                    let same : deduct_from fl policies id p amount_usd now s
                        ≡ check_and_deduct_daily_limit_usd fl policies wallet_id amount_usd now s =
                      rw (check_and_deduct_daily_limit_usd, e, limited) refl in
                    subst (Answers wallet_id amount_usd now s) same
                      (found-Answers wallet_id amount_usd now id p s is_enabled)
              ]
        ]
