-- ===== src/Handler/DailyLimit/Laws.antt =====
-- The counter of handler/wallet.go against the daily limit, over every sequence of deductions and
-- releases.
use teenet_wallet.Base.{
  ℕ, ◌≡◌, refl, sym, subst, String, Bool, true, false, ◌&&◌, Option, none, some, List, [], ◌∷◌, ltb,
  ◌==◌, string_eq, nat_eq, inl, inr, Bool-cases, and_true, Option-cases, arith,
}
use teenet_wallet.Db.{Table, Found-cases}
use teenet_wallet.Model.{ApprovalPolicy}
use teenet_wallet.Handler.DailyLimit.{
  BigFloat, enabled_for, positive, current_reset, new_spent, store_spent, less_amount, deducted,
  deduct_from, check_and_deduct_daily_limit_usd, release_from, release_daily_spent_usd,
  utc_start_of_day,
}

-- What the arithmetic has to respect at a limit, which is one that six decimals write exactly: printing
-- a number with six decimals, and taking an amount above zero away, do not lead from a number that is
-- not above the limit to one that is.
pub record RespectsLimit (fl : BigFloat) (limit : fl.Num) : Type 0 where
  pub text_respects :
      (x y : fl.Num)
      → fl.gtb x limit ≡ false
      → fl.parse (fl.text x) ≡ some y
      → fl.gtb y limit ≡ false
  pub less_respects :
      (x y : fl.Num)
      → fl.is_positive y ≡ true
      → fl.gtb x limit ≡ false
      → fl.gtb (less_amount fl x y) limit ≡ false

-- A text that is read as a number above zero.
pub positive-parse :
    (fl : BigFloat) (text : String) (x : fl.Num)
    → positive fl text ≡ some x
    → (fl.parse text ≡ some x) × (fl.is_positive x ≡ true)
positive-parse fl text x e = elim (Option-cases (fl.parse text)) [
  | inl n ↦ ground (arith, n, e)
  | inr (y, p) ↦ elim (Bool-cases (fl.is_positive y)) [
    | inl above ↦
        let same : y ≡ x = ground (arith, p, above, e) in
        subst (λ z. (fl.parse text ≡ some z) × (fl.is_positive z ≡ true)) same (p, above)
    | inr not_above ↦ ground (arith, p, not_above, e)
  ]
]

-- The calls that keep to the limit.
pub data Call : Type 0 where
  deduct release : (wallet_id amount_usd : String) (now : ℕ) → Call

module _ (fl : BigFloat) (policies : Table ApprovalPolicy) where
  open policies use {Store}

  unfoldable pub run : List Call → Store → Store
  run [] s = s
  run (deduct w a now ∷ cs) s = run cs (check_and_deduct_daily_limit_usd fl policies w a now s).0
  run (release w a now ∷ cs) s = run cs (release_daily_spent_usd fl policies w a now s)

module _ (fl : BigFloat) (limit : fl.Num) (laws : RespectsLimit fl limit) where
  -- If the policy has this limit, its counter does not read above it.
  abbrev pub IsWithin : Option ApprovalPolicy → Type 0
  IsWithin none = Unit {0}
  IsWithin (some p) =
      positive fl p.daily_limit_usd ≡ some limit
      → (y : fl.Num) → fl.parse p.daily_spent_usd ≡ some y
      → fl.gtb y limit ≡ false

  stored-IsWithin :
      (p : ApprovalPolicy) (x : fl.Num) (reset_at : ℕ)
      → (positive fl p.daily_limit_usd ≡ some limit → fl.gtb x limit ≡ false)
      → IsWithin (some (store_spent fl x reset_at p))
  stored-IsWithin p x reset_at h active y e = laws.text_respects x y (h active) e

  module _ (policies : Table ApprovalPolicy) where
    open policies use {Store, row, find, update, find_found, update_row}

    -- An update of one row keeps the property on every row, if it makes it true of the new row.
    update-IsWithin :
        (id : ℕ) (p : ApprovalPolicy) (f : ApprovalPolicy → ApprovalPolicy) (s : Store) (j : ℕ)
        → row id s ≡ some p
        → (IsWithin (some p) → IsWithin (some (f p)))
        → IsWithin (row j s)
        → IsWithin (row j (update id f s).0)
    update-IsWithin id p f s j e new old = elim (Bool-cases ((update id f s).1 && (id == j))) [
      | inl hit ↦
          let same : id ≡ j =
            (nat_eq.eqb_iff id j).0 (and_true (update id f s).1 (id == j) hit).1 in
          let here : row j s ≡ some p = subst (λ k. row k s ≡ some p) same e in
          rw (update_row id f s j, hit, here) (new (subst IsWithin here old))
      | inr miss ↦ rw (update_row id f s j, miss) old
    ]

    deducted-store : (r : Store × Bool) → (deducted fl policies r).0 ≡ r.0
    deducted-store (s, true) = refl
    deducted-store (s, false) = refl

    -- The store after a deduction: as it was, or with the new counter, which is not above the limit.
    deduct_from_cases :
        (P : Store → Type 0) (id : ℕ) (p : ApprovalPolicy) (amount_usd : String) (now : ℕ)
        (s : Store)
        → P s
        → ((most amount : fl.Num)
            → positive fl p.daily_limit_usd ≡ some most
            → fl.gtb (new_spent fl p now amount) most ≡ false
            → P
                (update id
                  (store_spent fl (new_spent fl p now amount) (current_reset fl p now))
                  s).0)
        → P (deduct_from fl policies id p amount_usd now s).0
    unfolding deduct_from
    deduct_from_cases P id p amount_usd now s same stored =
        elim (Option-cases (positive fl p.daily_limit_usd)) [
          | inl e ↦ rw (e, deduct_from) same
          | inr (most, e) ↦ elim (Option-cases (positive fl amount_usd)) [
            | inl a ↦ rw (e, deduct_from, a) same
            | inr (amount, a) ↦ elim (Bool-cases (fl.gtb (new_spent fl p now amount) most)) [
              | inl over ↦ rw (e, deduct_from, a, over) same
              | inr fits ↦
                  rw (e, deduct_from, a, fits)
                    (subst P (sym (deducted-store (update id _ s))) (stored most amount e fits))
            ]
          ]
        ]

    deduct_from-IsWithin :
        (id : ℕ) (p : ApprovalPolicy) (amount_usd : String) (now : ℕ) (s : Store) (j : ℕ)
        → row id s ≡ some p
        → IsWithin (row j s)
        → IsWithin (row j (deduct_from fl policies id p amount_usd now s).0)
    deduct_from-IsWithin id p amount_usd now s j e old =
        deduct_from_cases (λ t. IsWithin (row j t)) id p amount_usd now s old
          λ most amount same fits.
            update-IsWithin id p _ s j e
              (λ before. stored-IsWithin p _ (current_reset fl p now) λ active. cc) old

    check_and_deduct-IsWithin :
        (wallet_id amount_usd : String) (now : ℕ) (s : Store) (j : ℕ)
        → IsWithin (row j s)
        → IsWithin
            (row j (check_and_deduct_daily_limit_usd fl policies wallet_id amount_usd now s).0)
    unfolding check_and_deduct_daily_limit_usd
    check_and_deduct-IsWithin wallet_id amount_usd now s j old =
        elim (Found-cases (find (enabled_for wallet_id) s)) [
          | inl ((id, p), e) ↦ elim (Bool-cases (p.daily_limit_usd == "")) [
            | inl unlimited ↦ rw (e, check_and_deduct_daily_limit_usd, unlimited) old
            | inr limited ↦
                rw (e, check_and_deduct_daily_limit_usd, limited)
                  (deduct_from-IsWithin id p amount_usd now s j (find_found _ s id p e).0 old)
          ]
          | inr (inl e) ↦ rw (e, check_and_deduct_daily_limit_usd) old
          | inr (inr e) ↦ rw (e, check_and_deduct_daily_limit_usd) old
        ]

    release_from-IsWithin :
        (id : ℕ) (p : ApprovalPolicy) (amount : fl.Num) (now : ℕ) (s : Store) (j : ℕ)
        → row id s ≡ some p
        → fl.is_positive amount ≡ true
        → IsWithin (row j s)
        → IsWithin (row j (release_from fl policies id p amount now s))
    unfolding release_from
    release_from-IsWithin id p amount now s j e above old =
        elim (Bool-cases (ltb p.daily_reset_at (utc_start_of_day now))) [
          | inl stale ↦ rw stale old
          | inr today ↦ elim (Option-cases (fl.parse p.daily_spent_usd)) [
            | inl none_left ↦ rw (today, none_left, release_from) old
            | inr (spent, readable) ↦
                rw (today, readable, release_from)
                  (update-IsWithin id p _ s j e
                    (λ before active y.
                      laws.text_respects _ y
                        (laws.less_respects spent amount above (before active spent readable)))
                    old)
          ]
        ]

    release-IsWithin :
        (wallet_id amount_usd : String) (now : ℕ) (s : Store) (j : ℕ)
        → IsWithin (row j s)
        → IsWithin (row j (release_daily_spent_usd fl policies wallet_id amount_usd now s))
    unfolding release_daily_spent_usd
    release-IsWithin wallet_id amount_usd now s j old =
        elim (Option-cases (positive fl amount_usd)) [
          | inl bad ↦ rw (bad, release_daily_spent_usd) old
          | inr (amount, good) ↦ elim (Found-cases (find (enabled_for wallet_id) s)) [
            | inl ((id, p), e) ↦
                rw (good, e, release_daily_spent_usd)
                  (release_from-IsWithin id p amount now s j (find_found _ s id p e).0
                    (positive-parse fl amount_usd amount good).1 old)
            | inr (inl e) ↦ rw (good, e, release_daily_spent_usd) old
            | inr (inr e) ↦ rw (good, e, release_daily_spent_usd) old
          ]
        ]

    -- For a limit that the arithmetic respects, such as one of at most six decimals, no sequence of check-and-deduct calls and releases, of
    -- any wallets and amounts at any times, takes the counter of a policy with that limit above it,
    -- whichever statements fail.
    pub run-IsWithin :
        (cs : List Call) (s : Store) (j : ℕ)
        → IsWithin (row j s)
        → IsWithin (row j (run fl policies cs s))
    unfolding run
    run-IsWithin [] s j h = h
    run-IsWithin (deduct w a now ∷ cs) s j h =
        run-IsWithin cs _ j (check_and_deduct-IsWithin w a now s j h)
    run-IsWithin (release w a now ∷ cs) s j h = run-IsWithin cs _ j (release-IsWithin w a now s j h)
