-- ===== src/Handler/DailyLimit/Examples.antt =====
-- Examples for handler/wallet.go's daily counter, on a table in memory and on numbers written in
-- strokes, with "0" for zero.
use teenet_wallet.Base.{nat_eq, ℕ, ◌≡◌, refl, true, some, List, [], ◌∷◌, arith, string_eq}
use teenet_wallet.Db.{Table}
use teenet_wallet.Db.Memory.{memory_table, Memory, empty, insert_all}
use teenet_wallet.Model.{ApprovalPolicy}
use teenet_wallet.Handler.DailyLimit.Stroke.{stroke_float, strokes-tally}
use teenet_wallet.Handler.DailyLimit.{check_and_deduct_daily_limit_usd, release_daily_spent_usd}
use teenet_wallet.Handler.DailyLimit.Laws.{
  RespectsLimit, IsWithin, Call, deduct, release, run, run-IsWithin,
}
use teenet_wallet.Handler.DailyLimit.Exact.{Answers, check_and_deduct_exact}

stroke-RespectsLimit : (limit : ℕ) → RespectsLimit stroke_float limit
stroke-RespectsLimit limit = record {
  text_respects = λ x y h e. ground (arith, strokes-tally x);
  less_respects = λ x y above h. ground arith;
}

abbrev policies : Table ApprovalPolicy
policies = memory_table ApprovalPolicy

-- Three a day, one spent.
abbrev policy : ApprovalPolicy
policy = record {
  wallet_id = "w";
  threshold_usd = "I";
  daily_limit_usd = "III";
  daily_spent_usd = "I";
  daily_reset_at = 86400;
  enabled = true;
}

abbrev store : Memory ApprovalPolicy
store = insert_all (policy ∷ []) empty

abbrev calls : List Call
calls =
    deduct "w" "II" 90000
    ∷ deduct "w" "I" 90001
    ∷ release "w" "II" 90002
    ∷ deduct "w" "III" 180000
    ∷ []

-- The second deduction of the day is refused, and the next day starts from zero.
run-calls :
    policies.row 1 (run stroke_float policies calls store)
    ≡ some (record policy { daily_spent_usd = "III"; daily_reset_at = 172800 })
unfolding run check_and_deduct_daily_limit_usd release_daily_spent_usd
run-calls = refl

run-IsWithin_example :
    IsWithin stroke_float 3
      (stroke-RespectsLimit 3)
      (policies.row 1 (run stroke_float policies calls store))
run-IsWithin_example =
    run-IsWithin stroke_float 3 (stroke-RespectsLimit 3) policies calls store 1
      (λ active y e. ground arith)

check_and_deduct_exact_example :
    Answers stroke_float policies "w" "II" 90000 store
      (check_and_deduct_daily_limit_usd stroke_float policies "w" "II" 90000 store)
check_and_deduct_exact_example = check_and_deduct_exact stroke_float policies "w" "II" 90000 store
