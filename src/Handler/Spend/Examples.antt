-- ===== src/Handler/Spend/Examples.antt =====
-- Examples for the policy code of handler/wallet.go: 6 dollars are sent, 12 wait for an approval.
use teenet_wallet.Base.{◌≡◌, refl, ℕ, true, false, some, inl, [], ◌∷◌, nat_eq, string_eq}
use teenet_wallet.Chain.EthFees.Tally.{tally_ints}
use teenet_wallet.Handler.DailyLimit.{
  check_and_deduct_daily_limit_usd, deduct_from, release_daily_spent_usd, release_from,
}
use teenet_wallet.Handler.Requests.{write_audit_ctx}
use teenet_wallet.Db.Memory.{empty, insert_all}
use teenet_wallet.Handler.Idempotency.{save, new_record, check_idempotency}
use teenet_wallet.Handler.Broadcast.{sign_and_broadcast, attempts, attempt}
use teenet_wallet.Handler.Spend.{
  Proposal, SpendState, replayed, answer, completed, pending_approval_reply, spend, under_policy,
  send_now, create_approval_request,
}
use teenet_wallet.Handler.Spend.Samples.{
  tables, records, wallet, policy, state, money, node, api_key, request_key,
}
use teenet_wallet.Handler.Spend.Clearance.{IsGuarded, spend-IsGuarded}
use teenet_wallet.Handler.Spend.Replay.{IsStored, answer-replayed}
use teenet_wallet.Handler.Spend.Counter.{IsCharged, spend-IsCharged}

abbrev proposal : ℕ → Proposal money
proposal usd = record {
  wallet = wallet;
  message = "m";
  params = "to:x";
  context = some "{}";
  amount_usd = usd;
  unpriced = false;
  action = "transfer";
  response = λ hash. hash;
}

sends_6 :
    (spend money tally_ints node
      (λ s. s)
      1800
      true
      api_key
      request_key
      (proposal 6)
      (some policy)
      state).1
    ≡ completed "hash"
unfolding spend under_policy send_now check_and_deduct_daily_limit_usd deduct_from
    sign_and_broadcast attempts attempt write_audit_ctx save
sends_6 = refl

waits_with_12 :
    (spend money tally_ints node
      (λ s. s)
      1800
      true
      api_key
      request_key
      (proposal 12)
      (some policy)
      state).1
    ≡ pending_approval_reply 1
unfolding spend under_policy create_approval_request check_and_deduct_daily_limit_usd deduct_from
    release_daily_spent_usd release_from write_audit_ctx
waits_with_12 = refl

spend-IsGuarded_example :
    IsGuarded money tally_ints node
      (λ s. s)
      1800
      true
      api_key
      request_key
      (proposal 12)
      (some policy)
      state
      (spend money tally_ints node
        (λ s. s)
        1800
        true
        api_key
        request_key
        (proposal 12)
        (some policy)
        state)
spend-IsGuarded_example =
    spend-IsGuarded money tally_ints node (λ s. s) 1800 true api_key request_key (proposal 12)
      (some policy) state

spend-IsCharged_example : IsCharged money api_key (proposal 6) (some policy) state (
    spend money tally_ints node
      (λ s. s)
      1800
      true
      api_key
      request_key
      (proposal 6)
      (some policy)
      state)
spend-IsCharged_example =
    spend-IsCharged money tally_ints node (λ s. s) 1800 true api_key request_key (proposal 6)
      (some policy) state

-- A response that was saved at the time 50 for the key of the request.
abbrev answered : SpendState tables records
answered = record state { saved = insert_all (new_record request_key 50 200 "done" ∷ []) empty }

found_saved : check_idempotency records true request_key 100 answered.saved ≡ some (200, "done")
unfolding check_idempotency
found_saved = refl

answer-replayed_example :
    (answer money tally_ints node
        (λ s. s)
        1800
        true
        api_key
        request_key
        (λ w. inl (proposal 6, some policy))
        answered
      ≡ (answered, replayed 200 "done"))
    × IsStored records request_key 100 answered.saved (200, "done")
answer-replayed_example =
    answer-replayed money tally_ints node (λ s. s) 1800 true api_key request_key
      (λ w. inl (proposal 6, some policy)) answered 200 "done" found_saved
