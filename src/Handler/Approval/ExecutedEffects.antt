-- ===== src/Handler/Approval/ExecutedEffects.antt =====
-- What the branch of Approve (handler/approval.go) that signs and broadcasts does to the approvals
-- and to the transactions sent.
use teenet_wallet.Base.{
  ℕ, ◌≡◌, refl, String, Bool, true, false, not, Option, none, some, inl, inr, ◌⊎◌, List, [], ◌∷◌,
  ◌++◌, Option-cases, Bool-cases, ◌∙◌, ◌||◌, ap, ◌==◌, nat_eq, string_eq,
}
use teenet_wallet.Db.{Found-cases}
use teenet_wallet.Model.{ApprovalRequest, failed_status, Wallet}
use teenet_wallet.Handler.DailyLimit.{
  BigFloat, Outcome, check_and_deduct_daily_limit_usd, allowed, exceeded, update_error,
}
use teenet_wallet.Handler.Approval.World.{
  Tables, World, Outside, Broadcast, update_approval, set_status, broadcast_approval,
  is_pending_log, resolve_found,
}
use teenet_wallet.Handler.Approval.Execute.{
  execute, approve_with, record_execution, send_and_record, deduct_and_send, sign_and_send, rebuild,
  Payload, wallet_by_id, pre_amount, fail_with, release_pre, late_spend, add_spent, late_amount,
  send, recorded, after_deduction, rebuilt_or_refused,
}
use teenet_wallet.Handler.Approval.Handled.{
  Handled, untouched, approve_with-Settles, set_status-Settles, resolve_found-approvals,
  resolve_found-sent, settled_either,
}

either_sent {ℓ} : {A : Type ℓ} {x y l m : A} → x ≡ y → (y ≡ l) ⊎ (y ≡ m) → (x ≡ l) ⊎ (x ≡ m)
either_sent e (inl f) = inl (e ∙ f)
either_sent e (inr f) = inr (e ∙ f)

module _ {fl : BigFloat} (o : Outside fl) {t : Tables} (id : ℕ) (a : ApprovalRequest) (user now : ℕ)
    (wallet : Wallet) (wallet_id : String) where
  fail_with-Handled :
      (reason : String) (b : Broadcast) (s : t.approvals.Store) (l : List Broadcast) (w : World t)
      → b.approval_id ≡ id
      → w.approvals ≡ s
      → (w.sent ≡ l) ⊎ (w.sent ≡ l ++ b ∷ [])
      → Handled id s l (fail_with o id a wallet wallet_id user now reason w)
  fail_with-Handled reason b s l w mine es el =
      let w' : World t =
        broadcast_approval id a "failed" reason (update_approval id (set_status failed_status) w) in
      let r = t.audits.find (is_pending_log id) w.audits in
      settled_either (fail_with o id a wallet wallet_id user now reason w)
        (set_status failed_status) b (set_status-Settles failed_status refl) mine
        (resolve_found-approvals "failed" now w' r
          ∙ ap (λ x. (t.approvals.update id (set_status failed_status) x).0) es)
        (either_sent (resolve_found-sent "failed" now w' r) el)

  add_spent-keeps :
      (x : Option String) (w : World t)
      → ((add_spent o id a wallet wallet_id user now x w).approvals ≡ w.approvals)
        × ((add_spent o id a wallet wallet_id user now x w).sent ≡ w.sent)
  add_spent-keeps none w = (refl, refl)
  add_spent-keeps (some x) w = (refl, refl)

  late_spend-keeps :
      (h : String) (pre : Option String) (w : World t)
      → ((late_spend o id a wallet wallet_id user now h pre w).approvals ≡ w.approvals)
        × ((late_spend o id a wallet wallet_id user now h pre w).sent ≡ w.sent)
  late_spend-keeps h (some _) w = (refl, refl)
  late_spend-keeps h none w = elim (Bool-cases ((h == "") || not o.has_prices)) [
    | inl e ↦ rw e (refl, refl)
    | inr e ↦ rw e (add_spent-keeps (late_amount o (o.decode_context a.tx_context)) w)
  ]

  recorded-keeps :
      (h : String) (pre : Option String) (w : World t) (r : t.approvals.Store × Bool)
      → ((recorded o id a wallet wallet_id user now h pre w r).0.approvals ≡ r.0)
        × ((recorded o id a wallet wallet_id user now h pre w r).0.sent ≡ w.sent)
  recorded-keeps h pre w (s, false) = (refl, refl)
  recorded-keeps h pre w (s, true) =
      let w1 : World t = record w { approvals = s } in
      let r = t.audits.find (is_pending_log id) w.audits in
      let w2 : World t = resolve_found "success" now w1 r in
      let (x, y) = late_spend-keeps h pre w2 in
      (x ∙ resolve_found-approvals "success" now w1 r, y ∙ resolve_found-sent "success" now w1 r)

  execution-Handled :
      (sig h : String) (pre : Option String) (b : Broadcast) (w : World t) (s : t.approvals.Store)
      (l : List Broadcast)
      → b.approval_id ≡ id
      → w.approvals ≡ s
      → (w.sent ≡ l) ⊎ (w.sent ≡ l ++ b ∷ [])
      → Handled id s l (record_execution o id a wallet wallet_id user now sig h pre w).0
  unfolding record_execution
  execution-Handled sig h pre b w s l mine es el =
      let f = approve_with user sig h in
      let (x, y) = recorded-keeps h pre w (t.approvals.update id f w.approvals) in
      settled_either (record_execution o id a wallet wallet_id user now sig h pre w).0 f b
        (approve_with-Settles user sig h) mine (x ∙ ap (λ r. (t.approvals.update id f r).0) es)
        (either_sent y el)

  release_pre-keeps :
      (pre : Option String) (w : World t)
      → ((release_pre o id a wallet wallet_id user now pre w).approvals ≡ w.approvals)
        × ((release_pre o id a wallet wallet_id user now pre w).sent ≡ w.sent)
  release_pre-keeps none w = (refl, refl)
  release_pre-keeps (some x) w = (refl, refl)

  send_and_record-Handled :
      (params sig : String) (pre : Option String) (w : World t)
      → Handled id w.approvals w.sent
          (send_and_record o id a wallet wallet_id user now params sig pre w).0
  unfolding send_and_record
  send_and_record-Handled params sig pre w =
      let b : Broadcast = record { approval_id = id; params = params; signature = sig } in
      let w' : World t = send o id a wallet wallet_id user now params sig w in
      elim (Bool-cases (params == "")) [
        | inl e ↦
            rw (e, send_and_record)
              (execution-Handled sig "" pre b w w.approvals w.sent refl refl (inl refl))
        | inr e ↦ elim (Option-cases (o.broadcast_signed wallet params sig)) [
          | inl f ↦
              let (x, y) = release_pre-keeps pre w' in
              rw (e, send_and_record, f)
                (fail_with-Handled "broadcast error" b w.approvals w.sent
                  (release_pre o id a wallet wallet_id user now pre w') refl x (inr y))
          | inr (h, f) ↦
              rw (e, send_and_record, f)
                (execution-Handled sig h pre b w' w.approvals w.sent refl refl (inr refl))
        ]
      ]

  after_deduction-Handled :
      (params sig amount : String) (w : World t) (r : t.policies.Store × Outcome)
      → Handled id w.approvals w.sent
          (after_deduction o id a wallet wallet_id user now params sig amount w r).0
  after_deduction-Handled params sig amount w (s, exceeded) = untouched refl refl
  after_deduction-Handled params sig amount w (s, allowed) =
      send_and_record-Handled params sig (some amount) (record w { policies = s })
  after_deduction-Handled params sig amount w (s, update_error) =
      send_and_record-Handled params sig (some amount) (record w { policies = s })

  deduct_and_send-Handled :
      (params sig : String) (w : World t)
      → Handled id w.approvals w.sent
          (deduct_and_send o id a wallet wallet_id user now params sig w).0
  unfolding deduct_and_send
  deduct_and_send-Handled params sig w =
      elim (Option-cases (pre_amount o t.policies a wallet_id params w.policies)) [
        | inl e ↦ rw (e, deduct_and_send) (send_and_record-Handled params sig none w)
        | inr (amount, e) ↦
            rw (e, deduct_and_send)
              (after_deduction-Handled params sig amount w
                (check_and_deduct_daily_limit_usd fl t.policies wallet_id amount now w.policies))
      ]

  sign_and_send-Handled :
      (p : Payload) (w : World t)
      → Handled id w.approvals w.sent (sign_and_send o id a wallet wallet_id user now p w).0
  unfolding sign_and_send
  sign_and_send-Handled (msg, params) w =
      let b : Broadcast = record { approval_id = id; params = params; signature = "" } in
      let w' : World t = record w { signed = w.signed ++ (id, msg) ∷ [] } in
      elim (Option-cases (o.tee_sign msg wallet.key_name)) [
        | inl e ↦
            rw (e, sign_and_send)
              (fail_with-Handled "signing error" b w.approvals w.sent w' refl refl (inl refl))
        | inr (sig, e) ↦ rw (e, sign_and_send) (deduct_and_send-Handled params sig w')
      ]

  rebuilt_or_refused-Handled :
      (r : Payload ⊎ ℕ) (w : World t)
      → Handled id w.approvals w.sent
          (rebuilt_or_refused o (sign_and_send o id a wallet wallet_id user now) r w).0
  rebuilt_or_refused-Handled (inl p) w = sign_and_send-Handled p w
  rebuilt_or_refused-Handled (inr st) w = untouched refl refl

module _ {fl : BigFloat} (o : Outside fl) {t : Tables} (id : ℕ) (a : ApprovalRequest)
    (user now : ℕ) where
  pub execute-Handled : (w : World t) → Handled id w.approvals w.sent (execute o id a user now w).0
  unfolding execute
  execute-Handled w = elim (Option-cases a.wallet_id) [
    | inl e ↦ rw (e, execute) (untouched refl refl)
    | inr (x, e) ↦ elim (Found-cases (t.wallets.find (wallet_by_id x) w.wallets)) [
      | inr (inl f) ↦ rw (e, execute, f) (untouched refl refl)
      | inr (inr f) ↦ rw (e, execute, f) (untouched refl refl)
      | inl ((k, wallet), f) ↦ elim (Option-cases (o.decode_message a.message)) [
        | inl g ↦ rw (e, execute, f, g) (untouched refl refl)
        | inr (msg, g) ↦
            rw (e, execute, f, g)
              (rebuilt_or_refused-Handled o id a user now wallet x
                (rebuild o wallet a.tx_params (msg, a.tx_params)) w)
      ]
    ]
  ]
