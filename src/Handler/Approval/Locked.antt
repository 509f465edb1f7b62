-- ===== src/Handler/Approval/Locked.antt =====
-- What the parts of Approve and Reject under the lock, and GetApproval, do to the approvals: nothing,
-- or they settle the one approval, which was pending.
use teenet_wallet.Base.{
  ℕ, ◌≡◌, refl, Bool, true, false, some, inl, inr, ◌==◌, Bool-cases, nat_eq, ltb, and_true, ◌∙◌,
}
use teenet_wallet.Db.{Found, found, missing, failed}
use teenet_wallet.Model.{
  ApprovalRequest, ApprovalType, sign, transfer, contract_call, contract_add, contract_update,
  policy_change, addressbook_add, addressbook_update, rejected, expired,
}
use teenet_wallet.Handler.DailyLimit.{BigFloat}
use teenet_wallet.Handler.Approval.World.{Tables, World, Outside, set_status, is_pending_log}
use teenet_wallet.Handler.Approval.Flow.{
  is_pending, is_overdue, dispatch, approve_read, approve_locked, rejection, reject_read,
  reject_locked, owned_by, expire_shown, get_approval, load_user_approval,
}
use teenet_wallet.Handler.Approval.Handled.{
  Handled, settled, set_status-Settles, resolve_found-approvals, resolve_found-sent,
}
use teenet_wallet.Handler.Approval.AppliedEffects.{
  approve_contract_add-Handled, approve_contract_update-Handled, approve_addressbook_add-Handled,
  approve_addressbook_update-Handled, approve_policy_change-Handled,
}
use teenet_wallet.Handler.Approval.ExecutedEffects.{execute-Handled}

pub data Locked {t : Tables} (id : ℕ) (w w' : World t) : Type 0 where
  idle : w'.approvals ≡ w.approvals → w'.sent ≡ w.sent → Locked id w w'
  handled :
      (a : ApprovalRequest)
      → t.approvals.row id w.approvals ≡ some a
      → is_pending a.status ≡ true
      → Handled id w.approvals w.sent w'
      → Locked id w w'

module _ {fl : BigFloat} (o : Outside fl) {t : Tables} (id user now : ℕ) where
  dispatch-Handled :
      (ty : ApprovalType) (a : ApprovalRequest) (w : World t)
      → Handled id w.approvals w.sent (dispatch o id user now ty a w).0
  unfolding dispatch
  dispatch-Handled contract_add a w = approve_contract_add-Handled o id a user now w
  dispatch-Handled contract_update a w = approve_contract_update-Handled o id a user now w
  dispatch-Handled addressbook_add a w = approve_addressbook_add-Handled o id a user now w
  dispatch-Handled addressbook_update a w = approve_addressbook_update-Handled o id a user now w
  dispatch-Handled policy_change a w = approve_policy_change-Handled o id a user now w
  dispatch-Handled sign a w = execute-Handled o id a user now w
  dispatch-Handled transfer a w = execute-Handled o id a user now w
  dispatch-Handled contract_call a w = execute-Handled o id a user now w

  approve_read-Locked :
      (w : World t) (r : Found ApprovalRequest)
      → t.approvals.get id w.approvals ≡ r
      → Locked id w (approve_read o id user now w r).0
  approve_read-Locked w missing e = idle refl refl
  approve_read-Locked w failed e = idle refl refl
  approve_read-Locked w (found a) e = elim (Bool-cases (is_pending a.status)) [
    | inr done ↦ rw (done, approve_read) (idle refl refl)
    | inl waits ↦
        let here = t.approvals.get_found id w.approvals a e in
        elim (Bool-cases (ltb a.expires_at now)) [
          | inl late ↦
              rw (waits, approve_read, late)
                (handled a here waits
                  (settled (set_status expired) (set_status-Settles expired refl) refl refl))
          | inr soon ↦
              rw (waits, approve_read, soon)
                (handled a here waits (dispatch-Handled a.approval_type a w))
        ]
  ]

  pub approve_locked-Locked : (w : World t) → Locked id w (approve_locked o id user now w).0
  unfolding approve_locked
  approve_locked-Locked w = approve_read-Locked w (t.approvals.get id w.approvals) refl

module _ {t : Tables} (id now : ℕ) where
  rejection-Handled :
      (a : ApprovalRequest) (w : World t) (r : t.approvals.Store × Bool)
      → r.0 ≡ (t.approvals.update id (set_status rejected) w.approvals).0
      → Handled id w.approvals w.sent (rejection id now a w r).0
  rejection-Handled a w (s, false) e =
      settled (set_status rejected) (set_status-Settles rejected refl) e refl
  rejection-Handled a w (s, true) e =
      let w' : World t = record w { approvals = s } in
      let r = t.audits.find (is_pending_log id) w.audits in
      settled (set_status rejected) (set_status-Settles rejected refl)
        (resolve_found-approvals "rejected" now w' r ∙ e) (resolve_found-sent "rejected" now w' r)

  reject_read-Locked :
      (w : World t) (r : Found ApprovalRequest)
      → t.approvals.get id w.approvals ≡ r
      → Locked id w (reject_read id now w r).0
  reject_read-Locked w missing e = idle refl refl
  reject_read-Locked w failed e = idle refl refl
  reject_read-Locked w (found a) e = elim (Bool-cases (is_pending a.status)) [
    | inr done ↦ rw (done, reject_read) (idle refl refl)
    | inl waits ↦
        rw (waits, reject_read)
          (handled a (t.approvals.get_found id w.approvals a e) waits
            (rejection-Handled a w (t.approvals.update id (set_status rejected) w.approvals) refl))
  ]

  pub reject_locked-Locked : (w : World t) → Locked id w (reject_locked id now w).0
  unfolding reject_locked
  reject_locked-Locked w = reject_read-Locked w (t.approvals.get id w.approvals) refl

module _ {t : Tables} (id user now : ℕ) where
  shown-Locked :
      (w : World t) (r : Found ApprovalRequest)
      → t.approvals.get id w.approvals ≡ r
      → Locked id w (expire_shown now (some id) (owned_by user r) w).0
  shown-Locked w missing e = idle refl refl
  shown-Locked w failed e = idle refl refl
  shown-Locked w (found a) e = elim (Bool-cases (a.user_id == user)) [
    | inr other ↦ rw (other, expire_shown, owned_by) (idle refl refl)
    | inl own ↦ elim (Bool-cases (is_overdue now id a)) [
      | inr soon ↦ rw (own, owned_by, expire_shown, soon) (idle refl refl)
      | inl late ↦
          rw (own, owned_by, expire_shown, late)
            (handled a (t.approvals.get_found id w.approvals a e)
              (and_true (is_pending a.status) (ltb a.expires_at now) late).0
              (settled (set_status expired) (set_status-Settles expired refl) refl refl))
    ]
  ]

  pub get_approval-Locked : (w : World t) → Locked id w (get_approval (some id) user now w).0
  unfolding get_approval load_user_approval
  get_approval-Locked w = shown-Locked w (t.approvals.get id w.approvals) refl
