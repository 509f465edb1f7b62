-- ===== src/Handler/Approval/Flow.antt =====
-- The handlers of handler/approval.go: Approve, Reject, GetApproval, ListPending and the tick of the
-- expiry loop. A handler loads the approval, takes the approval's lock and reads it again; the part
-- under the lock is a definition of its own, since other requests may run before it.
use teenet_wallet.Base.{
  ℕ, Bool, true, false, ◌&&◌, Option, none, some, inl, inr, ◌⊎◌, if◌then◌else◌, ◌==◌, nat_eq, ltb,
}
use teenet_wallet.Db.{Found, found, missing, failed, Table}
use teenet_wallet.Model.{
  ApprovalRequest, Status, pending, approved, rejected, expired, failed_status, User, ApprovalType,
  sign, transfer, contract_call, contract_add, contract_update, policy_change, addressbook_add,
  addressbook_update,
}
use teenet_wallet.Handler.DailyLimit.{BigFloat}
use teenet_wallet.Handler.Passkey.{
  PasskeyClient, PasskeyBody, Check, accepted, refused, verify_fresh_passkey,
}
use teenet_wallet.Handler.Approval.World.{
  Tables, World, Outside, update_approval, set_status, update_audit_by_approval_id,
  broadcast_approval,
}
use teenet_wallet.Handler.Approval.Changes.{
  approve_contract_add, approve_contract_update, approve_addressbook_add,
  approve_addressbook_update, approve_policy_change,
}
use teenet_wallet.Handler.Approval.Execute.{execute}

abbrev pub is_pending : Status → Bool
is_pending pending = true
is_pending approved = false
is_pending rejected = false
is_pending expired = false
is_pending failed_status = false

-- `status = 'pending' AND expires_at < now`
abbrev pub is_overdue : ℕ → ℕ → ApprovalRequest → Bool
is_overdue now id a = is_pending a.status && ltb a.expires_at now

abbrev pub owned_by : ℕ → Found ApprovalRequest → ApprovalRequest ⊎ ℕ
owned_by user missing = inr 404
owned_by user failed = inr 404
owned_by user (found a) = if a.user_id == user then inl a else inr 403

module _ {t : Tables} where
  -- The path's identifier as parsed, `none` if it is not a number; `inr` is a refusal.
  unfoldable pub load_user_approval : World t → ℕ → Option ℕ → ApprovalRequest ⊎ ℕ
  load_user_approval w user none = inr 400
  load_user_approval w user (some id) = owned_by user (t.approvals.get id w.approvals)

module _ {fl : BigFloat} {t : Tables} (o : Outside fl) (id user now : ℕ) where
  -- By the type of the approval; transactions are the rest.
  unfoldable pub dispatch : ApprovalType → ApprovalRequest → World t → World t × ℕ
  dispatch contract_add a w = approve_contract_add o id a user now w
  dispatch contract_update a w = approve_contract_update o id a user now w
  dispatch addressbook_add a w = approve_addressbook_add o id a user now w
  dispatch addressbook_update a w = approve_addressbook_update o id a user now w
  dispatch policy_change a w = approve_policy_change o id a user now w
  dispatch sign a w = execute o id a user now w
  dispatch transfer a w = execute o id a user now w
  dispatch contract_call a w = execute o id a user now w

  abbrev pub approve_read : World t → Found ApprovalRequest → World t × ℕ
  approve_read w missing = (w, 404)
  approve_read w failed = (w, 404)
  approve_read w (found a) =
      if is_pending a.status
      then (if ltb a.expires_at now
          then (update_approval id (set_status expired) w, 400)
          else dispatch a.approval_type a w)
      else (w, 400)

  -- Approve from the second read on, under the approval's lock.
  unfoldable pub approve_locked : World t → World t × ℕ
  approve_locked w = approve_read w (t.approvals.get id w.approvals)

module _ {t : Tables} (id now : ℕ) where
  abbrev pub rejection : ApprovalRequest → World t → t.approvals.Store × Bool → World t × ℕ
  rejection a w (s, ok) =
      if ok
      then (
        broadcast_approval id a "rejected" ""
            (update_audit_by_approval_id id "rejected" now (record w { approvals = s })),
        200,
      )
      else (record w { approvals = s }, 500)

  abbrev pub reject_read : World t → Found ApprovalRequest → World t × ℕ
  reject_read w missing = (w, 500)
  reject_read w failed = (w, 500)
  reject_read w (found a) =
      if is_pending a.status
      then rejection a w (t.approvals.update id (set_status rejected) w.approvals)
      else (w, 400)

  -- Reject from the second read on.
  unfoldable pub reject_locked : World t → World t × ℕ
  reject_locked w = reject_read w (t.approvals.get id w.approvals)

-- The effects of a handler that goes on under the lock when the first checks pass.
abbrev pub under_lock {ℓ} :
    {W : Type ℓ} → (ℕ → W → W × ℕ) → Option ℕ → ApprovalRequest ⊎ ℕ → W → W × ℕ
under_lock k id (inr status) w = (w, status)
under_lock k none (inl a) w = (w, 400)
under_lock k (some id) (inl a) w = k id w

abbrev pub if_accepted {ℓ} : {W : Type ℓ} → Check → (W → W × ℕ) → W → W × ℕ
if_accepted accepted k w = k w
if_accepted (refused status) k w = (w, status)

module _ (sdk : PasskeyClient) (users : Table User) (us : users.Store) {t : Tables} where
  unfoldable pub approve :
      {fl : BigFloat} → Outside fl → Option PasskeyBody → Option ℕ → ℕ → ℕ → World t → World t × ℕ
  approve o body id user now w =
      if_accepted (verify_fresh_passkey sdk users us user body)
        (λ w. under_lock (λ i. approve_locked o i user now) id (load_user_approval w user id) w) w

  unfoldable pub reject : Option PasskeyBody → Option ℕ → ℕ → ℕ → World t → World t × ℕ
  reject body id user now w =
      if_accepted (verify_fresh_passkey sdk users us user body)
        (λ w. under_lock (λ i. reject_locked i now) id (load_user_approval w user id) w) w

module _ {t : Tables} where
  -- The write of GetApproval, by the key of the approval that it read, whatever its status is by then:
  -- GetApproval does not take the lock.
  abbrev pub expire_seen : ℕ → World t → World t
  expire_seen id = update_approval id (set_status expired)

  -- The answer carries the status after the expiry.
  abbrev pub expire_shown : ℕ → Option ℕ → ApprovalRequest ⊎ ℕ → World t → World t × (Status ⊎ ℕ)
  expire_shown now id (inr status) w = (w, inr status)
  expire_shown now none (inl a) w = (w, inr 400)
  expire_shown now (some id) (inl a) w =
      if is_overdue now id a then (expire_seen id w, inl expired) else (w, inl a.status)

  unfoldable pub get_approval : Option ℕ → ℕ → ℕ → World t → World t × (Status ⊎ ℕ)
  unfolding load_user_approval
  get_approval id user now w = expire_shown now id (load_user_approval w user id) w

  -- One tick of expireLoop.
  unfoldable pub expire_tick : ℕ → World t → World t
  expire_tick now w = record w {
    approvals = (t.approvals.update_where (is_overdue now) (set_status expired) w.approvals).0;
  }
