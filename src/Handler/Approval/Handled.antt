-- ===== src/Handler/Approval/Handled.antt =====
-- What a branch of the handlers of handler/approval.go may do to the approvals and to the
-- transactions sent, and the steps that branches share.
use teenet_wallet.Base.{
  ℕ, ◌≡◌, refl, String, false, none, inl, inr, ◌⊎◌, List, [], ◌∷◌, ◌++◌, nat_eq, string_eq,
}
use teenet_wallet.Db.{Found, found, missing, failed}
use teenet_wallet.Model.{ApprovalRequest, Status, pending, AuditLog}
use teenet_wallet.Handler.Approval.World.{
  Tables, World, Broadcast, update_approval, set_status, set_approved, finish_change,
  is_pending_log, resolve_found,
}
use teenet_wallet.Handler.Approval.Execute.{approve_with}
use teenet_wallet.Handler.Approval.Flow.{is_pending}

-- What was asked for: an approval without the fields that its resolution writes.
abbrev pub request : ApprovalRequest → ApprovalRequest
request a = record a { status = pending; signature = ""; approved_by = none; tx_hash = "" }

-- A change of an approval keeps what was asked for and leaves a status that is not pending.
pub record Settles (f : ApprovalRequest → ApprovalRequest) : Type 0 where
  pub not_pending : (a : ApprovalRequest) → is_pending (f a).status ≡ false
  pub same_request : (a : ApprovalRequest) → request (f a) ≡ request a

pub set_approved-Settles : (user : ℕ) → Settles (set_approved user)
set_approved-Settles user = record { not_pending = λ a. refl; same_request = λ a. refl }

pub approve_with-Settles : (user : ℕ) (sig h : String) → Settles (approve_with user sig h)
approve_with-Settles user sig h = record { not_pending = λ a. refl; same_request = λ a. refl }

pub set_status-Settles : (st : Status) → is_pending st ≡ false → Settles (set_status st)
set_status-Settles st e = record { not_pending = λ a. e; same_request = λ a. refl }

-- From a store of approvals and a list of transactions, a handler of approval `id` ends in `w`: it
-- changed nothing, or it settled the approval and sent at most one transaction, of this approval.
pub data Handled {t : Tables} (id : ℕ) (s : t.approvals.Store) (l : List Broadcast) (w : World t)
    : Type 0 where
  untouched : w.approvals ≡ s → w.sent ≡ l → Handled id s l w
  settled :
      (f : ApprovalRequest → ApprovalRequest)
      → Settles f
      → w.approvals ≡ (t.approvals.update id f s).0
      → w.sent ≡ l
      → Handled id s l w
  settled_sent :
      (f : ApprovalRequest → ApprovalRequest) (b : Broadcast)
      → Settles f
      → b.approval_id ≡ id
      → w.approvals ≡ (t.approvals.update id f s).0
      → w.sent ≡ l ++ b ∷ []
      → Handled id s l w

module _ {t : Tables} where
  pub resolve_found-approvals :
      (st : String) (now : ℕ) (w : World t) (r : Found (ℕ × AuditLog))
      → (resolve_found st now w r).approvals ≡ w.approvals
  resolve_found-approvals st now w (found _) = refl
  resolve_found-approvals st now w missing = refl
  resolve_found-approvals st now w failed = refl

  pub resolve_found-sent :
      (st : String) (now : ℕ) (w : World t) (r : Found (ℕ × AuditLog))
      → (resolve_found st now w r).sent ≡ w.sent
  resolve_found-sent st now w (found _) = refl
  resolve_found-sent st now w missing = refl
  resolve_found-sent st now w failed = refl

  pub finish_change-Handled :
      (id : ℕ) (a : ApprovalRequest) (user now : ℕ) (w : World t)
      → Handled id w.approvals w.sent (finish_change id a user now w)
  finish_change-Handled id a user now w =
      let w' : World t = update_approval id (set_approved user) w in
      settled (set_approved user) (set_approved-Settles user)
        (resolve_found-approvals "success" now w' (t.audits.find (is_pending_log id) w.audits))
        (resolve_found-sent "success" now w' (t.audits.find (is_pending_log id) w.audits))

  -- A settled approval, of which a transaction may have been sent.
  pub settled_either :
      {id : ℕ} {s : t.approvals.Store} {l : List Broadcast} (w : World t)
      (f : ApprovalRequest → ApprovalRequest) (b : Broadcast)
      → Settles f
      → b.approval_id ≡ id
      → w.approvals ≡ (t.approvals.update id f s).0
      → (w.sent ≡ l) ⊎ (w.sent ≡ l ++ b ∷ [])
      → Handled id s l w
  settled_either w f b ok mine e (inl same) = settled f ok e same
  settled_either w f b ok mine e (inr more) = settled_sent f b ok mine e more
