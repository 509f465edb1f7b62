-- ===== src/Handler/Approval/AppliedEffects.antt =====
-- What the branches of Approve (handler/approval.go) that apply a proposal at once do to the approvals.
use teenet_wallet.Base.{ℕ, refl, Bool, true, false, inl, inr, Option-cases, nat_eq, string_eq}
use teenet_wallet.Db.{
  Created, created, duplicate, not_created, Affected, rows_changed, no_rows, write_error,
}
use teenet_wallet.Model.{ApprovalRequest}
use teenet_wallet.Handler.DailyLimit.{BigFloat}
use teenet_wallet.Handler.Approval.World.{Tables, World, Outside}
use teenet_wallet.Handler.Approval.Changes.{
  approve_contract_add, approve_contract_update, approve_addressbook_add,
  approve_addressbook_update, approve_policy_change, save_policy, own_contract, relabel, own_entry,
  rewrite_entry, contract_added, contract_updated, entry_added, entry_updated, policy_saved,
}
use teenet_wallet.Handler.Approval.Handled.{Handled, untouched, finish_change-Handled}

module _ {t : Tables} where
  module _ {fl : BigFloat} (o : Outside fl) (id : ℕ) (a : ApprovalRequest) (user now : ℕ) where
    contract_added-Handled :
        (w : World t) (r : t.contracts.Store × Created)
        → Handled id w.approvals w.sent (contract_added o id a user now w r).0
    contract_added-Handled w (s, created _) =
        finish_change-Handled id a user now (record w { contracts = s })
    contract_added-Handled w (s, duplicate) =
        finish_change-Handled id a user now (record w { contracts = s })
    contract_added-Handled w (s, not_created) = untouched refl refl

    pub approve_contract_add-Handled :
        (w : World t) → Handled id w.approvals w.sent (approve_contract_add o id a user now w).0
    unfolding approve_contract_add
    approve_contract_add-Handled w = elim (Option-cases (o.decode_contract a.policy_data)) [
      | inl e ↦ rw (e, approve_contract_add) (untouched refl refl)
      | inr ((k, p), e) ↦
          rw (e, approve_contract_add) (contract_added-Handled w (t.contracts.create p w.contracts))
    ]

    contract_updated-Handled :
        (w : World t) (r : t.contracts.Store × Affected)
        → Handled id w.approvals w.sent (contract_updated o id a user now w r).0
    contract_updated-Handled w (s, rows_changed) =
        finish_change-Handled id a user now (record w { contracts = s })
    contract_updated-Handled w (s, no_rows) =
        finish_change-Handled id a user now (record w { contracts = s })
    contract_updated-Handled w (s, write_error) = untouched refl refl

    pub approve_contract_update-Handled :
        (w : World t) → Handled id w.approvals w.sent (approve_contract_update o id a user now w).0
    unfolding approve_contract_update
    approve_contract_update-Handled w = elim (Option-cases (o.decode_contract a.policy_data)) [
      | inl e ↦ rw (e, approve_contract_update) (untouched refl refl)
      | inr ((k, p), e) ↦
          rw (e, approve_contract_update)
            (contract_updated-Handled w
              (t.contracts.update_where (own_contract k a.user_id) (relabel p) w.contracts))
    ]

    entry_added-Handled :
        (w : World t) (r : t.addresses.Store × Created)
        → Handled id w.approvals w.sent (entry_added o id a user now w r).0
    entry_added-Handled w (s, created _) =
        finish_change-Handled id a user now (record w { addresses = s })
    entry_added-Handled w (s, duplicate) =
        finish_change-Handled id a user now (record w { addresses = s })
    entry_added-Handled w (s, not_created) = untouched refl refl

    pub approve_addressbook_add-Handled :
        (w : World t) → Handled id w.approvals w.sent (approve_addressbook_add o id a user now w).0
    unfolding approve_addressbook_add
    approve_addressbook_add-Handled w = elim (Option-cases (o.decode_entry a.policy_data)) [
      | inl e ↦ rw (e, approve_addressbook_add) (untouched refl refl)
      | inr ((k, p), e) ↦
          rw (e, approve_addressbook_add) (entry_added-Handled w (t.addresses.create p w.addresses))
    ]

    entry_updated-Handled :
        (w : World t) (r : t.addresses.Store × Affected)
        → Handled id w.approvals w.sent (entry_updated o id a user now w r).0
    entry_updated-Handled w (s, rows_changed) =
        finish_change-Handled id a user now (record w { addresses = s })
    entry_updated-Handled w (s, no_rows) = untouched refl refl
    entry_updated-Handled w (s, write_error) = untouched refl refl

    pub approve_addressbook_update-Handled :
        (w : World t)
        → Handled id w.approvals w.sent (approve_addressbook_update o id a user now w).0
    unfolding approve_addressbook_update
    approve_addressbook_update-Handled w = elim (Option-cases (o.decode_entry a.policy_data)) [
      | inl e ↦ rw (e, approve_addressbook_update) (untouched refl refl)
      | inr ((k, p), e) ↦
          rw (e, approve_addressbook_update)
            (entry_updated-Handled w
              (t.addresses.update_where (own_entry k a.user_id) (rewrite_entry p) w.addresses))
    ]

    policy_saved-Handled :
        (w : World t) (r : t.policies.Store × Bool)
        → Handled id w.approvals w.sent (policy_saved o id a user now w r).0
    policy_saved-Handled w (s, true) =
        finish_change-Handled id a user now (record w { policies = s })
    policy_saved-Handled w (s, false) = untouched refl refl

    pub approve_policy_change-Handled :
        (w : World t) → Handled id w.approvals w.sent (approve_policy_change o id a user now w).0
    unfolding approve_policy_change
    approve_policy_change-Handled w = elim (Option-cases (o.decode_policy a.policy_data)) [
      | inl e ↦ rw (e, approve_policy_change) (untouched refl refl)
      | inr (p, e) ↦ elim (Option-cases a.wallet_id) [
        | inl f ↦ rw (e, approve_policy_change, f) (untouched refl refl)
        | inr (x, f) ↦
            rw (e, approve_policy_change, f)
              (policy_saved-Handled w (save_policy t.policies x p w.policies))
      ]
    ]
