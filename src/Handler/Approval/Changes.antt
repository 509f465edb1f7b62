-- ===== src/Handler/Approval/Changes.antt =====
-- The branches of Approve (handler/approval.go) that apply a stored proposal at once: whitelisted
-- contracts, address book entries and policies. Each is given the world, the approval's key and
-- row as read under the lock, the user and the time, and returns the world and the HTTP status.
use teenet_wallet.Base.{
  ℕ, String, Bool, true, false, ◌&&◌, none, some, if◌then◌else◌, ◌==◌, nat_eq, string_eq,
}
use teenet_wallet.Db.{
  Found, Affected, rows_changed, no_rows, write_error, is_write_error, found, missing, failed,
  Created, created, duplicate, not_created, Table,
}
use teenet_wallet.Model.{ApprovalPolicy, ApprovalRequest, AllowedContract, AddressBookEntry}
use teenet_wallet.Handler.DailyLimit.{BigFloat}
use teenet_wallet.Handler.Approval.World.{Tables, World, Outside, finish_change}

-- `id = ? AND user_id = ?`
abbrev pub own_contract : ℕ → ℕ → ℕ → AllowedContract → Bool
own_contract id user key c = (key == id) && (c.user_id == user)

abbrev pub own_entry : ℕ → ℕ → ℕ → AddressBookEntry → Bool
own_entry id user key e = (key == id) && (e.user_id == user)

abbrev pub relabel : AllowedContract → AllowedContract → AllowedContract
relabel proposed c = record c {
  label = proposed.label;
  symbol = proposed.symbol;
  decimals = proposed.decimals;
}

abbrev pub rewrite_entry : AddressBookEntry → AddressBookEntry → AddressBookEntry
rewrite_entry proposed e = record e {
  nickname = proposed.nickname;
  address = proposed.address;
  memo = proposed.memo;
}

abbrev pub apply_policy : ApprovalPolicy → ApprovalPolicy → ApprovalPolicy
apply_policy proposed p = record p {
  threshold_usd = proposed.threshold_usd;
  daily_limit_usd = proposed.daily_limit_usd;
  enabled = proposed.enabled;
}

abbrev pub new_policy : String → ApprovalPolicy
new_policy wallet_id = record {
  wallet_id = wallet_id;
  threshold_usd = "";
  daily_limit_usd = "";
  daily_spent_usd = "";
  daily_reset_at = 0;
  enabled = false;
}

-- The columns' defaults, which gorm writes for zero values when it inserts: daily_spent_usd and enabled.
abbrev pub policy_defaults : ApprovalPolicy → ApprovalPolicy
policy_defaults p = record p {
  daily_spent_usd = if p.daily_spent_usd == "" then "0" else p.daily_spent_usd;
  enabled = true;
}

abbrev pub policy_of : String → ℕ → ApprovalPolicy → Bool
policy_of wallet_id key p = p.wallet_id == wallet_id

module _ (policies : Table ApprovalPolicy) where
  abbrev pub inserted : policies.Store × Created → policies.Store × Bool
  inserted (s, created key) = (s, true)
  inserted (s, duplicate) = (s, false)
  inserted (s, not_created) = (s, false)

  -- `h.db.Save(&policy)` writes the whole row back, or inserts a new one.
  abbrev pub save_found :
      String → ApprovalPolicy → Found (ℕ × ApprovalPolicy) → policies.Store → policies.Store × Bool
  save_found wallet_id proposed (found (key, p)) s =
      policies.update key (λ _. apply_policy proposed p) s
  save_found wallet_id proposed missing s =
      inserted (policies.create (policy_defaults (apply_policy proposed (new_policy wallet_id))) s)
  save_found wallet_id proposed failed s =
      inserted (policies.create (policy_defaults (apply_policy proposed (new_policy wallet_id))) s)

  abbrev pub save_policy : String → ApprovalPolicy → policies.Store → policies.Store × Bool
  save_policy wallet_id proposed s =
      save_found wallet_id proposed (policies.find (policy_of wallet_id) s) s

module _ {fl : BigFloat} {t : Tables} (o : Outside fl) (id : ℕ) (a : ApprovalRequest)
    (user now : ℕ) where
  -- A UNIQUE violation means that the contract is whitelisted already, and counts as success.
  abbrev pub contract_added : World t → t.contracts.Store × Created → World t × ℕ
  contract_added w (s, created key) =
      (finish_change id a user now (record w { contracts = s }), 200)
  contract_added w (s, duplicate) = (finish_change id a user now (record w { contracts = s }), 200)
  contract_added w (s, not_created) = (record w { contracts = s }, 500)

  unfoldable pub approve_contract_add : World t → World t × ℕ
  approve_contract_add w = elim (o.decode_contract a.policy_data) [
    | none ↦ (w, 500)
    | some (_, proposed) ↦ contract_added w (t.contracts.create proposed w.contracts)
  ]

  abbrev pub contract_updated : World t → t.contracts.Store × Affected → World t × ℕ
  contract_updated w (s, n) =
      if is_write_error n
      then (record w { contracts = s }, 500)
      else (finish_change id a user now (record w { contracts = s }), 200)

  unfoldable pub approve_contract_update : World t → World t × ℕ
  approve_contract_update w = elim (o.decode_contract a.policy_data) [
    | none ↦ (w, 500)
    | some (key, proposed) ↦
        contract_updated w
          (t.contracts.update_where (own_contract key a.user_id) (relabel proposed) w.contracts)
  ]

  abbrev pub entry_added : World t → t.addresses.Store × Created → World t × ℕ
  entry_added w (s, created key) = (finish_change id a user now (record w { addresses = s }), 200)
  entry_added w (s, duplicate) = (finish_change id a user now (record w { addresses = s }), 200)
  entry_added w (s, not_created) = (record w { addresses = s }, 500)

  unfoldable pub approve_addressbook_add : World t → World t × ℕ
  approve_addressbook_add w = elim (o.decode_entry a.policy_data) [
    | none ↦ (w, 500)
    | some (_, proposed) ↦ entry_added w (t.addresses.create proposed w.addresses)
  ]

  abbrev pub entry_updated : World t → t.addresses.Store × Affected → World t × ℕ
  entry_updated w (s, rows_changed) =
      (finish_change id a user now (record w { addresses = s }), 200)
  entry_updated w (s, no_rows) = (record w { addresses = s }, 404)
  entry_updated w (s, write_error) = (record w { addresses = s }, 500)

  unfoldable pub approve_addressbook_update : World t → World t × ℕ
  approve_addressbook_update w = elim (o.decode_entry a.policy_data) [
    | none ↦ (w, 500)
    | some (key, proposed) ↦
        entry_updated w
          (t.addresses.update_where (own_entry key a.user_id) (rewrite_entry proposed) w.addresses)
  ]

  abbrev pub policy_saved : World t → t.policies.Store × Bool → World t × ℕ
  policy_saved w (s, ok) =
      if ok
      then (finish_change id a user now (record w { policies = s }), 200)
      else (record w { policies = s }, 500)

  unfoldable pub approve_policy_change : World t → World t × ℕ
  approve_policy_change w = elim (o.decode_policy a.policy_data) [
    | none ↦ (w, 500)
    | some proposed ↦ elim a.wallet_id [
      | none ↦ (w, 400)
      | some wallet_id ↦ policy_saved w (save_policy t.policies wallet_id proposed w.policies)
    ]
  ]
