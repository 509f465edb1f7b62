-- ===== src/Handler/Policy/Rows.antt =====
-- What the statements of SetPolicy and DeletePolicy in handler/wallet.go do to the rows of policies.
use teenet_wallet.Base.{
  ◌≡◌, ◌∙◌, refl, ap, sym, subst, ℕ, String, Bool, true, Option, none, some, inl, inr, ◌⊎◌, ◌&&◌,
  ◌==◌, string_eq, nat_eq, if◌then◌else◌, if_ind, and_true,
}
use teenet_wallet.Db.{
  Found, found, missing, failed, Created, created, duplicate, not_created, map_row, drop_where,
  row_after_create, is_write_error, Table,
}
use teenet_wallet.Model.{ApprovalPolicy}
use teenet_wallet.Handler.Approval.Changes.{
  policy_of, save_found, inserted, apply_policy, new_policy, policy_defaults,
}
use teenet_wallet.Handler.Policy.{SetPolicyReq, or_true, proposed_policy}

-- A policy of the wallet with the threshold and the limit of the request.
abbrev pub IsAsAsked : String → SetPolicyReq → ApprovalPolicy → Type 0
IsAsAsked wallet_id req q =
    (q.wallet_id ≡ wallet_id)
    × (q.threshold_usd ≡ req.threshold_usd)
    × (q.daily_limit_usd ≡ req.daily_limit_usd)

-- A row is as it was; or it held the policy of the wallet, and holds it as asked with its counter kept;
-- or it holds a new one, which is enabled, and nothing is spent.
abbrev pub SetsRow : String → SetPolicyReq → Option ApprovalPolicy → Option ApprovalPolicy → Type 0
SetsRow wallet_id req old new =
    (new ≡ old)
    ⊎ ((p : ApprovalPolicy) × (q : ApprovalPolicy) × (old ≡ some p)
        × (p.wallet_id ≡ wallet_id)
        × (new ≡ some q)
        × IsAsAsked wallet_id req q
        × (q.enabled ≡ or_true req.enabled)
        × (q.daily_spent_usd ≡ p.daily_spent_usd)
        × (q.daily_reset_at ≡ p.daily_reset_at))
    ⊎ ((q : ApprovalPolicy) × (new ≡ some q)
        × IsAsAsked wallet_id req q
        × (q.enabled ≡ true)
        × (q.daily_spent_usd ≡ "0")
        × (q.daily_reset_at ≡ 0))

-- A row is as it was, or it held the policy of the wallet and is gone.
abbrev pub DropsRow : String → Option ApprovalPolicy → Option ApprovalPolicy → Type 0
DropsRow wallet_id old new =
    (new ≡ old) ⊎ ((p : ApprovalPolicy) × (old ≡ some p) × (p.wallet_id ≡ wallet_id) × (new ≡ none))

module _ (policies : Table ApprovalPolicy) where
  open policies use {Store, row, find, create, update, delete_where}

  inserted-store : (r : Store × Created) → (inserted policies r).0 ≡ r.0
  inserted-store (s, created key) = refl
  inserted-store (s, duplicate) = refl
  inserted-store (s, not_created) = refl

  created-SetsRow :
      (wallet_id : String) (req : SetPolicyReq) (c : Created) (j : ℕ) (old : Option ApprovalPolicy)
      → SetsRow wallet_id req old (
          row_after_create c
            (policy_defaults (apply_policy (proposed_policy wallet_id req) (new_policy wallet_id)))
            j
            old)
  created-SetsRow wallet_id req duplicate j old = inl refl
  created-SetsRow wallet_id req not_created j old = inl refl
  created-SetsRow wallet_id req (created key) j old =
      if_ind (SetsRow wallet_id req old) (key == j) _ _
        (λ hit. inr (inr (_, refl, (refl, refl, refl), refl, refl, refl))) (λ miss. inl refl)

  inserted-SetsRow :
      (wallet_id : String) (req : SetPolicyReq) (s : Store) (j : ℕ)
      → SetsRow wallet_id req (row j s) (
          row j
            (inserted policies (
              create
                (policy_defaults
                  (apply_policy (proposed_policy wallet_id req) (new_policy wallet_id)))
                s)).0)
  inserted-SetsRow wallet_id req s j =
      let new =
        policy_defaults (apply_policy (proposed_policy wallet_id req) (new_policy wallet_id)) in
      subst (SetsRow wallet_id req (row j s))
        (sym (ap (row j) (inserted-store (create new s)) ∙ policies.create_row new s j))
        (created-SetsRow wallet_id req (create new s).1 j (row j s))

  updated-SetsRow :
      (wallet_id : String) (req : SetPolicyReq) (key : ℕ) (p : ApprovalPolicy) (s : Store) (j : ℕ)
      (ok : Bool)
      → row key s ≡ some p
      → p.wallet_id ≡ wallet_id
      → SetsRow wallet_id req (row j s) (
          if ok && (key == j)
          then map_row (λ _. apply_policy (proposed_policy wallet_id req) p) (row j s)
          else row j s)
  updated-SetsRow wallet_id req key p s j ok here own =
      if_ind (SetsRow wallet_id req (row j s)) (ok && (key == j)) _ _
        (λ hit.
          let same : key ≡ j = (nat_eq.eqb_iff key j).0 (and_true ok _ hit).1 in
          let at_j : row j s ≡ some p = subst (λ k. row k s ≡ some p) same here in
          inr (
            inl (
              p,
              apply_policy (proposed_policy wallet_id req) p,
              at_j,
              own,
              ap (map_row (λ _. apply_policy (proposed_policy wallet_id req) p)) at_j,
              (own, refl, refl),
              refl,
              refl,
              refl,
            )))
        (λ miss. inl refl)

  pub save_found-SetsRow :
      (wallet_id : String) (req : SetPolicyReq) (f : Found (ℕ × ApprovalPolicy)) (s : Store) (j : ℕ)
      → find (policy_of wallet_id) s ≡ f
      → SetsRow wallet_id req
          (row j s)
          (row j (save_found policies wallet_id (proposed_policy wallet_id req) f s).0)
  save_found-SetsRow wallet_id req missing s j e = inserted-SetsRow wallet_id req s j
  save_found-SetsRow wallet_id req failed s j e = inserted-SetsRow wallet_id req s j
  save_found-SetsRow wallet_id req (found (key, p)) s j e =
      let (here, own) = policies.find_found (policy_of wallet_id) s key p e in
      let f : ApprovalPolicy → ApprovalPolicy =
        λ _. apply_policy (proposed_policy wallet_id req) p in
      subst (SetsRow wallet_id req (row j s)) (sym (policies.update_row key f s j)) (
        updated-SetsRow wallet_id req key p s j (update key f s).1 here
          ((string_eq.eqb_iff p.wallet_id wallet_id).0 own))

  drop_where-DropsRow :
      (wallet_id : String) (j : ℕ) (old : Option ApprovalPolicy)
      → DropsRow wallet_id old (drop_where (policy_of wallet_id j) old)
  drop_where-DropsRow wallet_id j none = inl refl
  drop_where-DropsRow wallet_id j (some p) =
      if_ind (DropsRow wallet_id (some p)) (p.wallet_id == wallet_id) _ _
        (λ own. inr (p, refl, (string_eq.eqb_iff p.wallet_id wallet_id).0 own, refl))
        (λ other. inl refl)

  pub deleted-DropsRow :
      (wallet_id : String) (s : Store) (j : ℕ)
      → DropsRow wallet_id (row j s) (row j (delete_where (policy_of wallet_id) s).0)
  deleted-DropsRow wallet_id s j =
      subst (DropsRow wallet_id (row j s))
        (sym (policies.delete_where_row (policy_of wallet_id) s j))
        (if_ind (DropsRow wallet_id (row j s))
          (is_write_error (delete_where (policy_of wallet_id) s).1) _ _ (λ error. inl refl)
          (λ done. drop_where-DropsRow wallet_id j (row j s)))
