-- ===== src/Handler/Facts.antt =====
-- What a handler knows of the rows that it looked up, and of an amount below a threshold, in terms of
-- the rows and of numbers.
use teenet_wallet.Base.{
  ℕ, ◌≡◌, ap, sym, subst, ◌∙◌, String, true, false, ◌&&◌, Option, none, some, inl, inr, ◌⊎◌, ◌==◌,
  string_eq, nat_eq, Bool-cases, Option-cases, and_true, inl_inj, arith,
}
use teenet_wallet.Db.{missing, failed, Found-cases}
use teenet_wallet.Model.{
  AllowedContract, ApprovalPolicy, ApprovalRequest, pending, ApprovalType, Wallet,
}
use teenet_wallet.Handler.DailyLimit.{BigFloat, enabled_for}
use teenet_wallet.Handler.Approval.World.{Tables, World}
use teenet_wallet.Handler.Requests.{Caller, own_wallet, wallet_or_404, load_user_wallet}
use teenet_wallet.Handler.Transfer.Build.{whitelisted, allowed_row, find_allowed}
use teenet_wallet.Handler.Spend.{Money, policy_of, exceeds_usd_threshold}

module _ {t : Tables} where
  -- A stored wallet with the id of the path, and of the caller.
  abbrev pub IsOwned : Caller → String → World t → Wallet → Type 0
  IsOwned by id w wallet =
      (j : ℕ) × (t.wallets.row j w.wallets ≡ some wallet)
      × (wallet.id ≡ id)
      × (wallet.user_id ≡ by.user_id)

  found_wallet-IsOwned :
      (by : Caller) (id : String) (w : World t) (wallet : Wallet)
      → wallet_or_404 (t.wallets.find (own_wallet id by.user_id) w.wallets) ≡ inl wallet
      → IsOwned by id w wallet
  found_wallet-IsOwned by id w wallet e =
      elim (Found-cases (t.wallets.find (own_wallet id by.user_id) w.wallets)) [
        | inl ((j, x), f) ↦
            let (here, own) = t.wallets.find_found _ w.wallets j x f in
            let same : x ≡ wallet = inl_inj x wallet (ap wallet_or_404 (sym f) ∙ e) in
            let (by_id, by_user) = and_true (x.id == id) (x.user_id == by.user_id) own in
            subst (IsOwned by id w) same (
              j,
              here,
              (string_eq.eqb_iff x.id id).0 by_id,
              (nat_eq.eqb_iff x.user_id by.user_id).0 by_user,
            )
        | inr (inl f) ↦ cc (ap wallet_or_404 (sym f) ∙ e)
        | inr (inr f) ↦ cc (ap wallet_or_404 (sym f) ∙ e)
      ]

  pub load_user_wallet-IsOwned :
      (by : Caller) (id : String) (w : World t) (wallet : Wallet)
      → load_user_wallet by id w ≡ inl wallet
      → IsOwned by id w wallet
  unfolding load_user_wallet
  load_user_wallet-IsOwned by id w wallet e = elim (Bool-cases (id == "")) [
    | inl empty ↦ let refusal : ◌≡◌ {A = Wallet ⊎ ℕ} (inr 400) (inl wallet) = rw empty at e in cc
    | inr given ↦ found_wallet-IsOwned by id w wallet (rw given at e)
  ]

  -- A stored row of the whitelist for the address, of the wallet's owner and chain.
  abbrev pub IsListed : World t → Wallet → String → AllowedContract → Type 0
  IsListed w wallet address c =
      (j : ℕ) × (t.contracts.row j w.contracts ≡ some c)
      × (c.user_id ≡ wallet.user_id)
      × (c.chain ≡ wallet.chain)
      × (c.contract_address ≡ address)

  pub find_allowed-IsListed :
      (w : World t) (wallet : Wallet) (address : String) (c : AllowedContract)
      → find_allowed wallet address w ≡ some c
      → IsListed w wallet address c
  unfolding find_allowed
  find_allowed-IsListed w wallet address c e =
      elim (Found-cases (t.contracts.find (whitelisted wallet address) w.contracts)) [
        | inl ((j, x), f) ↦
            let (here, own) = t.contracts.find_found _ w.contracts j x f in
            let same : x ≡ c = cc (ap allowed_row (sym f) ∙ e) in
            let (user, rest) = and_true _ _ own in
            let (chain, addr) = and_true _ _ rest in
            subst (IsListed w wallet address) same (
              j,
              here,
              (nat_eq.eqb_iff x.user_id wallet.user_id).0 user,
              (string_eq.eqb_iff x.chain wallet.chain).0 chain,
              (string_eq.eqb_iff x.contract_address address).0 addr,
            )
        | inr (inl f) ↦ cc (ap allowed_row (sym f) ∙ e)
        | inr (inr f) ↦ cc (ap allowed_row (sym f) ∙ e)
      ]

  -- An enabled policy that is stored for the wallet; none if the lookup of one finds none, or fails.
  abbrev pub IsPolicyOf : World t → Wallet → Option ApprovalPolicy → Type 0
  IsPolicyOf w wallet (some p) =
      (j : ℕ) × (t.policies.row j w.policies ≡ some p)
      × (p.wallet_id ≡ wallet.id)
      × (p.enabled ≡ true)
  IsPolicyOf w wallet none =
      (t.policies.find (λ j p. (p.wallet_id == wallet.id) && p.enabled) w.policies ≡ missing)
      ⊎ (t.policies.find (λ j p. (p.wallet_id == wallet.id) && p.enabled) w.policies ≡ failed)

  pub policy_of-IsPolicyOf :
      (w : World t) (wallet : Wallet) → IsPolicyOf w wallet (policy_of w wallet)
  policy_of-IsPolicyOf w wallet =
      elim (Found-cases (t.policies.find (enabled_for wallet.id) w.policies)) [
        | inl ((j, p), f) ↦
            let (here, own) = t.policies.find_found _ w.policies j p f in
            let (of_wallet, on) = and_true _ _ own in
            rw (IsPolicyOf, f) (j, here, (string_eq.eqb_iff p.wallet_id wallet.id).0 of_wallet, on)
        | inr (inl f) ↦ rw (IsPolicyOf, f) (inl f)
        | inr (inr f) ↦ rw (IsPolicyOf, f) (inr f)
      ]

-- The threshold is not a number above zero, or the number is not above it.
abbrev pub IsUnder : (fl : BigFloat) → fl.Num → String → Type 0
IsUnder fl x threshold =
    (fl.parse threshold ≡ none)
    ⊎ ((t : fl.Num) × (fl.parse threshold ≡ some t)
        × ((fl.is_positive t ≡ false) ⊎ (fl.gtb x t ≡ false)))

pub exceeds_usd_threshold-IsUnder :
    {fl : BigFloat} (m : Money fl) (usd : m.Usd) (threshold : String)
    → exceeds_usd_threshold m usd threshold ≡ false
    → IsUnder fl (m.to_num usd) threshold
exceeds_usd_threshold-IsUnder {fl} m usd threshold e = elim (Option-cases (fl.parse threshold)) [
  | inl n ↦ inl n
  | inr (t, p) ↦ elim (Bool-cases (fl.is_positive t)) [
    | inl above ↦ inr (t, p, inr (ground (arith, p, above, e)))
    | inr not_above ↦ inr (t, p, inl not_above)
  ]
]

-- An approval that waits for its user: what it asks for, with these texts.
abbrev pub WaitsWith :
    Caller → ApprovalType → Wallet → (message params context : String) → ApprovalRequest → Type 0
WaitsWith by ty wallet message params context a =
    (a.status ≡ pending)
    × (a.user_id ≡ by.user_id)
    × (a.approval_type ≡ ty)
    × (a.wallet_id ≡ some wallet.id)
    × (a.message ≡ message)
    × (a.tx_params ≡ params)
    × (a.tx_context ≡ context)
