-- ===== src/Handler/Approval/Execute.antt =====
-- The branch of Approve (handler/approval.go) that signs and broadcasts: rebuilding the stored
-- transaction, signing, the daily limit, the broadcast, and the records afterwards.
use teenet_wallet.Base.{
  ℕ, String, Bool, false, not, ◌&&◌, ◌||◌, Option, none, some, inl, inr, ◌⊎◌, [], ◌∷◌, ◌++◌,
  if◌then◌else◌, ◌==◌, nat_eq, string_eq,
}
use teenet_wallet.Db.{found, missing, failed, Table}
use teenet_wallet.Model.{ApprovalPolicy, ApprovalRequest, approved, failed_status, Wallet}
use teenet_wallet.Handler.DailyLimit.{
  BigFloat, Outcome, allowed, exceeded, update_error, enabled_for, check_and_deduct_daily_limit_usd,
  release_daily_spent_usd, add_daily_spent_usd,
}
use teenet_wallet.Handler.Approval.World.{
  Tables, World, Outside, Rebuilt, WrapParams, TxContext, Broadcast, update_approval, set_status,
  update_audit_by_approval_id, broadcast_approval,
}

-- The message to sign and the parameters to broadcast.
abbrev pub Payload : Type 0
Payload = String × String

-- A rebuilt transaction replaces the message, and the parameters if they could be encoded; where
-- the rebuild failed, both stay as they were stored.
abbrev pub refreshed : Payload → Option Rebuilt → Payload
refreshed old none = old
refreshed (msg, params) (some (fresh, none)) = (fresh, params)
refreshed old (some (fresh, some params)) = (fresh, params)

abbrev pub is_wrap : WrapParams → Bool
is_wrap p = not (p.blockhash == "") && (p.wrap || (p.lamports == 0))

abbrev pub named : Option String → Bool
named none = false
named (some s) = not (s == "")

abbrev pub fits_wrap : Option WrapParams → Bool
fits_wrap none = false
fits_wrap (some p) = is_wrap p

abbrev pub wallet_by_id : String → ℕ → Wallet → Bool
wallet_by_id id key w = w.id == id

abbrev pub approve_with : ℕ → String → String → ApprovalRequest → ApprovalRequest
approve_with user sig tx_hash r = record r {
  status = approved;
  signature = sig;
  approved_by = some user;
  tx_hash = if tx_hash == "" then r.tx_hash else tx_hash;
}

module _ {fl : BigFloat} (o : Outside fl) where
  -- The kind of a Solana transaction is guessed by the fields that its parameters have.
  pub rebuild_solana : String → Payload → Payload
  rebuild_solana params old =
      if named (o.token_mint params)
      then refreshed old (o.rebuild_token params)
      else if named (o.program_id params)
      then refreshed old (o.rebuild_program params)
      else if fits_wrap (o.wrap_params params)
      then refreshed old (o.rebuild_wrap params)
      else refreshed old (o.rebuild_native params)

  -- `inr` is the HTTP status of a refusal.
  pub rebuild_evm : String → Payload → Payload ⊎ ℕ
  rebuild_evm params old =
      if o.is_eth_params params
      then elim (o.rebuild_eth params) [
        | none ↦ inr 422
        | some fresh ↦ inl (refreshed old (some fresh))
      ]
      else inr 500

  unfoldable pub rebuild : Wallet → String → Payload → Payload ⊎ ℕ
  unfolding rebuild_solana rebuild_evm
  rebuild wallet params old = if params == "" then inl old else elim (o.chain_family wallet.chain) [
    | none ↦ inl old
    | some family ↦
        if family == "solana"
        then inl (rebuild_solana params old)
        else if family == "evm"
        then rebuild_evm params old
        else inl old
  ]

  abbrev pub both_set : TxContext → Bool
  both_set c = not (c.amount == "") && not (c.currency == "")

  -- The USD amount of a transaction at the price of its currency.
  abbrev pub priced : Option o.Price → String → Option String
  priced none amount = none
  priced (some p) amount = o.amount_usd amount p

  abbrev pub context_amount : Option TxContext → Option String
  context_amount none = none
  context_amount (some c) = if both_set c then priced (o.usd_price c.currency) c.amount else none

  abbrev pub first_price : Option o.Price → Option o.Price → Option o.Price
  first_price (some p) other = some p
  first_price none other = other

  -- The price after the broadcast falls back to the token's own prices.
  abbrev pub fallback_price : TxContext → Option o.Price
  fallback_price c =
      if c.contract == ""
      then none
      else first_price (o.token_usd_price c.chain c.contract)
          (first_price (o.jupiter_price c.contract) (o.price_by_symbol c.currency))

  abbrev pub late_amount : Option TxContext → Option String
  late_amount none = none
  late_amount (some c) =
      if both_set c
      then priced (first_price (o.usd_price c.currency) (fallback_price c)) c.amount
      else none

  -- The amount that is taken from the daily limit before the broadcast, if any.
  pub pre_amount :
      (policies : Table ApprovalPolicy)
      → ApprovalRequest
      → String
      → String
      → policies.Store
      → Option String
  pre_amount policies a wallet_id params s =
      if (params == "") || not o.has_prices
      then none
      else elim (policies.find (enabled_for wallet_id) s) [
        | found (key, p) ↦
            if p.daily_limit_usd == "" then none else context_amount (o.decode_context a.tx_context)
        | missing ↦ none
        | failed ↦ none
      ]

  module _ {t : Tables} (id : ℕ) (a : ApprovalRequest) (wallet : Wallet) (wallet_id : String)
      (user now : ℕ) where
    -- What both failures do before they answer: failed, announced, audited.
    abbrev pub fail_with : String → World t → World t
    fail_with reason w =
        update_audit_by_approval_id id "failed" now (
          broadcast_approval id a "failed" reason (update_approval id (set_status failed_status) w))

    abbrev pub release_pre : Option String → World t → World t
    release_pre none w = w
    release_pre (some amount) w = record w {
      policies = release_daily_spent_usd fl t.policies wallet_id amount now w.policies;
    }

    -- The daily counter after a broadcast for which nothing was taken before.
    abbrev pub add_spent : Option String → World t → World t
    add_spent none w = w
    add_spent (some amount) w = record w {
      policies = add_daily_spent_usd fl t.policies wallet_id amount now w.policies;
    }

    abbrev pub late_spend : String → Option String → World t → World t
    late_spend tx_hash (some _) w = w
    late_spend tx_hash none w =
        if (tx_hash == "") || not o.has_prices
        then w
        else add_spent (late_amount (o.decode_context a.tx_context)) w

    abbrev pub recorded : String → Option String → World t → t.approvals.Store × Bool → World t × ℕ
    recorded tx_hash pre w (s, ok) =
        if ok
        then (
          broadcast_approval id a "approved" tx_hash (
              late_spend tx_hash pre
                (update_audit_by_approval_id id "success" now (record w { approvals = s }))),
          200,
        )
        else (record w { approvals = s }, 500)

    -- The records of an execution: the approval, the audit log, the daily counter, the event.
    unfoldable pub record_execution : String → String → Option String → World t → World t × ℕ
    record_execution sig tx_hash pre w =
        recorded tx_hash pre w (t.approvals.update id (approve_with user sig tx_hash) w.approvals)

    abbrev pub send : String → String → World t → World t
    send params sig w =
        let b : Broadcast = record { approval_id = id; params = params; signature = sig } in
        record w { sent = w.sent ++ b ∷ [] }

    unfoldable pub send_and_record : String → String → Option String → World t → World t × ℕ
    send_and_record params sig pre w =
        if params == ""
        then record_execution sig "" pre w
        else elim (o.broadcast_signed wallet params sig) [
          | none ↦ (fail_with "broadcast error" (release_pre pre (send params sig w)), 422)
          | some tx_hash ↦ record_execution sig tx_hash pre (send params sig w)
        ]

    -- A deduction that would go over the limit ends the request and leaves the approval pending.
    abbrev pub after_deduction :
        String → String → String → World t → t.policies.Store × Outcome → World t × ℕ
    after_deduction params sig amount w (s, exceeded) = (record w { policies = s }, 400)
    after_deduction params sig amount w (s, allowed) =
        send_and_record params sig (some amount) (record w { policies = s })
    after_deduction params sig amount w (s, update_error) =
        send_and_record params sig (some amount) (record w { policies = s })

    unfoldable pub deduct_and_send : String → String → World t → World t × ℕ
    unfolding pre_amount
    deduct_and_send params sig w = elim (pre_amount t.policies a wallet_id params w.policies) [
      | none ↦ send_and_record params sig none w
      | some amount ↦
          after_deduction params sig amount w
            (check_and_deduct_daily_limit_usd fl t.policies wallet_id amount now w.policies)
    ]

    unfoldable pub sign_and_send : Payload → World t → World t × ℕ
    sign_and_send (msg, params) w =
        let w' : World t = record w { signed = w.signed ++ (id, msg) ∷ [] } in
        elim (o.tee_sign msg wallet.key_name) [
          | none ↦ (fail_with "signing error" w', 422)
          | some sig ↦ deduct_and_send params sig w'
        ]

  abbrev pub rebuilt_or_refused :
      {t : Tables} → (Payload → World t → World t × ℕ) → Payload ⊎ ℕ → World t → World t × ℕ
  rebuilt_or_refused go (inl p) w = go p w
  rebuilt_or_refused go (inr status) w = (w, status)

  unfoldable pub execute : {t : Tables} → ℕ → ApprovalRequest → ℕ → ℕ → World t → World t × ℕ
  execute {t} id a user now w = elim a.wallet_id [
    | none ↦ (w, 400)
    | some wallet_id ↦ elim (t.wallets.find (wallet_by_id wallet_id) w.wallets) [
      | missing ↦ (w, 500)
      | failed ↦ (w, 500)
      | found (key, wallet) ↦ elim (o.decode_message a.message) [
        | none ↦ (w, 500)
        | some msg ↦
            rebuilt_or_refused (sign_and_send id a wallet wallet_id user now)
              (rebuild wallet a.tx_params (msg, a.tx_params)) w
      ]
    ]
  ]
