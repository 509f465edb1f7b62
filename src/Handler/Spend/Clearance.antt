-- ===== src/Handler/Spend/Clearance.antt =====
-- When the policy code of handler/wallet.go signs, and what it leaves where it asks for an approval.
use teenet_wallet.Base.{
  ℕ, ◌≡◌, refl, ap, sym, subst, ◌∙◌, String, Bool, false, Option, none, some, List, ◌++◌, inl, inr,
  ◌⊎◌, ◌==◌, Bool-cases, Option-cases, nat_eq, string_eq,
}
use teenet_wallet.Db.{Created, created, duplicate, not_created, Table, row_after_create}
use teenet_wallet.Model.{ApprovalPolicy, ApprovalRequest, sign, IdempotencyRecord}
use teenet_wallet.Handler.Facts.{IsUnder, exceeds_usd_threshold-IsUnder, WaitsWith}
use teenet_wallet.Chain.EthFees.{BigInts}
use teenet_wallet.Handler.DailyLimit.{BigFloat, allowed}
use teenet_wallet.Handler.Approval.World.{Tables, World}
use teenet_wallet.Handler.Requests.{Caller, write_audit_ctx}
use teenet_wallet.Handler.Idempotency.{RequestKey, check_idempotency}
use teenet_wallet.Handler.Broadcast.{
  Node, Attempt, SignBroadcastResult, done, signing_failed, broadcast_failed, sign_and_broadcast,
}
use teenet_wallet.Handler.Spend.{
  Money, Reply, refused, replayed, completed, pending_approval_reply, Proposal, SpendState,
  is_limited, asked_approval, approval_asked, create_approval_request, release, settled, send_now,
  spend, unless_saved, answer,
}
use teenet_wallet.Handler.Spend.Cases.{is_above, deduction, IsTaken, spend_ind}

module _ {fl : BigFloat} (m : Money fl) where
  is_above-IsUnder :
      (p : Proposal m) (policy : ApprovalPolicy)
      → is_above m p policy ≡ false
      → (m.above_zero p.amount_usd ≡ false)
        ⊎ IsUnder fl (m.to_num p.amount_usd) policy.threshold_usd
  is_above-IsUnder p policy below = elim (Bool-cases (m.above_zero p.amount_usd)) [
    | inl some_amount ↦ inr (
        exceeds_usd_threshold-IsUnder m p.amount_usd policy.threshold_usd (rw some_amount at below))
    | inr nothing ↦ inl nothing
  ]

  pub is_limited_free :
      (p : Proposal m) (policy : ApprovalPolicy)
      → is_limited m p policy ≡ false
      → (policy.daily_limit_usd ≡ "") ⊎ (m.above_zero p.amount_usd ≡ false)
  is_limited_free p policy free = elim (Bool-cases (policy.daily_limit_usd == "")) [
    | inl empty ↦ inl ((string_eq.eqb_iff policy.daily_limit_usd "").0 empty)
    | inr some_limit ↦ inr (rw some_limit at free)
  ]

module _ {fl : BigFloat} (m : Money fl) {t : Tables} {records : Table IdempotencyRecord} where
  -- The policy lets the transaction go: it needs no approval for want of a price, its amount is not
  -- above the threshold, and the daily limit, if it applies, has room for it.
  unfoldable pub IsCleared :
      Caller → Proposal m → Option ApprovalPolicy → SpendState t records → Type 0
  IsCleared by p none s = Unit {0}
  IsCleared by p (some policy) s =
      (p.unpriced ≡ false)
      × ((m.above_zero p.amount_usd ≡ false)
          ⊎ IsUnder fl (m.to_num p.amount_usd) policy.threshold_usd)
      × ((policy.daily_limit_usd ≡ "")
          ⊎ (m.above_zero p.amount_usd ≡ false)
          ⊎ ((deduction m by p s).1 ≡ allowed))

  -- A response without a transaction: a refusal, or an approval that waits with the message, the
  -- parameters and the context of the transaction.
  unfoldable pub IsHeld :
      (String → String) → ℕ → Caller → Proposal m → SpendState t records × Reply → Type 0
  IsHeld hex expiry by p (s, refused status) = Unit {0}
  IsHeld hex expiry by p (s, replayed status response) = ⊥
  IsHeld hex expiry by p (s, completed hash) = ⊥
  IsHeld hex expiry by p (s, pending_approval_reply id) =
      (context : String) × (p.context ≡ some context)
      × (a : ApprovalRequest) × (t.approvals.row id s.world.approvals ≡ some a)
      × WaitsWith by sign p.wallet (hex p.message) p.params context a

module _ {fl : BigFloat} (m : Money fl) (ints : BigInts) (node : Node) (hex : String → String)
    (expiry : ℕ) {t : Tables} {records : Table IdempotencyRecord} (has_store : Bool) (by : Caller)
    (key : RequestKey) (p : Proposal m) where
  -- The log as it was, or a response that holds the transaction.
  abbrev pub Holds : List Attempt → SpendState t records × Reply → Type 0
  Holds log r = (r.0.log ≡ log) × IsHeld m hex expiry by p r

  approval_asked-Holds :
      (context : String) (s : SpendState t records) (r : t.approvals.Store × Created)
      → p.context ≡ some context
      → t.approvals.create (asked_approval m hex expiry by p context) s.world.approvals ≡ r
      → Holds s.log (approval_asked m ints node hex expiry has_store by key p s r)
  unfolding IsHeld write_audit_ctx
  approval_asked-Holds context s (st, duplicate) e c = (refl, tt)
  approval_asked-Holds context s (st, not_created) e c = (refl, tt)
  approval_asked-Holds context s (st, created id) e c =
      let new = asked_approval m hex expiry by p context in
      (
        refl,
        (
          context,
          e,
          new,
          subst
                (λ q.
                  t.approvals.row id q.0
                  ≡ row_after_create q.1 new id (t.approvals.row id s.world.approvals))
                c (t.approvals.create_row new s.world.approvals id)
              ∙ rw ((nat_eq.eqb_iff id id).1 refl) refl,
          (refl, refl, refl, refl, refl, refl, refl),
        ),
      )

  create_approval_request-Holds :
      (s : SpendState t records)
      → Holds s.log (create_approval_request m ints node hex expiry has_store by key p s)
  unfolding create_approval_request IsHeld
  create_approval_request-Holds s = elim (Option-cases p.context) [
    | inl e ↦ rw (create_approval_request, e) (refl, tt)
    | inr (context, e) ↦
        subst
          (λ o. Holds s.log (elim o [
            | none ↦ (s, refused 500)
            | some c ↦
                approval_asked m ints node hex expiry has_store by key p s
                  (t.approvals.create (asked_approval m hex expiry by p c) s.world.approvals)
          ]))
          (sym e) (approval_asked-Holds context s _ e refl)
  ]

  release-log :
      (taken : Option String) (s : SpendState t records)
      → (release m ints node hex expiry has_store by key p taken s).log ≡ s.log
  release-log none s = refl
  release-log (some amount) s = refl

  settled-log :
      (taken : Option String) (s : SpendState t records) (r : List Attempt × SignBroadcastResult)
      → (settled m ints node hex expiry has_store by key p taken s r).0.log ≡ s.log ++ r.0
  settled-log taken s (new, signing_failed) = release-log taken _
  settled-log taken s (new, broadcast_failed err) = release-log taken _
  settled-log taken s (new, done sig hash) = refl

  taken-log :
      (policy : ApprovalPolicy) (s : SpendState t records) (taken : Option String)
      (s' : SpendState t records)
      → IsTaken m by p policy s taken s'
      → s'.log ≡ s.log
  taken-log policy s none s' h = ap (λ u. u.log) h.1
  taken-log policy s (some amount) s' h = ap (λ u. u.log) h.3

  taken-room :
      (policy : ApprovalPolicy) (s : SpendState t records) (taken : Option String)
      (s' : SpendState t records)
      → IsTaken m by p policy s taken s'
      → (policy.daily_limit_usd ≡ "")
        ⊎ (m.above_zero p.amount_usd ≡ false)
        ⊎ ((deduction m by p s).1 ≡ allowed)
  taken-room policy s none s' h = elim (is_limited_free m p policy h.0) [
    | inl e ↦ inl e
    | inr e ↦ inr (inl e)
  ]
  taken-room policy s (some amount) s' h = inr (inr h.2)

  -- The response holds the transaction, or the policy lets it go and it went once.
  abbrev pub IsGuarded :
      Option ApprovalPolicy → SpendState t records → SpendState t records × Reply → Type 0
  IsGuarded o s r =
      Holds s.log r
      ⊎ (IsCleared m by p o s
          × (r.0.log ≡ s.log ++ (sign_and_broadcast ints node p.wallet p.message p.params).0))

  -- A transaction is signed and sent, once through signAndBroadcast with its own message and
  -- parameters, only where the policy of the wallet lets it go. If it is not, nothing is signed, and
  -- the response is a refusal or names an approval that waits with the same transaction.
  pub spend-IsGuarded :
      (o : Option ApprovalPolicy) (s : SpendState t records)
      → IsGuarded o s (spend m ints node hex expiry has_store by key p o s)
  unfolding IsCleared IsHeld send_now
  spend-IsGuarded o s =
      let sent = (sign_and_broadcast ints node p.wallet p.message p.params).0 in
      spend_ind m ints node hex expiry has_store by key p s (IsGuarded o s)
        (inl (create_approval_request-Holds s)) (λ policy status limited out. inl (refl, tt))
        (λ policy taken s' h.
          let asked =
            create_approval_request-Holds
              (release m ints node hex expiry has_store by key p taken s') in
          inl (asked.0 ∙ release-log taken s' ∙ taken-log policy s taken s' h, asked.1))
        o (λ free. inr (rw free tt, settled-log none s _))
        (λ policy taken s' e priced below h. inr (
          subst (λ q. IsCleared m by p q s) (sym e)
              (priced, is_above-IsUnder m p policy below, taken-room policy s taken s' h),
          settled-log taken s' _ ∙ ap (λ l. l ++ sent) (taken-log policy s taken s' h),
        ))

module _ {fl : BigFloat} (m : Money fl) (ints : BigInts) (node : Node) (hex : String → String)
    (expiry : ℕ) {t : Tables} {records : Table IdempotencyRecord} (has_store : Bool) (by : Caller)
    (key : RequestKey) where
  -- Nothing was signed for the request; or no response was saved for it, it passed the checks, and its
  -- proposal, which the policy lets go, went through signAndBroadcast once.
  abbrev pub IsAuthorised :
      (World t → (Proposal m × Option ApprovalPolicy) ⊎ ℕ)
      → SpendState t records
      → SpendState t records
      → Type 0
  IsAuthorised prepare s s' =
      (s'.log ≡ s.log)
      ⊎ ((p : Proposal m) × (o : Option ApprovalPolicy) × (prepare s.world ≡ inl (p, o))
          × (check_idempotency records has_store key by.now s.saved ≡ none)
          × IsCleared m by p o s
          × (s'.log ≡ s.log ++ (sign_and_broadcast ints node p.wallet p.message p.params).0))

  unless_saved-IsAuthorised :
      (prepare : World t → (Proposal m × Option ApprovalPolicy) ⊎ ℕ) (s : SpendState t records)
      (saved : Option (ℕ × String)) (r : (Proposal m × Option ApprovalPolicy) ⊎ ℕ)
      → check_idempotency records has_store key by.now s.saved ≡ saved
      → prepare s.world ≡ r
      → IsAuthorised prepare s (unless_saved m ints node hex expiry has_store by key saved r s).0
  unless_saved-IsAuthorised prepare s (some (status, response)) r old e = inl refl
  unless_saved-IsAuthorised prepare s none (inr status) new e = inl refl
  unless_saved-IsAuthorised prepare s none (inl (p, o)) new e =
      elim (spend-IsGuarded m ints node hex expiry has_store by key p o s) [
        | inl held ↦ inl held.0
        | inr (cleared, sent) ↦ inr (p, o, e, new, cleared, sent)
      ]

  pub answer-IsAuthorised :
      (prepare : World t → (Proposal m × Option ApprovalPolicy) ⊎ ℕ) (s : SpendState t records)
      → IsAuthorised prepare s (answer m ints node hex expiry has_store by key prepare s).0
  unfolding answer
  answer-IsAuthorised prepare s =
      unless_saved-IsAuthorised prepare s (check_idempotency records has_store key by.now s.saved)
        (prepare s.world) refl refl
