-- ===== src/Handler/Spend/Counter.antt =====
-- What the policy code of handler/wallet.go does to the daily counters.
use teenet_wallet.Handler.Spend.Clearance.{is_limited_free}
use teenet_wallet.Base.{
  subst, sym, and_true, not-true, not, ◌==◌, string_eq, true, ℕ, ◌≡◌, ◌≢◌, refl, ap, String, Bool,
  false, Option, none, some, List, [], ◌∷◌, inl, inr, ◌⊎◌, Option-cases,
}
use teenet_wallet.Db.{Created, created, duplicate, not_created, Table}
use teenet_wallet.Model.{ApprovalPolicy, IdempotencyRecord}
use teenet_wallet.Chain.EthFees.{BigInts}
use teenet_wallet.Handler.DailyLimit.{BigFloat, Outcome, allowed, exceeded, update_error}
use teenet_wallet.Handler.DailyLimit.Laws.{Call, deduct, release as give_back, run}
use teenet_wallet.Handler.Approval.World.{Tables}
use teenet_wallet.Handler.Requests.{Caller, write_audit_ctx}
use teenet_wallet.Handler.Idempotency.{RequestKey}
use teenet_wallet.Handler.Broadcast.{
  Node, Attempt, SignBroadcastResult, done, signing_failed, broadcast_failed,
}
use teenet_wallet.Handler.Spend.{
  Money, Reply, completed, Proposal, SpendState, usd_text, is_limited, approval_asked,
  create_approval_request, release, settled, send_now, spend,
}
use teenet_wallet.Handler.Spend.Cases.{deduction, IsTaken, spend_ind}

module _ {fl : BigFloat} (m : Money fl) where
  -- No daily limit applies to the transaction, or one does.
  abbrev pub IsFree : Proposal m → Option ApprovalPolicy → Type 0
  IsFree p none = Unit {0}
  IsFree p (some policy) = (policy.daily_limit_usd ≡ "") ⊎ (m.above_zero p.amount_usd ≡ false)

  abbrev pub IsDue : Proposal m → Option ApprovalPolicy → Type 0
  IsDue p none = ⊥
  IsDue p (some policy) = (policy.daily_limit_usd ≢ "") × (m.above_zero p.amount_usd ≡ true)

  abbrev pub taking : Caller → Proposal m → Call
  taking by p = deduct p.wallet.id (usd_text m p.amount_usd) by.now

  abbrev pub giving_back : Caller → Proposal m → Call
  giving_back by p = give_back p.wallet.id (usd_text m p.amount_usd) by.now

module _ {fl : BigFloat} (m : Money fl) {t : Tables} {records : Table IdempotencyRecord} where
  -- The calls on the daily counters by the response: a completed transaction that a limit applies to has
  -- made one deduction, which was allowed; for any other response nothing is taken, or the limit does
  -- not allow it, or it was taken and is given back.
  unfoldable pub Charges :
      Caller
      → Proposal m
      → Option ApprovalPolicy
      → SpendState t records
      → Reply
      → List Call
      → Type 0
  Charges by p o s (completed hash) cs =
      (IsFree m p o × (cs ≡ []))
      ⊎ (IsDue m p o × ((deduction m by p s).1 ≡ allowed) × (cs ≡ taking m by p ∷ []))
  Charges by p o s _ cs =
      (cs ≡ [])
      ⊎ ((cs ≡ taking m by p ∷ []) × ((deduction m by p s).1 ≢ allowed))
      ⊎ ((cs ≡ taking m by p ∷ giving_back m by p ∷ []) × ((deduction m by p s).1 ≡ allowed))

  abbrev pub IsCharged :
      Caller
      → Proposal m
      → Option ApprovalPolicy
      → SpendState t records
      → SpendState t records × Reply
      → Type 0
  IsCharged by p o s r =
      (cs : List Call) × (r.0.world.policies ≡ run fl t.policies cs s.world.policies)
      × Charges by p o s r.1 cs

denied : (outcome : Outcome) → (outcome ≡ exceeded) ⊎ (outcome ≡ update_error) → outcome ≢ allowed
denied outcome (inl e) room = cc
denied outcome (inr e) room = cc

module _ {fl : BigFloat} (m : Money fl) (ints : BigInts) (node : Node) (hex : String → String)
    (expiry : ℕ) {t : Tables} {records : Table IdempotencyRecord} (has_store : Bool) (by : Caller)
    (key : RequestKey) (p : Proposal m) (o : Option ApprovalPolicy) (s : SpendState t records) where
  -- What a response other than a completed transaction leaves in the counters.
  abbrev IsBalanced : SpendState t records → Type 0
  IsBalanced s' =
      (cs : List Call) × (s'.world.policies ≡ run fl t.policies cs s.world.policies)
      × ((cs ≡ [])
          ⊎ ((cs ≡ taking m by p ∷ []) × ((deduction m by p s).1 ≢ allowed))
          ⊎ ((cs ≡ taking m by p ∷ giving_back m by p ∷ []) × ((deduction m by p s).1 ≡ allowed)))

  abbrev give : Option String → SpendState t records → SpendState t records
  give taken s' = release m ints node hex expiry has_store by key p taken s'

  released-IsBalanced :
      (policy : ApprovalPolicy) (taken : Option String) (s' : SpendState t records)
      → IsTaken m by p policy s taken s'
      → IsBalanced (give taken s')
  unfolding run
  released-IsBalanced policy none s' (free, e) = ([], ap (λ u. u.world.policies) e, inl refl)
  released-IsBalanced policy (some amount) s' (limited, text, room, e) = (
    taking m by p ∷ giving_back m by p ∷ [],
    rw text (ap (λ u. (give (some (usd_text m p.amount_usd)) u).world.policies) e),
    inr (inr (refl, room)),
  )

  approval_asked-IsCharged :
      (s' : SpendState t records) (r : t.approvals.Store × Created)
      → IsBalanced s'
      → IsCharged m by p o s (approval_asked m ints node hex expiry has_store by key p s' r)
  unfolding Charges write_audit_ctx
  approval_asked-IsCharged s' (st, duplicate) h = h
  approval_asked-IsCharged s' (st, not_created) h = h
  approval_asked-IsCharged s' (st, created id) h = h

  create_approval_request-IsCharged :
      (s' : SpendState t records)
      → IsBalanced s'
      → IsCharged m by p o s (create_approval_request m ints node hex expiry has_store by key p s')
  unfolding create_approval_request Charges
  create_approval_request-IsCharged s' h = elim (Option-cases p.context) [
    | inl e ↦ rw (create_approval_request, e) h
    | inr (context, e) ↦ rw (create_approval_request, e) (approval_asked-IsCharged s' _ h)
  ]

  -- What a completed transaction leaves in them.
  abbrev Kept : SpendState t records → Type 0
  Kept s' =
      (cs : List Call) × (s'.world.policies ≡ run fl t.policies cs s.world.policies)
      × ((IsFree m p o × (cs ≡ []))
          ⊎ (IsDue m p o × ((deduction m by p s).1 ≡ allowed) × (cs ≡ taking m by p ∷ [])))

  settled-IsCharged :
      (taken : Option String) (s' : SpendState t records) (r : List Attempt × SignBroadcastResult)
      → IsBalanced (give taken s')
      → Kept s'
      → IsCharged m by p o s (settled m ints node hex expiry has_store by key p taken s' r)
  unfolding Charges write_audit_ctx
  settled-IsCharged none s' (new, signing_failed) back kept = back
  settled-IsCharged (some amount) s' (new, signing_failed) back kept = back
  settled-IsCharged none s' (new, broadcast_failed err) back kept = back
  settled-IsCharged (some amount) s' (new, broadcast_failed err) back kept = back
  settled-IsCharged taken s' (new, done sig hash) back kept = kept

  is_limited-IsDue :
      (policy : ApprovalPolicy) → is_limited m p policy ≡ true → IsDue m p (some policy)
  is_limited-IsDue policy limited =
      let (set, above) = and_true (not (policy.daily_limit_usd == "")) _ limited in
      let absent : (policy.daily_limit_usd == "") ≡ false = not-true _ set in
      (
        λ e.
            let empty : (policy.daily_limit_usd == "") ≡ true =
              (string_eq.eqb_iff policy.daily_limit_usd "").1 e in
            cc,
        above,
      )

  taken-Kept :
      (policy : ApprovalPolicy) (taken : Option String) (s' : SpendState t records)
      → o ≡ some policy
      → IsTaken m by p policy s taken s'
      → Kept s'
  unfolding run
  taken-Kept policy none s' e (free, same) = (
    [],
    ap (λ u. u.world.policies) same,
    inl (subst (IsFree m p) (sym e) (is_limited_free m p policy free), refl),
  )
  taken-Kept policy (some amount) s' e (limited, text, room, same) = (
    taking m by p ∷ [],
    ap (λ u. u.world.policies) same,
    inr (subst (IsDue m p) (sym e) (is_limited-IsDue policy limited), room, refl),
  )

  -- The code touches the daily counters only by the calls that keep to the limit. A completed transaction
  -- has made one deduction of its amount, which was allowed, if the wallet has a daily limit and the
  -- amount is known, and none otherwise. After any other response, an approval included, no call was made, or the
  -- deduction was not allowed and nothing was released, or an allowed deduction was followed by one release of
  -- the same amount.
  pub spend-IsCharged : IsCharged m by p o s (spend m ints node hex expiry has_store by key p o s)
  unfolding run Charges send_now
  spend-IsCharged =
      spend_ind m ints node hex expiry has_store by key p s (IsCharged m by p o s)
        (create_approval_request-IsCharged s ([], refl, inl refl))
        (λ policy status limited out. (taking m by p ∷ [], refl, inr (inl (refl, denied _ out))))
        (λ policy taken s' h.
          create_approval_request-IsCharged (give taken s') (released-IsBalanced policy taken s' h))
        o
        (λ free.
          settled-IsCharged none s _ ([], refl, inl refl)
            ([], refl, inl (subst (IsFree m p) (sym free) tt, refl)))
        (λ policy taken s' e priced below h.
          settled-IsCharged taken s' _ (released-IsBalanced policy taken s' h)
            (taken-Kept policy taken s' e h))
