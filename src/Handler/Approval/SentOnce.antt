-- ===== src/Handler/Approval/SentOnce.antt =====
-- How often the transaction of an approval is handed to the chain by handler/approval.go, over any
-- sequence of its handlers, as long as the updates of the approvals' table do not fail.
use teenet_wallet.Base.{
  ℕ, ◌+◌, ◌≤◌, ◌≡◌, refl, Bool, true, false, Option, none, some, inl, inr, ◌⊎◌, List, [], ◌∷◌, ◌++◌,
  ◌==◌, Bool-cases, nat_eq, sym, ◌∙◌, ap, subst, length, select, select-append, length-append,
  arith,
}
use teenet_wallet.Model.{ApprovalRequest}
use teenet_wallet.Handler.DailyLimit.{BigFloat}
use teenet_wallet.Handler.Approval.World.{Tables, World, Broadcast}
use teenet_wallet.Handler.Approval.Flow.{
  is_pending, approve_locked, reject_locked, get_approval, expire_seen, expire_tick,
}
use teenet_wallet.Handler.Approval.Handled.{untouched, settled, settled_sent, Settles}
use teenet_wallet.Handler.Approval.Locked.{
  Locked, idle, handled, approve_locked-Locked, reject_locked-Locked, get_approval-Locked,
}
use teenet_wallet.Handler.Approval.Lifecycle.{
  Action, approving, rejecting, viewing, expiring, ticking, act, run, Follows, RowFollows,
  act-RowFollows,
}

abbrev pub is_of : ℕ → Broadcast → Bool
is_of id b = b.approval_id == id

-- The transactions that were sent for an approval.
abbrev pub sent_count : ℕ → List Broadcast → ℕ
sent_count id l = length (select (is_of id) l)

abbrev one_if : Bool → ℕ
one_if true = 1
one_if false = 0

sent_count-append :
    (id : ℕ) (l : List Broadcast) (b : Broadcast)
    → sent_count id (l ++ b ∷ []) ≡ sent_count id l + sent_count id (b ∷ [])
sent_count-append id l b =
    ap length (select-append (is_of id) l (b ∷ []))
    ∙ length-append (select (is_of id) l) (select (is_of id) (b ∷ []))

-- A list that grows by one transaction.
sent_count-more :
    (id : ℕ) (l k : List Broadcast) (b : Broadcast) (hit : Bool)
    → k ≡ l ++ b ∷ []
    → (b.approval_id == id) ≡ hit
    → sent_count id k ≡ sent_count id l + one_if hit
sent_count-more id l k b true e h =
    ap (sent_count id) e ∙ sent_count-append id l b ∙ ap (λ x. sent_count id l + x) (rw h refl)
sent_count-more id l k b false e h =
    ap (sent_count id) e ∙ sent_count-append id l b ∙ ap (λ x. sent_count id l + x) (rw h refl)

Resolved : Option ApprovalRequest → Type 0
Resolved none = ⊥
Resolved (some a) = is_pending a.status ≡ false

Follows-Resolved : (a b : ApprovalRequest) → Follows a b → Resolved (some a) → Resolved (some b)
unfolding Resolved Follows
Follows-Resolved a b (inl e) p = subst (λ x. is_pending x.status ≡ false) e p
Follows-Resolved a b (inr (inl (w, n, e))) p = n
Follows-Resolved a b (inr (inr e)) p = ap (λ x. is_pending x.status) e

RowFollows-Resolved : (r s : Option ApprovalRequest) → RowFollows r s → Resolved r → Resolved s
unfolding RowFollows
RowFollows-Resolved none none q p = p
RowFollows-Resolved none (some b) q p = elim q [ ]
RowFollows-Resolved (some a) none q p = elim q [ ]
RowFollows-Resolved (some a) (some b) q p = Follows-Resolved a b q p

module _ (t : Tables) where
  -- No update of an approval reports an error.
  unfoldable pub AlwaysUpdates : Type 0
  AlwaysUpdates =
      (id : ℕ) (f : ApprovalRequest → ApprovalRequest) (s : t.approvals.Store)
      → (t.approvals.update id f s).1 ≡ true

  SentOnce : ℕ → World t → Type 0
  SentOnce id w =
      (sent_count id w.sent ≡ 0)
      ⊎ ((sent_count id w.sent ≡ 1) × Resolved (t.approvals.row id w.approvals))

module _ {t : Tables} where
  -- A step that sends nothing for this approval.
  same-SentOnce :
      (id : ℕ) (w w' : World t)
      → sent_count id w'.sent ≡ sent_count id w.sent
      → RowFollows (t.approvals.row id w.approvals) (t.approvals.row id w'.approvals)
      → SentOnce t id w
      → SentOnce t id w'
  unfolding SentOnce
  same-SentOnce id w w' e q (inl z) = inl (e ∙ z)
  same-SentOnce id w w' e q (inr (o, r)) = inr (
    e ∙ o,
    RowFollows-Resolved (t.approvals.row id w.approvals) (t.approvals.row id w'.approvals) q r,
  )

  not_yet_sent :
      (id : ℕ) (w : World t) (a : ApprovalRequest)
      → t.approvals.row id w.approvals ≡ some a
      → is_pending a.status ≡ true
      → SentOnce t id w
      → sent_count id w.sent ≡ 0
  unfolding SentOnce Resolved
  not_yet_sent id w a here waits (inl z) = z
  not_yet_sent id w a here waits (inr (o, r)) =
      let done : is_pending a.status ≡ false = subst Resolved here r in ground (arith, waits, done)

  after :
      (i id : ℕ) (w' w : World t) (f : ApprovalRequest → ApprovalRequest) (a : ApprovalRequest)
      → i ≡ id
      → (t.approvals.update i f w.approvals).1 ≡ true
      → t.approvals.row i w.approvals ≡ some a
      → (i == id) ≡ true
      → w'.approvals ≡ (t.approvals.update i f w.approvals).0
      → t.approvals.row id w'.approvals ≡ some (f a)
  after i id w' w f a at_id done here same e =
      let at_j : t.approvals.row id w.approvals ≡ some a =
        subst (λ x. t.approvals.row x w.approvals ≡ some a) at_id here in
      ap (t.approvals.row id) e
      ∙ t.approvals.update_row i f w.approvals id
      ∙ rw (done, same, at_j) refl

  sent-SentOnce :
      (id i : ℕ) (w w' : World t) (f : ApprovalRequest → ApprovalRequest) (b : Broadcast)
      (a : ApprovalRequest)
      → (t.approvals.update i f w.approvals).1 ≡ true
      → t.approvals.row i w.approvals ≡ some a
      → is_pending a.status ≡ true
      → Settles f
      → b.approval_id ≡ i
      → w'.approvals ≡ (t.approvals.update i f w.approvals).0
      → w'.sent ≡ w.sent ++ b ∷ []
      → RowFollows (t.approvals.row id w.approvals) (t.approvals.row id w'.approvals)
      → SentOnce t id w
      → SentOnce t id w'
  unfolding SentOnce Resolved
  sent-SentOnce id i w w' f b a done here waits ok mine e es q v = elim (Bool-cases (i == id)) [
    | inr other ↦
        let n =
          sent_count-more id w.sent w'.sent b false es
            (subst (λ x. (x == id) ≡ false) (sym mine) other) in
        same-SentOnce id w w' (omega (arith, n)) q v
    | inl same ↦
        let at_id : i ≡ id = (nat_eq.eqb_iff i id).0 same in
        let none_before =
          not_yet_sent id w a (subst (λ x. t.approvals.row x w.approvals ≡ some a) at_id here) waits
            v in
        let n =
          sent_count-more id w.sent w'.sent b true es
            (subst (λ x. (x == id) ≡ true) (sym mine) same) in
        inr (
          omega (arith, n, none_before),
          subst (λ r. Resolved r) (sym (after i id w' w f a at_id done here same e))
              (ok.not_pending a),
        )
  ]

  Locked-SentOnce :
      (id i : ℕ) (w w' : World t)
      → AlwaysUpdates t
      → Locked i w w'
      → RowFollows (t.approvals.row id w.approvals) (t.approvals.row id w'.approvals)
      → SentOnce t id w
      → SentOnce t id w'
  unfolding AlwaysUpdates
  Locked-SentOnce id i w w' up (idle _ e) q v = same-SentOnce id w w' (ap (sent_count id) e) q v
  Locked-SentOnce id i w w' up (handled a here waits (untouched _ e)) q v =
      same-SentOnce id w w' (ap (sent_count id) e) q v
  Locked-SentOnce id i w w' up (handled a here waits (settled f ok _ e)) q v =
      same-SentOnce id w w' (ap (sent_count id) e) q v
  Locked-SentOnce id i w w' up (handled a here waits (settled_sent f b ok mine e es)) q v =
      sent-SentOnce id i w w' f b a (up i f w.approvals) here waits ok mine e es q v

  act-SentOnce :
      {fl : BigFloat} (id : ℕ) (x : Action fl) (w : World t)
      → AlwaysUpdates t
      → SentOnce t id w
      → SentOnce t id (act x w)
  unfolding act expire_tick
  act-SentOnce id (approving o i user now) w up v =
      Locked-SentOnce id i w (approve_locked o i user now w).0 up
        (approve_locked-Locked o i user now w) (act-RowFollows (approving o i user now) w id) v
  act-SentOnce {fl} id (rejecting i now) w up v =
      Locked-SentOnce id i w (reject_locked i now w).0 up (reject_locked-Locked i now w)
        (act-RowFollows {fl = fl} (rejecting i now) w id) v
  act-SentOnce {fl} id (viewing i user now) w up v =
      Locked-SentOnce id i w (get_approval (some i) user now w).0 up
        (get_approval-Locked i user now w) (act-RowFollows {fl = fl} (viewing i user now) w id) v
  act-SentOnce {fl} id (expiring i) w up v =
      same-SentOnce id w (expire_seen i w) refl (act-RowFollows {fl = fl} (expiring i) w id) v
  act-SentOnce {fl} id (ticking now) w up v =
      same-SentOnce id w (expire_tick now w) refl (act-RowFollows {fl = fl} (ticking now) w id) v

  run-SentOnce :
      {fl : BigFloat} (id : ℕ) (xs : List (Action fl)) (w : World t)
      → AlwaysUpdates t
      → SentOnce t id w
      → SentOnce t id (run xs w)
  unfolding run
  run-SentOnce id [] w up v = v
  run-SentOnce id (x ∷ xs) w up v = run-SentOnce id xs (act x w) up (act-SentOnce id x w up v)

  at_most_once : (id : ℕ) (w : World t) → SentOnce t id w → sent_count id w.sent ≤ 1
  unfolding SentOnce
  at_most_once id w (inl z) = omega (arith, z)
  at_most_once id w (inr (o, r)) = omega (arith, o)

  -- If the updates of approvals do not fail, then over any sequence of approvals, rejections, views,
  -- late writes of views and expiry ticks, a transaction that was not sent before is sent at most once.
  pub run-sent_at_most_once :
      {fl : BigFloat} (id : ℕ) (xs : List (Action fl)) (w : World t)
      → AlwaysUpdates t
      → sent_count id w.sent ≡ 0
      → sent_count id (run xs w).sent ≤ 1
  unfolding SentOnce
  run-sent_at_most_once id xs w up z = at_most_once id (run xs w) (run-SentOnce id xs w up (inl z))
