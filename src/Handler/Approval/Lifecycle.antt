-- ===== src/Handler/Approval/Lifecycle.antt =====
-- The life of an approval over any sequence of the handlers of handler/approval.go. Approve and
-- Reject stand here by their parts under the lock, so other requests may come between a handler's
-- first checks and its lock.
use teenet_wallet.Base.{
  ℕ, ◌≡◌, refl, true, false, ◌&&◌, Option, none, some, inl, inr, ◌⊎◌, List, [], ◌∷◌, ◌==◌,
  Bool-cases, nat_eq, ltb, and_true, sym, ap, ◌∙◌, subst, if_ind, arith,
}
use teenet_wallet.Db.{map_row, is_write_error, set_where}
use teenet_wallet.Model.{ApprovalRequest, expired}
use teenet_wallet.Handler.DailyLimit.{BigFloat}
use teenet_wallet.Handler.Approval.World.{Tables, World, Outside, set_status}
use teenet_wallet.Handler.Approval.Flow.{
  is_pending, is_overdue, approve_locked, reject_locked, get_approval, expire_seen, expire_tick,
}
use teenet_wallet.Handler.Approval.Handled.{
  untouched, settled, settled_sent, Settles, request, set_status-Settles,
}
use teenet_wallet.Handler.Approval.Locked.{
  Locked, idle, handled, approve_locked-Locked, reject_locked-Locked, get_approval-Locked,
}

pub data Action (fl : BigFloat) : Type 1 where
  -- The approval, the user and the time, and what the outside answers meanwhile.
  approving : Outside fl → ℕ → ℕ → ℕ → Action fl
  rejecting : ℕ → ℕ → Action fl
  viewing : ℕ → ℕ → ℕ → Action fl
  -- The write of a GetApproval that read the approval some steps before.
  expiring : ℕ → Action fl
  ticking : ℕ → Action fl

module _ {fl : BigFloat} {t : Tables} where
  unfoldable pub act : Action fl → World t → World t
  act (approving o id user now) w = (approve_locked o id user now w).0
  act (rejecting id now) w = (reject_locked id now w).0
  act (viewing id user now) w = (get_approval (some id) user now w).0
  act (expiring id) w = expire_seen id w
  act (ticking now) w = expire_tick now w

  unfoldable pub run : List (Action fl) → World t → World t
  run [] w = w
  run (x ∷ xs) w = run xs (act x w)

-- From one row to a later one: the same, or the same request resolved, or only the status is changed, to
-- expired.
unfoldable pub Follows : ApprovalRequest → ApprovalRequest → Type 0
Follows a b =
    (a ≡ b)
    ⊎ ((is_pending a.status ≡ true) × (is_pending b.status ≡ false) × (request b ≡ request a))
    ⊎ (b ≡ set_status expired a)

unfoldable pub RowFollows : Option ApprovalRequest → Option ApprovalRequest → Type 0
RowFollows none none = Unit
RowFollows none (some b) = ⊥
RowFollows (some a) none = ⊥
RowFollows (some a) (some b) = Follows a b

refl-RowFollows : (r : Option ApprovalRequest) → RowFollows r r
unfolding RowFollows Follows
refl-RowFollows none = tt
refl-RowFollows (some a) = inl refl

Follows-trans : (a b c : ApprovalRequest) → Follows a b → Follows b c → Follows a c
unfolding Follows
Follows-trans a b c (inl e) q = subst (λ x. Follows x c) (sym e) q
Follows-trans a b c p (inl e) = subst (λ x. Follows a x) e p
Follows-trans a b c (inr (inl (wa, nb, e))) (inr (inl (wb, nc, f))) = inr (inl (wa, nc, f ∙ e))
Follows-trans a b c (inr (inl (wa, nb, e))) (inr (inr f)) =
    inr (inl (wa, ap (λ x. is_pending x.status) f, ap request f ∙ e))
Follows-trans a b c (inr (inr e)) (inr (inl (wb, nc, f))) =
    let done : is_pending b.status ≡ false = ap (λ x. is_pending x.status) e in
    ground (arith, wb, done)
Follows-trans a b c (inr (inr e)) (inr (inr f)) = inr (inr (f ∙ ap (set_status expired) e))

RowFollows-trans :
    (r s u : Option ApprovalRequest) → RowFollows r s → RowFollows s u → RowFollows r u
unfolding RowFollows
RowFollows-trans none none none p q = tt
RowFollows-trans none none (some c) p q = elim q [ ]
RowFollows-trans none (some b) u p q = elim p [ ]
RowFollows-trans (some a) none u p q = elim p [ ]
RowFollows-trans (some a) (some b) none p q = elim q [ ]
RowFollows-trans (some a) (some b) (some c) p q = Follows-trans a b c p q

map_row-RowFollows :
    (f : ApprovalRequest → ApprovalRequest) (a : ApprovalRequest)
    → Settles f
    → is_pending a.status ≡ true
    → Follows a (f a)
unfolding Follows
map_row-RowFollows f a ok waits = inr (inl (waits, ok.not_pending a, ok.same_request a))

late_row-RowFollows : (r : Option ApprovalRequest) → RowFollows r (map_row (set_status expired) r)
unfolding RowFollows Follows
late_row-RowFollows none = tt
late_row-RowFollows (some a) = inr (inr refl)

tick_row-RowFollows :
    (now j : ℕ) (r : Option ApprovalRequest)
    → RowFollows r (map_row (set_where (is_overdue now j) (set_status expired)) r)
unfolding RowFollows Follows
tick_row-RowFollows now j none = tt
tick_row-RowFollows now j (some a) = elim (Bool-cases (is_overdue now j a)) [
  | inr soon ↦ rw (soon, set_where) (inl refl)
  | inl late ↦
      rw (late, set_where)
        (map_row-RowFollows (set_status expired) a (set_status-Settles expired refl)
          (and_true (is_pending a.status) (ltb a.expires_at now) late).0)
]

module _ (t : Tables) where
  update-RowFollows :
      (id : ℕ) (f : ApprovalRequest → ApprovalRequest) (s : t.approvals.Store) (a : ApprovalRequest)
      (j : ℕ)
      → t.approvals.row id s ≡ some a
      → is_pending a.status ≡ true
      → Settles f
      → RowFollows (t.approvals.row j s) (t.approvals.row j (t.approvals.update id f s).0)
  unfolding RowFollows
  update-RowFollows id f s a j here waits ok =
      subst (λ r. RowFollows (t.approvals.row j s) r) (sym (t.approvals.update_row id f s j))
        (elim (Bool-cases ((t.approvals.update id f s).1 && (id == j))) [
          | inr miss ↦ rw miss (refl-RowFollows (t.approvals.row j s))
          | inl hit ↦
              let same : id ≡ j =
                (nat_eq.eqb_iff id j).0 (and_true (t.approvals.update id f s).1 (id == j) hit).1 in
              let at_j : t.approvals.row j s ≡ some a =
                subst (λ k. t.approvals.row k s ≡ some a) same here in
              rw (hit, at_j) (map_row-RowFollows f a ok waits)
        ])

  expire_seen-RowFollows :
      (id : ℕ) (w : World t) (j : ℕ)
      → RowFollows (t.approvals.row j w.approvals) (t.approvals.row j (expire_seen id w).approvals)
  expire_seen-RowFollows id w j =
      let s = w.approvals in
      subst (RowFollows (t.approvals.row j s))
        (sym (t.approvals.update_row id (set_status expired) s j))
        (if_ind (RowFollows (t.approvals.row j s))
          ((t.approvals.update id (set_status expired) s).1 && (id == j)) _ _
          (λ hit. late_row-RowFollows (t.approvals.row j s))
          (λ miss. refl-RowFollows (t.approvals.row j s)))

module _ {t : Tables} where
  Locked-RowFollows :
      (id : ℕ) (w w' : World t) (j : ℕ)
      → Locked id w w'
      → RowFollows (t.approvals.row j w.approvals) (t.approvals.row j w'.approvals)
  Locked-RowFollows id w w' j (idle e _) =
      subst (λ x. RowFollows (t.approvals.row j w.approvals) (t.approvals.row j x)) (sym e)
        (refl-RowFollows (t.approvals.row j w.approvals))
  Locked-RowFollows id w w' j (handled a here waits (untouched e _)) =
      subst (λ x. RowFollows (t.approvals.row j w.approvals) (t.approvals.row j x)) (sym e)
        (refl-RowFollows (t.approvals.row j w.approvals))
  Locked-RowFollows id w w' j (handled a here waits (settled f ok e _)) =
      subst (λ x. RowFollows (t.approvals.row j w.approvals) (t.approvals.row j x)) (sym e)
        (update-RowFollows t id f w.approvals a j here waits ok)
  Locked-RowFollows id w w' j (handled a here waits (settled_sent f b ok _ e _)) =
      subst (λ x. RowFollows (t.approvals.row j w.approvals) (t.approvals.row j x)) (sym e)
        (update-RowFollows t id f w.approvals a j here waits ok)

  tick-RowFollows :
      (now : ℕ) (w : World t) (j : ℕ)
      → RowFollows (t.approvals.row j w.approvals) (t.approvals.row j (expire_tick now w).approvals)
  unfolding expire_tick
  tick-RowFollows now w j =
      subst (λ r. RowFollows (t.approvals.row j w.approvals) r)
        (sym (t.approvals.update_where_row (is_overdue now) (set_status expired) w.approvals j))
        (elim (Bool-cases (
          is_write_error
            (t.approvals.update_where (is_overdue now) (set_status expired) w.approvals).1)) [
              | inl e ↦ rw e (refl-RowFollows (t.approvals.row j w.approvals))
              | inr e ↦ rw e (tick_row-RowFollows now j (t.approvals.row j w.approvals))
            ])

  pub act-RowFollows :
      {fl : BigFloat} (x : Action fl) (w : World t) (j : ℕ)
      → RowFollows (t.approvals.row j w.approvals) (t.approvals.row j (act x w).approvals)
  unfolding act
  act-RowFollows (approving o id user now) w j =
      Locked-RowFollows id w (approve_locked o id user now w).0 j
        (approve_locked-Locked o id user now w)
  act-RowFollows (rejecting id now) w j =
      Locked-RowFollows id w (reject_locked id now w).0 j (reject_locked-Locked id now w)
  act-RowFollows (viewing id user now) w j =
      Locked-RowFollows id w (get_approval (some id) user now w).0 j
        (get_approval-Locked id user now w)
  act-RowFollows (expiring id) w j = expire_seen-RowFollows t id w j
  act-RowFollows (ticking now) w j = tick-RowFollows now w j

  -- Over any sequence of approvals and rejections, each one step from the second read on, and of views,
  -- late writes of views between these steps and expiry ticks, with any
  -- failures of the tables and of the outside, every approval stays as it is or is resolved: its
  -- request is kept and its status leaves pending for good. A row that is not pending changes no more, but
  -- for its status, which a late write of a view sets to expired.
  pub run-RowFollows :
      {fl : BigFloat} (xs : List (Action fl)) (w : World t) (j : ℕ)
      → RowFollows (t.approvals.row j w.approvals) (t.approvals.row j (run xs w).approvals)
  unfolding run
  run-RowFollows [] w j = refl-RowFollows (t.approvals.row j w.approvals)
  run-RowFollows (x ∷ xs) w j =
      RowFollows-trans (t.approvals.row j w.approvals) (t.approvals.row j (act x w).approvals)
        (t.approvals.row j (run xs (act x w)).approvals) (act-RowFollows x w j)
        (run-RowFollows xs (act x w) j)
