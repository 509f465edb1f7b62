-- ===== src/Handler/Approval/Authority.antt =====
-- Who can make Approve and Reject (handler/approval.go) act: the owner of a pending approval, with
-- a fresh passkey.
use teenet_wallet.Base.{
  ℕ, ◌≡◌, refl, true, false, Option, none, some, inl, inr, ◌⊎◌, ◌==◌, Bool-cases, nat_eq, ltb,
}
use teenet_wallet.Db.{Found, found, missing, failed, Table}
use teenet_wallet.Model.{ApprovalRequest, User, expired}
use teenet_wallet.Handler.DailyLimit.{BigFloat}
use teenet_wallet.Handler.Passkey.{
  PasskeyClient, PasskeyBody, accepted, verify_fresh_passkey, Check-cases,
}
use teenet_wallet.Handler.Approval.World.{Tables, World, Outside, update_approval, set_status}
use teenet_wallet.Handler.Approval.Flow.{
  is_pending, approve_read, approve_locked, approve, owned_by, load_user_approval, under_lock,
  if_accepted,
}

-- A handler has at most changed the table of approvals.
pub record HasNoEffects {t : Tables} (w w' : World t) : Type 0 where
  pub same_contracts : w'.contracts ≡ w.contracts
  pub same_addresses : w'.addresses ≡ w.addresses
  pub same_policies : w'.policies ≡ w.policies
  pub same_wallets : w'.wallets ≡ w.wallets
  pub same_audits : w'.audits ≡ w.audits
  pub same_signed : w'.signed ≡ w.signed
  pub same_sent : w'.sent ≡ w.sent
  pub same_events : w'.events ≡ w.events

only_approvals :
    {t : Tables} (w : World t) (s : t.approvals.Store) → HasNoEffects w (record w { approvals = s })
only_approvals w s = record {
  same_contracts = refl;
  same_addresses = refl;
  same_policies = refl;
  same_wallets = refl;
  same_audits = refl;
  same_signed = refl;
  same_sent = refl;
  same_events = refl;
}

no_effects : {t : Tables} (w : World t) → HasNoEffects w w
no_effects w = only_approvals w w.approvals

-- The approval that a request names: its row, of this user, and still pending.
pub record IsOwnPending {t : Tables} (w : World t) (id : Option ℕ) (user : ℕ) : Type 0 where
  pub key : ℕ
  pub row : ApprovalRequest
  pub named : id ≡ some key
  pub stored : t.approvals.row key w.approvals ≡ some row
  pub own : row.user_id ≡ user
  pub waiting : is_pending row.status ≡ true

module _ {fl : BigFloat} {t : Tables} (o : Outside fl) (user now : ℕ) where
  approve_loaded :
      (w : World t) (id : ℕ) (r : Found ApprovalRequest)
      → t.approvals.get id w.approvals ≡ r
      → ((p : IsOwnPending w (some id) user) × (ltb p.row.expires_at now ≡ false))
        ⊎ HasNoEffects w
            (under_lock (λ i. approve_locked o i user now) (some id) (owned_by user r) w).0
  unfolding approve_locked
  approve_loaded w id missing e = inr (no_effects w)
  approve_loaded w id failed e = inr (no_effects w)
  approve_loaded w id (found a) e = elim (Bool-cases (a.user_id == user)) [
    | inr other ↦ inr (rw (other, owned_by, under_lock) (no_effects w))
    | inl own ↦ elim (Bool-cases (is_pending a.status)) [
      | inr done ↦
          inr (rw (own, owned_by, under_lock, approve_locked, e, approve_read, done) (no_effects w))
      | inl waits ↦ elim (Bool-cases (ltb a.expires_at now)) [
        | inl late ↦ inr (
            rw (own, owned_by, under_lock, approve_locked, e, approve_read, waits, late)
              (only_approvals w (update_approval id (set_status expired) w).approvals))
        | inr soon ↦ inl (
          record {
            key = id;
            row = a;
            named = refl;
            stored = t.approvals.get_found id w.approvals a e;
            own = (nat_eq.eqb_iff a.user_id user).0 own;
            waiting = waits;
          },
          soon,
        )
      ]
    ]
  ]

  loaded_authority :
      (id : Option ℕ) (w : World t)
      → ((p : IsOwnPending w id user) × (ltb p.row.expires_at now ≡ false))
        ⊎ HasNoEffects w
            (under_lock (λ i. approve_locked o i user now) id (load_user_approval w user id) w).0
  unfolding load_user_approval
  loaded_authority none w = inr (no_effects w)
  loaded_authority (some i) w = approve_loaded w i (t.approvals.get i w.approvals) refl

module _ (sdk : PasskeyClient) (users : Table User) (us : users.Store) {t : Tables} {fl : BigFloat}
    (o : Outside fl) (body : Option PasskeyBody) (user now : ℕ) where
  -- Approve touches nothing but the table of approvals (no signature, no transaction, no whitelist,
  -- address book, policy, audit or event) unless the passkey check accepts the request, and the
  -- request names an approval of its user that is stored, pending and not past its expiry.
  pub approve-authority :
      (id : Option ℕ) (w : World t)
      → ((verify_fresh_passkey sdk users us user body ≡ accepted)
          × ((p : IsOwnPending w id user) × (ltb p.row.expires_at now ≡ false)))
        ⊎ HasNoEffects w (approve sdk users us o body id user now w).0
  unfolding approve
  approve-authority id w = elim (Check-cases (verify_fresh_passkey sdk users us user body)) [
    | inr (st, e) ↦ inr (rw (e, if_accepted) (no_effects w))
    | inl e ↦ elim (loaded_authority o user now id w) [
      | inl p ↦ inl (e, p)
      | inr q ↦ inr (rw (e, if_accepted) q)
    ]
  ]
