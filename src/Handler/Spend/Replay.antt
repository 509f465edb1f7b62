-- ===== src/Handler/Spend/Replay.antt =====
-- What a request that is sent again gets from the handlers of handler/wallet.go, by
-- handler/idempotency.go.
use teenet_wallet.Base.{
  ℕ, ◌≡◌, refl, ◌<◌, String, Bool, not, ◌||◌, Option, none, some, inl, inr, ◌⊎◌, Bool-cases,
  and_true, ltb→lt, ◌==◌, nat_eq, string_eq,
}
use teenet_wallet.Db.{Found, found, missing, failed, Table}
use teenet_wallet.Model.{ApprovalPolicy, IdempotencyRecord}
use teenet_wallet.Chain.EthFees.{BigInts}
use teenet_wallet.Handler.DailyLimit.{BigFloat}
use teenet_wallet.Handler.Approval.World.{Tables, World}
use teenet_wallet.Handler.Requests.{Caller}
use teenet_wallet.Handler.Idempotency.{RequestKey, answers, cached, check_idempotency}
use teenet_wallet.Handler.Broadcast.{Node}
use teenet_wallet.Handler.Spend.{Money, Proposal, SpendState, replayed, answer}

module _ (records : Table IdempotencyRecord) where
  -- A stored record of the same key, user and wallet that has not expired, with this response.
  abbrev pub IsStored : RequestKey → ℕ → records.Store → ℕ × String → Type 0
  IsStored k now s reply =
      (id : ℕ) × (r : IdempotencyRecord) × (records.row id s ≡ some r)
      × (r.key ≡ k.key)
      × (r.user_id ≡ k.user_id)
      × (r.wallet_id ≡ k.wallet_id)
      × (now < r.expires_at)
      × ((r.status_code, r.response) ≡ reply)

  cached-IsStored :
      (k : RequestKey) (now : ℕ) (s : records.Store) (f : Found (ℕ × IdempotencyRecord))
      (reply : ℕ × String)
      → records.find (answers k now) s ≡ f
      → cached f ≡ some reply
      → IsStored k now s reply
  cached-IsStored k now s missing reply e c = cc
  cached-IsStored k now s failed reply e c = cc
  cached-IsStored k now s (found (id, r)) reply e c =
      let (here, same) = records.find_found (answers k now) s id r e in
      let (key, rest) = and_true (r.key == k.key) _ same in
      let (user, rest') = and_true (r.user_id == k.user_id) _ rest in
      let (wallet, live) = and_true (r.wallet_id == k.wallet_id) _ rest' in
      (
        id,
        r,
        here,
        (string_eq.eqb_iff r.key k.key).0 key,
        (nat_eq.eqb_iff r.user_id k.user_id).0 user,
        (string_eq.eqb_iff r.wallet_id k.wallet_id).0 wallet,
        ltb→lt now r.expires_at live,
        cc,
      )

  check_idempotency-IsStored :
      (has_store : Bool) (k : RequestKey) (now : ℕ) (s : records.Store) (reply : ℕ × String)
      → check_idempotency records has_store k now s ≡ some reply
      → IsStored k now s reply
  unfolding check_idempotency
  check_idempotency-IsStored has_store k now s reply e =
      elim (Bool-cases (not has_store || (k.key == ""))) [
        | inl off ↦
            let nothing : ◌≡◌ {A = Option (ℕ × String)} none (some reply) = rw off at e in cc
        | inr on ↦ cached-IsStored k now s _ reply refl (rw on at e)
      ]

module _ {fl : BigFloat} (m : Money fl) (ints : BigInts) (node : Node) (hex : String → String)
    (expiry : ℕ) {t : Tables} {records : Table IdempotencyRecord} (has_store : Bool) (by : Caller)
    (key : RequestKey) where
  -- Where the lookup finds a response, the handler answers with it and does nothing else, and it is
  -- the response of a record of the same key, user and wallet that has not expired.
  pub answer-replayed :
      (prepare : World t → (Proposal m × Option ApprovalPolicy) ⊎ ℕ) (s : SpendState t records)
      (status : ℕ) (response : String)
      → check_idempotency records has_store key by.now s.saved ≡ some (status, response)
      → (answer m ints node hex expiry has_store by key prepare s ≡ (s, replayed status response))
        × IsStored records key by.now s.saved (status, response)
  unfolding answer
  answer-replayed prepare s status response e = (
    rw (answer, e) refl,
    check_idempotency-IsStored records has_store key by.now s.saved (status, response) e,
  )
