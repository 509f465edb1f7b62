-- ===== src/Handler/Broadcast/Turns.antt =====
-- The turns of the loop in signAndBroadcast of handler/wallet.go, and induction over them.
use teenet_wallet.Base.{
  ℕ, zero, suc, ◌≡◌, refl, sym, subst, String, Option, none, some, List, [], ◌∷◌, inl, inr, ◌⊎◌,
  Bool-cases, Option-cases, ◌==◌, string_eq,
}
use teenet_wallet.Model.{Wallet}
use teenet_wallet.Chain.EthFees.{BigInts}
use teenet_wallet.Handler.Broadcast.{
  Delivery, delivered, rejected, Node, Attempt, not_signed, only_signed, sent, SignBroadcastResult,
  done, signing_failed, broadcast_failed, next_payload, attempt, attempts, deliver, after_turn,
  last_turn, again as resend,
}

module _ (ints : BigInts) (node : Node) (wallet : Wallet) where
  -- The four ways a turn can go.
  abbrev pub Turn : ℕ → String → String → Attempt × SignBroadcastResult → Type 0
  Turn k m params (a, done sig hash) =
      (a ≡ only_signed m sig) × (hash ≡ "") ⊎ (a ≡ sent m params sig (delivered hash))
  Turn k m params (a, signing_failed) = a ≡ not_signed m
  Turn k m params (a, broadcast_failed err) =
      (sig : String) × (a ≡ sent m params sig (rejected err))

  deliver-Turn :
      (k : ℕ) (m params sig : String) (d : Delivery)
      → Turn k m params (deliver ints node wallet m params sig d)
  deliver-Turn k m params sig (delivered hash) = inr refl
  deliver-Turn k m params sig (rejected err) = (sig, refl)

  attempt-Turn : (k : ℕ) (m params : String) → Turn k m params (attempt ints node wallet k m params)
  unfolding attempt
  attempt-Turn k m params = elim (Option-cases (node.tee_sign k m wallet.key_name)) [
    | inl e ↦ rw (attempt, e) refl
    | inr (sig, e) ↦ elim (Bool-cases (params == "")) [
      | inl empty ↦ rw (attempt, e, empty) (inl (refl, refl))
      | inr full ↦
          rw (attempt, e, full)
            (deliver-Turn k m params sig (node.broadcast_signed k wallet params sig))
    ]
  ]

  -- Induction over the turns of the loop.
  module _ (P : ℕ → String → String → List Attempt × SignBroadcastResult → Type 0)
      (last : (n k : ℕ) (m params : String) (a : Attempt) (r : SignBroadcastResult)
        → Turn k m params (a, r)
        → P n m params (a ∷ [], r))
      (again : (n k : ℕ) (m params sig err m' params' : String)
          (rest : List Attempt × SignBroadcastResult)
        → next_payload ints node wallet k err params ≡ some (m', params')
        → P n m' params' rest
        → P (suc n) m params (sent m params sig (rejected err) ∷ rest.0, rest.1)) where
    last_turn_ind :
        (n k : ℕ) (m params : String) (t : Attempt × SignBroadcastResult)
        → Turn k m params t
        → P n m params (last_turn ints node wallet t)
    last_turn_ind n k m params (a, r) turn = last n k m params a r turn

    again_ind :
        (n k : ℕ) (m params sig err : String)
        (rest : String → String → List Attempt × SignBroadcastResult) (o : Option (String × String))
        → next_payload ints node wallet k err params ≡ o
        → ((m' params' : String) → P n m' params' (rest m' params'))
        → P (suc n) m params (resend ints node wallet (sent m params sig (rejected err)) err rest o)
    again_ind n k m params sig err rest none e ih =
        last (suc n) k m params (sent m params sig (rejected err)) (broadcast_failed err)
          (sig, refl)
    again_ind n k m params sig err rest (some (m', params')) e ih =
        again n k m params sig err m' params' (rest m' params') e (ih m' params')

    after_turn_ind :
        (n k : ℕ) (m params : String) (rest : String → String → List Attempt × SignBroadcastResult)
        (t : Attempt × SignBroadcastResult)
        → Turn k m params t
        → ((m' params' : String) → P n m' params' (rest m' params'))
        → P (suc n) m params (after_turn ints node wallet k params rest t)
    after_turn_ind n k m params rest (a, done sig hash) turn ih =
        last (suc n) k m params a (done sig hash) turn
    after_turn_ind n k m params rest (a, signing_failed) turn ih =
        last (suc n) k m params a signing_failed turn
    after_turn_ind n k m params rest (a, broadcast_failed err) (sig, e) ih =
        subst
          (λ b.
            P (suc n) m params
              (after_turn ints node wallet k params rest (b, broadcast_failed err)))
          (sym e)
          (again_ind n k m params sig err rest (next_payload ints node wallet k err params) refl ih)

    pub attempts_ind :
        (n k : ℕ) (m params : String) → P n m params (attempts ints node wallet n k m params)
    unfolding attempts
    attempts_ind zero k m params =
        last_turn_ind zero k m params (attempt ints node wallet k m params)
          (attempt-Turn k m params)
    attempts_ind (suc n) k m params =
        after_turn_ind n k m params (attempts ints node wallet n (suc k))
          (attempt ints node wallet k m params) (attempt-Turn k m params)
          λ m' params'. attempts_ind n (suc k) m' params'
