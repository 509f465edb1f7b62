-- ===== src/Handler/Broadcast/Completion.antt =====
-- When signAndBroadcast of handler/wallet.go completes.
use teenet_wallet.Base.{
  ℕ, zero, suc, ◌+◌, ◌≡◌, refl, sym, subst, String, true, false, some, inl, inr, ◌⊎◌, ◌==◌,
  string_eq, arith,
}
use teenet_wallet.Model.{Wallet}
use teenet_wallet.Chain.EthFees.{EthTxParams, BigInts}
use teenet_wallet.Handler.Broadcast.{
  Delivery, delivered, rejected, Node, SignBroadcastResult, done, rbf_eligible, next_payload,
  attempt, attempts, sign_and_broadcast,
}

-- Parameters that can be sent and read.
abbrev pub IsReadable : Node → String → Type 0
IsReadable node params =
    ((params == "") ≡ false) × (p : EthTxParams) × (node.unmarshal_params params ≡ some p)

abbrev pub IsDone : SignBroadcastResult → Type 0
IsDone r = (sig : String) × (hash : String) × (r ≡ done sig hash)

Delivery-cases :
    (d : Delivery) → ((h : String) × (d ≡ delivered h)) ⊎ ((err : String) × (d ≡ rejected err))
Delivery-cases (delivered h) = inl (h, refl)
Delivery-cases (rejected err) = inr (err, refl)

module _ (ints : BigInts) (node : Node) (wallet : Wallet)
    (signs : (k : ℕ) (m : String) → (sig : String) × (node.tee_sign k m wallet.key_name ≡ some sig))
    (asks_again : (k : ℕ) (params sig err : String)
      → IsReadable node params
      → node.broadcast_signed k wallet params sig ≡ rejected err
      → (m' : String) × (params' : String) × (next_payload ints node wallet k err params
          ≡ some (m', params'))
        × IsReadable node params')
    (takes : (params sig : String)
      → (hash : String) × (node.broadcast_signed 3 wallet params sig ≡ delivered hash)) where
  attempts-IsDone :
      (n k : ℕ) (m params : String)
      → k + n ≡ 3
      → IsReadable node params
      → IsDone (attempts ints node wallet n k m params).1
  unfolding attempts
  attempts-IsDone zero k m params at_three full =
      let (sig, s) = signs k m in
      let (hash, d) = takes params sig in
      let third : k ≡ 3 = omega arith in
      let taken : node.broadcast_signed k wallet params sig ≡ delivered hash =
        subst (λ j. node.broadcast_signed j wallet params sig ≡ delivered hash) (sym third) d in
      (sig, hash, rw (attempts, attempt, s, full.0, taken) refl)
  attempts-IsDone (suc n) k m params before full =
      let (sig, s) = signs k m in
      elim (Delivery-cases (node.broadcast_signed k wallet params sig)) [
        | inl (hash, d) ↦ (sig, hash, rw (attempts, attempt, s, full.0, d) refl)
        | inr (err, d) ↦
            let (m', params', e, full') = asks_again k params sig err full d in
            rw (attempts, attempt, s, full.0, d, e)
              (attempts-IsDone n (suc k) m' params' (omega arith) full')
      ]

  -- Where the TEE signs whatever it is asked to, every rejection of parameters that can be read leads
  -- to new ones that can be read, and the node takes the fourth transaction at the latest, signAndBroadcast completes on an
  -- EVM chain.
  pub sign_and_broadcast-IsDone :
      (m params : String)
      → rbf_eligible ints node wallet params ≡ true
      → IsReadable node params
      → IsDone (sign_and_broadcast ints node wallet m params).1
  unfolding sign_and_broadcast
  sign_and_broadcast-IsDone m params eligible full =
      rw (sign_and_broadcast, eligible) (attempts-IsDone 3 0 m params refl full)
