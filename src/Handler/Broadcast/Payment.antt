-- ===== src/Handler/Broadcast/Payment.antt =====
-- The payment that the retries of signAndBroadcast in handler/wallet.go repeat.
use teenet_wallet.Base.{
  ℕ, ◌≡◌, refl, ap, ◌∙◌, String, Option, none, some, inl, inr, Bool-cases, if◌then◌else◌, string_eq,
  All,
}
use teenet_wallet.Model.{Wallet}
use teenet_wallet.Chain.EthFees.{EthTxParams, BigInts, is_replacement_underpriced, is_nonce_too_low}
use teenet_wallet.Chain.EthFees.Laws.{SamePayment, bump_eth_gas-SamePayment}
use teenet_wallet.Handler.Broadcast.{
  Node, Attempt, not_signed, only_signed, sent, SignBroadcastResult, done, signing_failed,
  broadcast_failed, rbf_eligible, with_nonce, adjusted, both, encoded, next_payload, attempts,
  sign_and_broadcast,
}
use teenet_wallet.Handler.Broadcast.Turns.{Turn, attempts_ind}

-- A message that signs parameters of the same payment as `p`.
unfoldable pub Signs : Node → EthTxParams → String → String → Type 0
Signs node p m params =
    (q : EthTxParams) × (node.unmarshal_params params ≡ some q)
    × (node.eth_signing_hash q ≡ some m)
    × SamePayment p q

-- What a turn signed and sent is the payment of `p`.
abbrev pub Pays : Node → EthTxParams → Attempt → Type 0
Pays node p (not_signed m) = (params : String) × Signs node p m params
Pays node p (only_signed m sig) = (params : String) × Signs node p m params
Pays node p (sent m params sig d) = Signs node p m params

SamePayment-trans : (p q r : EthTxParams) → SamePayment p q → SamePayment q r → SamePayment p r
unfolding SamePayment
SamePayment-trans p q r (a, b, c, d, e, f) (a', b', c', d', e', f') =
    (a ∙ a', b ∙ b', c ∙ c', d ∙ d', e ∙ e', f ∙ f')

module _ (ints : BigInts) (node : Node) (wallet : Wallet) where
  both-some :
      (x y : Option String) (a b : String)
      → both ints node wallet x y ≡ some (a, b)
      → (x ≡ some a) × (y ≡ some b)
  both-some none y a b e = cc
  both-some (some x) none a b e = cc
  both-some (some x) (some y) a b e = (cc, cc)

  with_nonce-SamePayment :
      (p q : EthTxParams) (n : Option ℕ)
      → with_nonce ints node wallet p n ≡ some q
      → SamePayment p q
  unfolding SamePayment
  with_nonce-SamePayment p q none e = cc
  with_nonce-SamePayment p q (some n) e =
      let same : record p { nonce = n } ≡ q = cc in
      (
        ap (λ r. r.from) same,
        ap (λ r. r.to) same,
        ap (λ r. r.value) same,
        ap (λ r. r.call_data) same,
        ap (λ r. r.chain_id) same,
        ap (λ r. r.gas_limit) same,
      )

  adjusted-SamePayment :
      (k : ℕ) (err : String) (p q : EthTxParams)
      → adjusted ints node wallet k err (some p) ≡ some q
      → SamePayment p q
  adjusted-SamePayment k err p q e = elim (Bool-cases (is_replacement_underpriced ints err)) [
    | inl low ↦ bump_eth_gas-SamePayment ints p q (rw low at e)
    | inr high ↦ elim (Bool-cases (is_nonce_too_low ints err)) [
      | inl used ↦
          with_nonce-SamePayment p q (node.fetch_pending_nonce k wallet) (rw (high, used) at e)
      | inr other ↦ let stops : none ≡ some q = rw (high, other) at e in cc
    ]
  ]

  module _
      (reads : (r : EthTxParams) (s : String)
        → node.marshal_params r ≡ some s
        → node.unmarshal_params s ≡ some r) where
    encoded-Signs :
        (p q : EthTxParams) (m params : String)
        → SamePayment p q
        → encoded ints node wallet (some q) ≡ some (m, params)
        → Signs node p m params
    unfolding Signs
    encoded-Signs p q m params same e =
        let (hash, json) = both-some (node.eth_signing_hash q) (node.marshal_params q) m params e in
        (q, reads q params json, hash, same)

    encoded-adjusted-Signs :
        (p q : EthTxParams) (k : ℕ) (err m params : String) (o : Option EthTxParams)
        → SamePayment p q
        → adjusted ints node wallet k err (some q) ≡ o
        → encoded ints node wallet o ≡ some (m, params)
        → Signs node p m params
    encoded-adjusted-Signs p q k err m params none same a e = cc
    encoded-adjusted-Signs p q k err m params (some r) same a e =
        encoded-Signs p r m params (SamePayment-trans p q r same (adjusted-SamePayment k err q r a))
          e

    next_payload-Signs :
        (p : EthTxParams) (k : ℕ) (err m params m' params' : String)
        → Signs node p m params
        → next_payload ints node wallet k err params ≡ some (m', params')
        → Signs node p m' params'
    unfolding next_payload Signs
    next_payload-Signs p k err m params m' params' (q, read, hash, same) e =
        encoded-adjusted-Signs p q k err m' params' _ same refl (rw read at e)

    Turn-Pays :
        (p : EthTxParams) (k : ℕ) (m params : String) (a : Attempt) (r : SignBroadcastResult)
        → Turn ints node wallet k m params (a, r)
        → Signs node p m params
        → Pays node p a
    Turn-Pays p k m params a (done sig hash) (inl (e, _)) h = rw e (params, h)
    Turn-Pays p k m params a (done sig hash) (inr e) h = rw e h
    Turn-Pays p k m params a signing_failed e h = rw e (params, h)
    Turn-Pays p k m params a (broadcast_failed err) (sig, e) h = rw e h

    attempts-Pays :
        (p : EthTxParams) (n k : ℕ) (m params : String)
        → Signs node p m params
        → All (Pays node p) (attempts ints node wallet n k m params).0
    attempts-Pays p =
        attempts_ind ints node wallet
          (λ n m params t. Signs node p m params → All (Pays node p) t.0)
          (λ n k m params a r turn h. (Turn-Pays p k m params a r turn h, tt))
          (λ n k m params sig err m' params' rest e ih h.
            (h, ih (next_payload-Signs p k err m params m' params' h e)))

    -- Where parameters are read back from their JSON: if the message is the signing hash of the given
    -- parameters, every turn signs the signing hash of the parameters that it sends, and these name
    -- the same sender, recipient, value, call data, chain and gas limit. Only the nonce and the fees
    -- differ between the turns.
    pub sign_and_broadcast-Pays :
        (p : EthTxParams) (m params : String)
        → node.unmarshal_params params ≡ some p
        → node.eth_signing_hash p ≡ some m
        → All (Pays node p) (sign_and_broadcast ints node wallet m params).0
    unfolding sign_and_broadcast Signs SamePayment
    sign_and_broadcast-Pays p m params read hash =
        attempts-Pays p (if rbf_eligible ints node wallet params then 3 else 0) 0 m params
          (p, read, hash, (refl, refl, refl, refl, refl, refl))
