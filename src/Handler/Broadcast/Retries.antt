-- ===== src/Handler/Broadcast/Retries.antt =====
-- What the retries of signAndBroadcast in handler/wallet.go can send, and how its result accounts for
-- what was sent.
use teenet_wallet.Base.{
  Bool, true, false, ◌||◌, Option, none, some, ap, sym, ◌∙◌, ℕ, suc, ◌≤◌, ◌≡◌, refl, String, List,
  [], ◌∷◌, inl, inr, ◌⊎◌, Bool-cases, if◌then◌else◌, string_eq, length, arith,
}
use teenet_wallet.Model.{Wallet}
use teenet_wallet.Chain.EthFees.{EthTxParams, BigInts, is_replacement_underpriced, is_nonce_too_low}
use teenet_wallet.Handler.Broadcast.{
  delivered, rejected, Node, Attempt, not_signed, only_signed, sent, SignBroadcastResult, done,
  signing_failed, broadcast_failed, adjusted, encoded, next_payload, rbf_eligible, attempts,
  sign_and_broadcast,
}
use teenet_wallet.Handler.Broadcast.Turns.{Turn, attempts_ind}

-- The last turn and the result that it gives: the hash that the node returned, or none if nothing was to
-- be sent; no signature; or the error that came back.
abbrev pub EndsAs : Attempt → SignBroadcastResult → Type 0
EndsAs a (done sig hash) =
    (m : String) × (params : String) × ((a ≡ sent m params sig (delivered hash))
      ⊎ ((a ≡ only_signed m sig) × (hash ≡ "")))
EndsAs a signing_failed = (m : String) × (a ≡ not_signed m)
EndsAs a (broadcast_failed err) =
    (m : String) × (params : String) × (sig : String) × (a ≡ sent m params sig (rejected err))

-- An error for which the transaction is signed again.
abbrev pub AsksAgain : BigInts → String → Type 0
AsksAgain ints err =
    (ints.contains (ints.to_lower err) "replacement transaction underpriced" ≡ true)
    ⊎ (ints.contains (ints.to_lower err) "replacement underpriced" ≡ true)
    ⊎ (ints.contains (ints.to_lower err) "transaction underpriced" ≡ true)
    ⊎ (ints.contains (ints.to_lower err) "nonce too low" ≡ true)
    ⊎ (ints.contains (ints.to_lower err) "already known" ≡ true)

-- The result comes from the last turn; every other one sent a transaction and was answered with an error
-- that asks for another.
unfoldable pub Accounts : BigInts → List Attempt → SignBroadcastResult → Type 0
Accounts ints [] r = ⊥
Accounts ints (a ∷ []) r = EndsAs a r
Accounts ints (a ∷ (b ∷ rest)) r =
    ((m : String) × (params : String) × (sig : String) × (err : String) × (a
        ≡ sent m params sig (rejected err))
      × AsksAgain ints err)
    × Accounts ints (b ∷ rest) r

-- No more turns than the loop has, and a result that accounts for them.
abbrev pub IsAccounted : BigInts → ℕ → List Attempt × SignBroadcastResult → Type 0
IsAccounted ints n t = (1 ≤ length t.0) × (length t.0 ≤ n) × Accounts ints t.0 t.1

or_split : (a b : Bool) → (a || b) ≡ true → (a ≡ true) ⊎ (b ≡ true)
or_split true b h = inl refl
or_split false b h = inr h

or_false : (a b : Bool) → (a || b) ≡ false → (a ≡ false) × (b ≡ false)
or_false true b h = cc
or_false false b h = (refl, h)

module _ (ints : BigInts) (node : Node) (wallet : Wallet) where
  asked-AsksAgain :
      (err : String)
      → (is_replacement_underpriced ints err || is_nonce_too_low ints err) ≡ true
      → AsksAgain ints err
  asked-AsksAgain err h = elim (or_split (is_replacement_underpriced ints err) _ h) [
    | inl under ↦
        elim (or_split (ints.contains (ints.to_lower err) "replacement transaction underpriced") _
          under) [
            | inl x ↦ inl x
            | inr more ↦
                elim (or_split (ints.contains (ints.to_lower err) "replacement underpriced") _
                  more) [ inl x ↦ inr (inl x) | inr x ↦ inr (inr (inl x)) ]
          ]
    | inr low ↦ elim (or_split (ints.contains (ints.to_lower err) "nonce too low") _ low) [
      | inl x ↦ inr (inr (inr (inl x)))
      | inr x ↦ inr (inr (inr (inr x)))
    ]
  ]

  not_asked :
      (k : ℕ) (err : String) (o : Option EthTxParams)
      → is_replacement_underpriced ints err ≡ false
      → is_nonce_too_low ints err ≡ false
      → adjusted ints node wallet k err o ≡ none
  not_asked k err none u l = refl
  not_asked k err (some p) u l = rw (u, l) refl

  next_payload-AsksAgain :
      (k : ℕ) (err params : String) (next : String × String)
      → next_payload ints node wallet k err params ≡ some next
      → AsksAgain ints err
  unfolding next_payload
  next_payload-AsksAgain k err params next e =
      elim (Bool-cases (is_replacement_underpriced ints err || is_nonce_too_low ints err)) [
        | inl asks ↦ asked-AsksAgain err asks
        | inr silent ↦
            let (u, l) =
              or_false (is_replacement_underpriced ints err) (is_nonce_too_low ints err) silent in
            cc (
              ap (encoded ints node wallet)
                (sym (not_asked k err (node.unmarshal_params params) u l))
              ∙ e)
      ]

  Turn-EndsAs :
      (k : ℕ) (m params : String) (a : Attempt) (r : SignBroadcastResult)
      → Turn ints node wallet k m params (a, r)
      → EndsAs a r
  Turn-EndsAs k m params a (done sig hash) (inl (e, empty)) = (m, params, inr (e, empty))
  Turn-EndsAs k m params a (done sig hash) (inr e) = (m, params, inl e)
  Turn-EndsAs k m params a signing_failed e = (m, e)
  Turn-EndsAs k m params a (broadcast_failed err) (sig, e) = (m, params, sig, e)

  more-Accounts :
      (m params sig err : String) (rest : List Attempt) (r : SignBroadcastResult)
      → AsksAgain ints err
      → Accounts ints rest r
      → Accounts ints (sent m params sig (rejected err) ∷ rest) r
  unfolding Accounts
  more-Accounts m params sig err [] r asks h = elim h [ ]
  more-Accounts m params sig err (b ∷ rest) r asks h = ((m, params, sig, err, refl, asks), h)

  attempts-IsAccounted :
      (n k : ℕ) (m params : String)
      → IsAccounted ints (suc n) (attempts ints node wallet n k m params)
  unfolding Accounts
  attempts-IsAccounted =
      attempts_ind ints node wallet (λ n m params t. IsAccounted ints (suc n) t)
        (λ n k m params a r turn. (omega arith, omega arith, Turn-EndsAs k m params a r turn))
        (λ n k m params sig err m' params' rest e h. (
          omega arith,
          omega (arith, h.1),
          more-Accounts m params sig err rest.0 rest.1
              (next_payload-AsksAgain k err params (m', params') e) h.2,
        ))

  -- signAndBroadcast ends after one to four turns, and after one if the chain is not an EVM chain or there
  -- are no parameters to send. Its result is that of the last turn: a hash that the node returned for the
  -- last transaction sent, no hash if there was nothing to send, or the error of that turn. Every earlier
  -- turn sent a transaction that the node answered with an error which says underpriced, nonce too low or already known.
  -- An error does not say that the node dropped the transaction.
  pub sign_and_broadcast-IsAccounted :
      (m params : String)
      → IsAccounted ints
          (if rbf_eligible ints node wallet params then 4 else 1)
          (sign_and_broadcast ints node wallet m params)
  unfolding sign_and_broadcast
  sign_and_broadcast-IsAccounted m params =
      elim (Bool-cases (rbf_eligible ints node wallet params)) [
        | inl yes_rbf ↦ rw (sign_and_broadcast, yes_rbf) (attempts-IsAccounted 3 0 m params)
        | inr no_rbf ↦ rw (sign_and_broadcast, no_rbf) (attempts-IsAccounted 0 0 m params)
      ]
