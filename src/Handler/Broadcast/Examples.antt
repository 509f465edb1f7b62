-- ===== src/Handler/Broadcast/Examples.antt =====
-- Examples for signAndBroadcast: a node that takes a transaction on its second try.
use Prim.Native.Char.{Char}
use teenet_wallet.Base.{
  ◌≡◌, refl, ℕ, zero, suc, String, some, [], ◌∷◌, All, subst, ap, inl, inr, Bool-cases, ◌==◌,
  string_eq, false,
}
use teenet_wallet.Model.{Wallet}
use teenet_wallet.Chain.EthFees.{EthTxParams}
use teenet_wallet.Chain.EthFees.Tally.{tally_ints}
use teenet_wallet.Chain.EthFees.Encoding.{encode, decode, decode-encode}
use teenet_wallet.Handler.Broadcast.{
  Delivery, delivered, rejected, Node, sent, done, sign_and_broadcast, attempts, attempt,
  next_payload, encoded, adjusted,
}
use teenet_wallet.Handler.Broadcast.Retries.{sign_and_broadcast-IsAccounted, IsAccounted}
use teenet_wallet.Handler.Broadcast.Payment.{sign_and_broadcast-Pays, Pays}
use teenet_wallet.Handler.Broadcast.Completion.{sign_and_broadcast-IsDone, IsDone, IsReadable}

abbrev params_with : ℕ → EthTxParams
params_with nonce = record {
  nonce = nonce;
  max_fee_per_gas = "IIIIIIII";
  max_priority_fee_per_gas = "IIII";
  gas_limit = 3;
  chain_id = "I";
  from = "a";
  to = "b";
  value = "III";
  call_data = "";
  gas_price = "";
}

abbrev wallet : Wallet
wallet = record {
  id = "w";
  user_id = 7;
  chain = "sepolia";
  key_name = "k";
  public_key = "p";
  address = "a";
  label = "";
  status = "ready";
}

-- The first call finds the nonce used.
abbrev answer : ℕ → Delivery
answer zero = rejected "nonce too low"
answer (suc k) = delivered "hash"

-- The message of a transaction is the text of its parameters.
abbrev node : Node
node = record {
  tee_sign = λ k m key. some "sig";
  broadcast_signed = λ k w params sig. answer k;
  fetch_pending_nonce = λ k w. some 6;
  unmarshal_params = decode;
  marshal_params = λ p. some (encode p);
  eth_signing_hash = λ p. some (encode p);
  chain_family = λ chain. some "evm";
}

abbrev text : ℕ → String
text n = encode (params_with n)

-- The second turn has the nonce that the node asks for.
two_turns : sign_and_broadcast tally_ints node wallet (text 5) (text 5) ≡ (
  sent (text 5) (text 5) "sig" (rejected "nonce too low")
      ∷ sent (text 6) (text 6) "sig" (delivered "hash")
      ∷ [],
  done "sig" "hash",
)
unfolding sign_and_broadcast attempts attempt next_payload
two_turns = refl

sign_and_broadcast-IsAccounted_example :
    IsAccounted tally_ints 4 (sign_and_broadcast tally_ints node wallet (text 5) (text 5))
sign_and_broadcast-IsAccounted_example =
    sign_and_broadcast-IsAccounted tally_ints node wallet (text 5) (text 5)

reads :
    (r : EthTxParams) (s : String)
    → node.marshal_params r ≡ some s
    → node.unmarshal_params s ≡ some r
reads r s e = let same : encode r ≡ s = cc in subst (λ t. decode t ≡ some r) same (decode-encode r)

sign_and_broadcast-Pays_example :
    All (Pays node (params_with 5)) (sign_and_broadcast tally_ints node wallet (text 5) (text 5)).0
sign_and_broadcast-Pays_example =
    sign_and_broadcast-Pays tally_ints node wallet reads (params_with 5) (text 5) (text 5)
      (decode-encode (params_with 5)) refl

-- The error of the first call, with any parameters that can be read, leads to the nonce 6.
renewed :
    (p : EthTxParams) (params : String)
    → node.unmarshal_params params ≡ some p
    → next_payload tally_ints node wallet 0 "nonce too low" params
      ≡ some (encode (record p { nonce = 6 }), encode (record p { nonce = 6 }))
unfolding next_payload
renewed p params e =
    ap (λ o. encoded tally_ints node wallet (adjusted tally_ints node wallet 0 "nonce too low" o)) e

encode_nonempty : (p : EthTxParams) → (encode (record p { nonce = 6 }) == "") ≡ false
encode_nonempty p = elim (Bool-cases (encode (record p { nonce = 6 }) == "")) [
  | inl e ↦
      let empty : encode (record p { nonce = 6 }) ≡ "" = (string_eq.eqb_iff _ "").0 e in
      absurd (apart "c" _ empty)
  | inr e ↦ e
]
  where
    apart : (c : Char) (s : String) → String.◌∷◌ c s ≡ "" → ⊥
    apart c s e = cc

asks_again :
    (k : ℕ) (params sig err : String)
    → IsReadable node params
    → node.broadcast_signed k wallet params sig ≡ rejected err
    → (m' : String) × (params' : String) × (next_payload tally_ints node wallet k err params
        ≡ some (m', params'))
      × IsReadable node params'
asks_again zero params sig err (full, p, read) e =
    let same : "nonce too low" ≡ err = cc in
    let new : EthTxParams = record p { nonce = 6 } in
    (
      encode new,
      encode new,
      subst (λ x. next_payload tally_ints node wallet 0 x params ≡ some (encode new, encode new))
          same (renewed p params read),
      (encode_nonempty p, new, decode-encode new),
    )
asks_again (suc k) params sig err readable e = cc

sign_and_broadcast-IsDone_example :
    IsDone (sign_and_broadcast tally_ints node wallet (text 5) (text 5)).1
sign_and_broadcast-IsDone_example =
    sign_and_broadcast-IsDone tally_ints node wallet (λ k m. ("sig", refl)) asks_again
      (λ params sig. ("hash", refl)) (text 5) (text 5) refl
      (refl, params_with 5, decode-encode (params_with 5))
