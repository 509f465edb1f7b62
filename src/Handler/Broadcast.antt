-- ===== src/Handler/Broadcast.antt =====
-- signAndBroadcast of handler/wallet.go: a transaction is signed by the TEE and sent, and on an EVM
-- chain signed and sent again with higher fees or a new nonce where the node asks for it.
mod Turns
pub mod Retries
pub mod Payment
pub mod Completion
mod Examples
use teenet_wallet.Base.{
  ℕ, zero, suc, String, Bool, false, not, ◌&&◌, ◌||◌, Option, none, some, List, [], ◌∷◌,
  if◌then◌else◌, ◌==◌, string_eq,
}
use teenet_wallet.Model.{Wallet}
use teenet_wallet.Chain.EthFees.{
  EthTxParams, BigInts, bump_eth_gas, is_replacement_underpriced, is_nonce_too_low,
}

-- What broadcastSigned returns: the hash, or the text of its error, which may be a timeout or another
-- answer that does not say whether the node took the transaction.
pub data Delivery : Type 0 where
  delivered rejected : String → Delivery

-- The TEE and the node, which answer every call of one request by its number, with the encoding of
-- the parameters, their signing hash and the registry of chains. `none` is an error.
pub record Node : Type 0 where
  -- The TEE signs a message with the key of this name.
  pub tee_sign : ℕ → String → String → Option String
  pub broadcast_signed : ℕ → Wallet → String → String → Delivery
  pub fetch_pending_nonce : ℕ → Wallet → Option ℕ
  pub unmarshal_params : String → Option EthTxParams
  pub marshal_params : EthTxParams → Option String
  pub eth_signing_hash : EthTxParams → Option String
  pub chain_family : String → Option String

-- One turn of the loop: the message, and with its signature the parameters that were sent and what
-- came back.
pub data Attempt : Type 0 where
  not_signed : (message : String) → Attempt
  only_signed : (message signature : String) → Attempt
  sent : (message params signature : String) → Delivery → Attempt

-- The signature with the hash, which is empty if nothing was to be sent; a plain error; or a
-- broadcastFailedError with its text.
pub data SignBroadcastResult : Type 0 where
  done : (signature tx_hash : String) → SignBroadcastResult
  signing_failed : SignBroadcastResult
  broadcast_failed : String → SignBroadcastResult

abbrev pub rbf_retries : ℕ
rbf_retries = 3

abbrev pub is_evm : Option String → Bool
is_evm none = false
is_evm (some family) = family == "evm"

module _ (ints : BigInts) (node : Node) (wallet : Wallet) where
  abbrev pub with_nonce : EthTxParams → Option ℕ → Option EthTxParams
  with_nonce p none = none
  with_nonce p (some n) = some (record p { nonce = n })

  -- The parameters for the next turn by the error of this one.
  abbrev pub adjusted : ℕ → String → Option EthTxParams → Option EthTxParams
  adjusted k err none = none
  adjusted k err (some p) =
      if is_replacement_underpriced ints err
      then bump_eth_gas ints p
      else if is_nonce_too_low ints err
      then with_nonce p (node.fetch_pending_nonce k wallet)
      else none

  abbrev pub both : Option String → Option String → Option (String × String)
  both none y = none
  both (some x) none = none
  both (some x) (some y) = some (x, y)

  abbrev pub encoded : Option EthTxParams → Option (String × String)
  encoded none = none
  encoded (some p) = both (node.eth_signing_hash p) (node.marshal_params p)

  -- The message and the parameters for the next turn, if there is one.
  pub next_payload : ℕ → String → String → Option (String × String)
  next_payload k err params = encoded (adjusted k err (node.unmarshal_params params))

  -- One turn: `none` for the result if the transaction was rejected.
  abbrev pub deliver : String → String → String → Delivery → Attempt × SignBroadcastResult
  deliver message params sig (delivered hash) =
      (sent message params sig (delivered hash), done sig hash)
  deliver message params sig (rejected err) =
      (sent message params sig (rejected err), broadcast_failed err)

  abbrev pub send_signed : ℕ → String → String → Option String → Attempt × SignBroadcastResult
  send_signed k message params none = (not_signed message, signing_failed)
  send_signed k message params (some sig) =
      if params == ""
      then (only_signed message sig, done sig "")
      else deliver message params sig (node.broadcast_signed k wallet params sig)

  unfoldable pub attempt : ℕ → String → String → Attempt × SignBroadcastResult
  attempt k message params = send_signed k message params (node.tee_sign k message wallet.key_name)

  abbrev pub again :
      Attempt
      → String
      → (String → String → List Attempt × SignBroadcastResult)
      → Option (String × String)
      → List Attempt × SignBroadcastResult
  again a err rest none = (a ∷ [], broadcast_failed err)
  again a err rest (some (message, params)) = (a ∷ (rest message params).0, (rest message params).1)

  -- The loop goes on after a rejection only.
  abbrev pub after_turn :
      ℕ
      → String
      → (String → String → List Attempt × SignBroadcastResult)
      → Attempt × SignBroadcastResult
      → List Attempt × SignBroadcastResult
  after_turn k params rest (a, done sig hash) = (a ∷ [], done sig hash)
  after_turn k params rest (a, signing_failed) = (a ∷ [], signing_failed)
  after_turn k params rest (a, broadcast_failed err) = again a err rest (next_payload k err params)

  abbrev pub last_turn : Attempt × SignBroadcastResult → List Attempt × SignBroadcastResult
  last_turn (a, r) = (a ∷ [], r)

  -- The loop from its turn `k` on, with this many turns left after it.
  unfoldable pub attempts : ℕ → ℕ → String → String → List Attempt × SignBroadcastResult
  unfolding attempt next_payload
  attempts zero k message params = last_turn (attempt k message params)
  attempts (suc n) k message params =
      after_turn k params (attempts n (suc k)) (attempt k message params)

  abbrev pub rbf_eligible : String → Bool
  rbf_eligible params = is_evm (node.chain_family wallet.chain) && not (params == "")

  unfoldable pub sign_and_broadcast : String → String → List Attempt × SignBroadcastResult
  unfolding attempts
  sign_and_broadcast message params =
      attempts (if rbf_eligible params then rbf_retries else 0) 0 message params
