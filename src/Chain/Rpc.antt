-- ===== src/Chain/Rpc.antt =====
-- Retries and the fallback of chain/rpc.go. The network answers each call by its number and its URL;
-- the calls made are recorded in order.
pub mod Plan
mod Examples
use teenet_wallet.Base.{
  ℕ, zero, suc, String, ◌||◌, Option, none, some, List, [], ◌∷◌, ◌++◌, if◌then◌else◌, ◌==◌,
  string_eq, length,
}

-- What a single JSON-RPC call returns: a body, an error of the application (rpcAppError), or an error
-- of the transport or of HTTP.
pub data RpcResult : Type 0 where
  body : String → RpcResult
  app_error transport_error : RpcResult

abbrev pub Network : Type 0
Network = ℕ → String → RpcResult

abbrev pub Fallbacks : Type 0
Fallbacks = String → Option String

-- SetRPCFallback ignores empty and identical URLs.
unfoldable pub set_rpc_fallback : String → String → Fallbacks → Fallbacks
set_rpc_fallback primary fallback m key =
    if (primary == "") || ((fallback == "") || (primary == fallback))
    then m key
    else if primary == key
    then some fallback
    else m key

module _ (net : Network) where
  -- The loop of retryJSONRPC with `n` attempts left.
  unfoldable pub retry_json_rpc : ℕ → String → List String → List String × RpcResult
  retry_json_rpc zero url calls = (calls, transport_error)
  retry_json_rpc (suc n) url calls = elim (net (length calls) url) [
    | body b ↦ (calls ++ url ∷ [], body b)
    | app_error ↦ (calls ++ url ∷ [], app_error)
    | transport_error ↦ retry_json_rpc n url (calls ++ url ∷ [])
  ]

  abbrev pub fall_back : Option String → List String × RpcResult → List String × RpcResult
  fall_back fb (calls, body b) = (calls, body b)
  fall_back fb (calls, app_error) = (calls, app_error)
  fall_back none (calls, transport_error) = (calls, transport_error)
  fall_back (some url) (calls, transport_error) = retry_json_rpc 3 url calls

  unfoldable pub json_rpc_with_retry : Fallbacks → String → List String × RpcResult
  json_rpc_with_retry fallbacks primary =
      fall_back (fallbacks primary) (retry_json_rpc 3 primary [])
