-- ===== src/Chain/Rpc/Examples.antt =====
-- Examples for chain/rpc.go: a primary URL that fails in transport, and a fallback that answers.
use teenet_wallet.Base.{
  ◌≤◌, ◌≡◌, refl, none, some, [], ◌∷◌, if◌then◌else◌, ◌==◌, string_eq, length, ltb,
}
use teenet_wallet.Chain.Rpc.{
  body, transport_error, Network, Fallbacks, set_rpc_fallback, retry_json_rpc, json_rpc_with_retry,
}
use teenet_wallet.Chain.Rpc.Plan.{plan, follow, json_rpc_with_retry-follow}

abbrev network : Network
network n url =
    if url == "b" then (if ltb n 4 then transport_error else body "ok") else transport_error

abbrev fallbacks : Fallbacks
fallbacks = λ url. if url == "a" then some "b" else none

set-fallbacks : set_rpc_fallback "a" "b" (λ url. none) "a" ≡ fallbacks "a"
unfolding set_rpc_fallback
set-fallbacks = refl

-- Three calls to the primary URL, and two to its fallback.
retry-network :
    json_rpc_with_retry network fallbacks "a" ≡ ("a" ∷ "a" ∷ "a" ∷ "b" ∷ "b" ∷ [], body "ok")
unfolding json_rpc_with_retry retry_json_rpc
retry-network = refl

json_rpc_with_retry-follow_example :
    (json_rpc_with_retry network fallbacks "a" ≡ follow network (plan fallbacks "a") [])
    × (length (json_rpc_with_retry network fallbacks "a").0 ≤ 6)
json_rpc_with_retry-follow_example = json_rpc_with_retry-follow network fallbacks "a"
