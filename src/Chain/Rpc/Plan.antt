-- ===== src/Chain/Rpc/Plan.antt =====
-- The calls of chain/rpc.go, against a plan of calls that stops at the first answer.
use teenet_wallet.Base.{
  ℕ, zero, suc, ◌+◌, ◌≤◌, ◌≡◌, refl, ap, ◌∙◌, sym, subst, ◌⊎◌, inl, inr, String, Option, none, some,
  List, [], ◌∷◌, ◌++◌, length, replicate, arith, length-append,
}
use teenet_wallet.Chain.Rpc.{
  RpcResult, body, app_error, transport_error, Network, Fallbacks, retry_json_rpc, fall_back,
  json_rpc_with_retry,
}

RpcResult-cases :
    (r : RpcResult) → ((b : String) × (r ≡ body b)) ⊎ (r ≡ app_error) ⊎ (r ≡ transport_error)
RpcResult-cases (body b) = inl (b, refl)
RpcResult-cases app_error = inr (inl refl)
RpcResult-cases transport_error = inr (inr refl)

-- Three calls to the primary URL, then three to its fallback if it has one.
abbrev pub plan : Fallbacks → String → List String
plan fallbacks primary =
    replicate 3 primary ++ elim (fallbacks primary) [ none ↦ [] | some url ↦ replicate 3 url ]

module _ (net : Network) where
  -- The planned calls are made in order, up to the first that does not fail in transport.
  unfoldable pub follow : List String → List String → List String × RpcResult
  follow [] calls = (calls, transport_error)
  follow (url ∷ urls) calls = elim (net (length calls) url) [
    | body b ↦ (calls ++ url ∷ [], body b)
    | app_error ↦ (calls ++ url ∷ [], app_error)
    | transport_error ↦ follow urls (calls ++ url ∷ [])
  ]

  retry-follow :
      (n : ℕ) (url : String) (calls : List String)
      → retry_json_rpc net n url calls ≡ follow (replicate n url) calls
  unfolding retry_json_rpc follow
  retry-follow zero url calls = refl
  retry-follow (suc n) url calls = elim (RpcResult-cases (net (length calls) url)) [
    | inl (b, e) ↦ rw (e, retry_json_rpc, follow) refl
    | inr (inl e) ↦ rw (e, retry_json_rpc, follow) refl
    | inr (inr e) ↦ rw (e, retry_json_rpc, follow) (retry-follow n url (calls ++ url ∷ []))
  ]

  abbrev go_on : List String → List String × RpcResult → List String × RpcResult
  go_on urls (calls, body b) = (calls, body b)
  go_on urls (calls, app_error) = (calls, app_error)
  go_on urls (calls, transport_error) = follow urls calls

  follow-append : (xs ys calls : List String) → follow (xs ++ ys) calls ≡ go_on ys (follow xs calls)
  unfolding follow
  follow-append [] ys calls = refl
  follow-append (x ∷ xs) ys calls = elim (RpcResult-cases (net (length calls) x)) [
    | inl (b, e) ↦ rw (e, follow) refl
    | inr (inl e) ↦ rw (e, follow) refl
    | inr (inr e) ↦ rw (e, follow) (follow-append xs ys (calls ++ x ∷ []))
  ]

  -- A run makes a call for each URL of the plan at most.
  follow-length :
      (urls calls : List String) → length (follow urls calls).0 ≤ length calls + length urls
  unfolding follow
  follow-length [] calls = ground arith
  follow-length (u ∷ us) calls =
      let one = length-append calls (u ∷ []) in
      let rest = follow-length us (calls ++ u ∷ []) in
      elim (RpcResult-cases (net (length calls) u)) [
        | inl (b, e) ↦ rw (e, follow) (omega (arith, one))
        | inr (inl e) ↦ rw (e, follow) (omega (arith, one))
        | inr (inr e) ↦ rw (e, follow) (omega (arith, one, rest))
      ]

  fall_back-go_on :
      (fb : Option String) (r : List String × RpcResult)
      → fall_back net fb r ≡ go_on (elim fb [ none ↦ [] | some url ↦ replicate 3 url ]) r
  unfolding follow
  fall_back-go_on fb (calls, body b) = refl
  fall_back-go_on fb (calls, app_error) = refl
  fall_back-go_on none (calls, transport_error) = refl
  fall_back-go_on (some url) (calls, transport_error) = retry-follow 3 url calls

  plan-length : (fallbacks : Fallbacks) (primary : String) → length (plan fallbacks primary) ≤ 6
  plan-length fallbacks primary = ground arith

  -- A call with retries makes the calls of its plan in order, stops at the first that does not fail
  -- in transport, and returns what that call returned, or the transport error; it makes at most six.
  pub json_rpc_with_retry-follow :
      (fallbacks : Fallbacks) (primary : String)
      → (json_rpc_with_retry net fallbacks primary ≡ follow (plan fallbacks primary) [])
        × (length (json_rpc_with_retry net fallbacks primary).0 ≤ 6)
  unfolding json_rpc_with_retry
  json_rpc_with_retry-follow fallbacks primary =
      let second : List String = elim (fallbacks primary) [
        | none ↦ []
        | some url ↦ replicate 3 url
      ] in
      let e =
        fall_back-go_on (fallbacks primary) (retry_json_rpc net 3 primary [])
        ∙ ap (go_on second) (retry-follow 3 primary [])
        ∙ sym (follow-append (replicate 3 primary) second []) in
      let n = follow-length (plan fallbacks primary) [] in
      let m = plan-length fallbacks primary in
      (e, subst (λ r. length r.0 ≤ 6) (sym e) (omega (arith, n, m)))
