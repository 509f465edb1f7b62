-- ===== src/Handler/RateLimit/Examples.antt =====
-- Examples for handler/ratelimit.go: two requests in ten seconds.
use teenet_wallet.Base.{String, ℕ, ◌≤◌, ◌≡◌, refl, not, none, List, [], ◌∷◌, arith, ltb, string_eq}
use teenet_wallet.Handler.RateLimit.{
  new_rate_limiter, allow, cleanup, IpRateLimiter, new_ip_rate_limiter, exceeded, ip_cleanup, next,
  abort, ip_rate_limit_middleware, user_rate_limit_middleware, api_key_rate_limit_middleware,
}
use teenet_wallet.Handler.RateLimit.Window.{
  Event, request, tick, times, run, step, IsOrdered, in_window,
}
use teenet_wallet.Handler.RateLimit.Window.Bound.{run-within_limit, allow-run_exact}
use teenet_wallet.Handler.RateLimit.Refinement.{view, IsEvicted, exceeded-allow, ip_cleanup-cleanup}

abbrev events : List (ℕ × Event)
events =
    (1, request "a")
    ∷ (2, request "b")
    ∷ (3, request "a")
    ∷ (4, request "a")
    ∷ (11, tick)
    ∷ (12, request "a")
    ∷ []

events-IsOrdered : IsOrdered 0 events
events-IsOrdered = ground arith

-- The request at 4 is refused, the one at 12 is not.
run_events : times "a" (run (new_rate_limiter 2 10, []) events).1 ≡ 1 ∷ 3 ∷ 12 ∷ []
unfolding run step new_rate_limiter allow cleanup
run_events = refl

run-within_limit_example :
    in_window 10 12 (times "a" (run (new_rate_limiter 2 10, []) events).1) ≤ 2
run-within_limit_example = run-within_limit 2 10 events "a" 12 events-IsOrdered

allow-run_exact_example :
    (allow (run (new_rate_limiter 2 10, []) events).0 "a" 12).1
    ≡ ltb (in_window 10 12 (times "a" (run (new_rate_limiter 2 10, []) events).1)) 2
allow-run_exact_example = allow-run_exact 2 10 12 events "a" events-IsOrdered (ground arith)

abbrev limiter : IpRateLimiter
limiter = (exceeded (new_ip_rate_limiter 1 10) "a" 1).0

exceeded-allow_example :
    ((exceeded limiter "a" 2).1 ≡ not (allow (view limiter) "a" 2).1)
    × (view (exceeded limiter "a" 2).0 ≡ (allow (view limiter) "a" 2).0)
exceeded-allow_example = exceeded-allow limiter "a" 2

ip_cleanup-cleanup_example :
    (view (ip_cleanup limiter 12) ≡ cleanup (view limiter) 12)
    × ((k : String)
        → IsEvicted limiter.window 12
            ((view limiter).windows k)
            ((view (ip_cleanup limiter 12)).windows k))
ip_cleanup-cleanup_example = ip_cleanup-cleanup limiter 12

ip_middleware_full : (ip_rate_limit_middleware limiter "a" 2).1 ≡ abort 429
unfolding ip_rate_limit_middleware new_ip_rate_limiter exceeded
ip_middleware_full = refl

-- Without a user, a request is refused before it is counted.
user_middleware_anonymous :
    (user_rate_limit_middleware (λ u. "u") (new_rate_limiter 1 10) none 2).1 ≡ abort 401
unfolding user_rate_limit_middleware new_rate_limiter
user_middleware_anonymous = refl

api_key_middleware_session :
    (api_key_rate_limit_middleware (λ k. k) (new_rate_limiter 0 10) "passkey" "" 2).1 ≡ next
unfolding api_key_rate_limit_middleware new_rate_limiter
api_key_middleware_session = refl
