-- ===== src/Handler/SseHub/Examples.antt =====
-- Examples for handler/sse_hub.go: six streams of one user, and the end of a stream after Stop.
use teenet_wallet.Base.{◌≤◌, ◌≡◌, refl, false, some, List, [], ◌∷◌, length}
use teenet_wallet.Handler.SseHub.{new_sse_hub, chans_of, total, subscribe, unsubscribe, stop}
use teenet_wallet.Handler.SseHub.Bounds.{Call, connect, disconnect, calls, call, calls-bounded}

abbrev six_streams : List Call
six_streams =
    connect 7
    ∷ connect 7
    ∷ connect 7
    ∷ connect 7
    ∷ connect 7
    ∷ connect 7
    ∷ disconnect 7 (some 0)
    ∷ []

calls_six : chans_of 7 (calls six_streams new_sse_hub).subscribers ≡ 1 ∷ 2 ∷ 3 ∷ 4 ∷ []
unfolding calls call subscribe unsubscribe new_sse_hub
calls_six = refl

-- The stream of handler/sse.go ends when its channel closes, and its deferred Unsubscribe panics.
stop_then_unsubscribe : (unsubscribe (stop (subscribe new_sse_hub 7).0).0 7 (some 0)).1 ≡ false
unfolding subscribe unsubscribe new_sse_hub stop
stop_then_unsubscribe = refl

calls-bounded_example :
    (length (chans_of 7 (calls six_streams new_sse_hub).subscribers) ≤ 5)
    × (total (calls six_streams new_sse_hub).subscribers ≤ 2000)
calls-bounded_example = calls-bounded six_streams 7
