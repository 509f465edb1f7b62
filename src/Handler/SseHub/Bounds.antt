-- ===== src/Handler/SseHub/Bounds.antt =====
-- The bounds that the hub of handler/sse_hub.go keeps on its connections.
use teenet_wallet.Base.{
  ℕ, ◌+◌, ◌≤◌, ◌≡◌, Option, none, some, List, [], ◌∷◌, ◌++◌, ◌==◌, nat_eq, leb, length, select, All,
  arith, Bool-cases, inl, inr, length-append, length-select-le,
}
use teenet_wallet.Handler.SseHub.{
  SseEvent, Chan, SseHub, new_sse_hub, chans_of, set_chans, delete_user, total, subscribe,
  store_rest, unsubscribe, stop, broadcast, is_other, close_all, close_entries,
}

-- What a user of the hub does: streams that connect and disconnect, events, and the shutdown.
pub data Call : Type 0 where
  connect : ℕ → Call
  disconnect : ℕ → Option ℕ → Call
  announce : ℕ → SseEvent → Call
  shut_down : Call

-- A panic is recovered, and the hub stays as the call left it.
unfoldable pub call : Call → SseHub → SseHub
call (connect user) h = (subscribe h user).0
call (disconnect user ch) h = (unsubscribe h user ch).0
call (announce user e) h = (broadcast h user e).0
call shut_down h = (stop h).0

unfoldable pub calls : List Call → SseHub → SseHub
calls [] h = h
calls (c ∷ cs) h = calls cs (call c h)

AtMostFive : ℕ × List ℕ → Type 0
AtMostFive e = length e.1 ≤ 5

set-total :
    (user : ℕ) (cs : List ℕ) (m : List (ℕ × List ℕ))
    → total (set_chans user cs m) + length (chans_of user m) ≡ total m + length cs
set-total user cs [] = ground arith
set-total user cs ((u, old) ∷ m) = ground (arith, set-total user cs m)

delete-total : (user : ℕ) (m : List (ℕ × List ℕ)) → total (delete_user user m) ≤ total m
delete-total user [] = ground arith
delete-total user ((u, old) ∷ m) = ground (arith, delete-total user m)

set-AtMostFive :
    (user : ℕ) (cs : List ℕ) (m : List (ℕ × List ℕ))
    → length cs ≤ 5
    → All AtMostFive m
    → All AtMostFive (set_chans user cs m)
unfolding AtMostFive
set-AtMostFive user cs [] h a = (h, tt)
set-AtMostFive user cs ((u, old) ∷ m) h (x, a) = elim (Bool-cases (u == user)) [
  | inl e ↦ rw e (h, a)
  | inr e ↦ rw e (x, set-AtMostFive user cs m h a)
]

delete-AtMostFive :
    (user : ℕ) (m : List (ℕ × List ℕ)) → All AtMostFive m → All AtMostFive (delete_user user m)
unfolding AtMostFive
delete-AtMostFive user [] a = a
delete-AtMostFive user ((u, old) ∷ m) (x, a) = elim (Bool-cases (u == user)) [
  | inl e ↦ rw e a
  | inr e ↦ rw e (x, delete-AtMostFive user m a)
]

chans_of-AtMostFive :
    (user : ℕ) (m : List (ℕ × List ℕ)) → All AtMostFive m → length (chans_of user m) ≤ 5
unfolding AtMostFive
chans_of-AtMostFive user [] a = ground arith
chans_of-AtMostFive user ((u, old) ∷ m) (x, a) = elim (Bool-cases (u == user)) [
  | inl e ↦ rw e x
  | inr e ↦ rw e (chans_of-AtMostFive user m a)
]

Bounded : List (ℕ × List ℕ) → Type 0
Bounded m = (total m ≤ 2000) × All AtMostFive m

store_rest-Bounded :
    (user : ℕ) (cs : List ℕ) (m : List (ℕ × List ℕ))
    → length cs ≤ length (chans_of user m)
    → Bounded m
    → Bounded (store_rest user cs m)
unfolding Bounded
store_rest-Bounded user [] m h (n, a) =
    (omega (arith, n, delete-total user m), delete-AtMostFive user m a)
store_rest-Bounded user (c ∷ cs) m h (n, a) =
    let five = chans_of-AtMostFive user m a in
    let sum = set-total user (c ∷ cs) m in
    (omega (arith, n, h, sum), set-AtMostFive user (c ∷ cs) m (omega (arith, h, five)) a)

subscribe-Bounded :
    (h : SseHub) (user : ℕ) → Bounded h.subscribers → Bounded (subscribe h user).0.subscribers
unfolding Bounded subscribe
subscribe-Bounded h user (n, a) =
    let old = chans_of user h.subscribers in
    elim (Bool-cases (leb 2000 (total h.subscribers))) [
      | inl full ↦ rw full (n, a)
      | inr free ↦ elim (Bool-cases (leb 5 (length old))) [
        | inl many ↦ rw (free, many) (n, a)
        | inr few ↦
            let grown = length-append old (h.next ∷ []) in
            let sum = set-total user (old ++ h.next ∷ []) h.subscribers in
            rw (free, few)
              (
                ground (arith, n, grown, sum, free),
                set-AtMostFive user (old ++ h.next ∷ []) h.subscribers (ground (arith, grown, few))
                    a,
              )
      ]
    ]

close_entries-Bounded :
    (m : List (ℕ × List ℕ)) (k : ℕ → Chan) → Bounded m → Bounded (close_entries m k).0.0
unfolding Bounded
close_entries-Bounded [] k v = v
close_entries-Bounded ((u, cs) ∷ rest) k (n, (x, a)) = elim (Bool-cases (close_all cs k).1) [
  | inr e ↦ rw (e, close_entries) (n, (x, a))
  | inl e ↦
      rw (e, close_entries) (close_entries-Bounded rest (close_all cs k).0 (omega (arith, n), a))
]

call-Bounded : (c : Call) (h : SseHub) → Bounded h.subscribers → Bounded (call c h).subscribers
unfolding call unsubscribe stop broadcast
call-Bounded (connect user) h v = subscribe-Bounded h user v
call-Bounded (disconnect user none) h v = v
call-Bounded (disconnect user (some ch)) h v =
    let cs = chans_of user h.subscribers in
    store_rest-Bounded user (select (is_other ch) cs) h.subscribers
      (length-select-le (is_other ch) cs) v
call-Bounded (announce user e) h v = v
call-Bounded shut_down h v = close_entries-Bounded h.subscribers h.chans v

calls-Bounded :
    (cs : List Call) (h : SseHub) → Bounded h.subscribers → Bounded (calls cs h).subscribers
unfolding calls
calls-Bounded [] h v = v
calls-Bounded (c ∷ cs) h v = calls-Bounded cs (call c h) (call-Bounded c h v)

-- Over any sequence of connections, disconnections (of any channel, nil or closed too), broadcasts and
-- shutdowns from a new hub, a user has at most five subscriptions, and all users together have at
-- most two thousand.
pub calls-bounded :
    (cs : List Call) (user : ℕ)
    → (length (chans_of user (calls cs new_sse_hub).subscribers) ≤ 5)
      × (total (calls cs new_sse_hub).subscribers ≤ 2000)
unfolding Bounded new_sse_hub
calls-bounded cs user =
    let (n, a) = calls-Bounded cs new_sse_hub (ground arith, tt) in
    (chans_of-AtMostFive user (calls cs new_sse_hub).subscribers a, n)
