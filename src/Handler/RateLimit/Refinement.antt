-- ===== src/Handler/RateLimit/Refinement.antt =====
-- IPRateLimiter and the middlewares of handler/ratelimit.go, against RateLimiter.
use mathlib.Core.Path.{fun_ext}
use teenet_wallet.Base.{
  ℕ, ◌+◌, ◌≡◌, ◌⊎◌, refl, ap, String, true, false, not, Option, none, some, List, [], ◌∷◌, ◌++◌,
  arith, leb, length, ltb, select, string_eq, inl, inr, Bool-cases,
}
use teenet_wallet.Handler.RateLimit.{
  RateLimiter, RateLimitEntry, IpRateLimiter, assign, valid, allow, all_old, ip_all_old, evict,
  cleanup, exceeded, ip_valid, evict_entry, ip_cleanup,
}

abbrev pub entry_view : Option RateLimitEntry → Option (List ℕ)
entry_view none = none
entry_view (some e) = some e.times

-- An IP limiter as a limiter keyed by addresses.
abbrev pub view : IpRateLimiter → RateLimiter
view l = record { windows = λ k. entry_view (l.limits k); limit = l.max; window = l.window }

valid-view : (l : IpRateLimiter) (ip : String) (now : ℕ) → valid (view l) ip now ≡ ip_valid l ip now
valid-view l ip now = ground arith

view-assign :
    (l : IpRateLimiter) (ip : String) (ts us : List ℕ)
    → us ≡ ts
    → view (record l { limits = assign ip (some (record { times = ts })) l.limits })
      ≡ record { windows = assign ip (some us) (view l).windows; limit = l.max; window = l.window }
view-assign l ip ts us e =
    ap
      (λ (w : String → Option (List ℕ)).
        let r : RateLimiter = record { windows = w; limit = l.max; window = l.window } in r)
      (fun_ext (λ k. ground (arith, e)))

-- `Exceeded` is `Allow` with the answer turned round: on the same timestamps it gives the opposite
-- answer and leaves the same timestamps.
pub exceeded-allow :
    (l : IpRateLimiter) (ip : String) (now : ℕ)
    → ((exceeded l ip now).1 ≡ not (allow (view l) ip now).1)
      × (view (exceeded l ip now).0 ≡ (allow (view l) ip now).0)
unfolding exceeded allow
exceeded-allow l ip now = elim (Bool-cases (leb l.max (length (ip_valid l ip now)))) [
  | inl full ↦
      let same : leb l.max (length (valid (view l) ip now)) ≡ true =
        rw (valid-view l ip now) full in
      rw (full, same) (refl, view-assign l ip _ _ (valid-view l ip now))
  | inr room ↦
      let same : leb l.max (length (valid (view l) ip now)) ≡ false =
        rw (valid-view l ip now) room in
      rw (room, same) (refl, view-assign l ip _ _ (ap (λ ts. ts ++ now ∷ []) (valid-view l ip now)))
]

ip_all_old-all_old : (w now : ℕ) (ts : List ℕ) → ip_all_old w now ts ≡ all_old w now ts
ip_all_old-all_old w now [] = refl
ip_all_old-all_old w now (t ∷ ts) = ground (arith, ip_all_old-all_old w now ts)

-- What a tick leaves of the timestamps of a key: nothing if none is within the window that ends now,
-- and otherwise all of them.
abbrev pub IsEvicted : ℕ → ℕ → Option (List ℕ) → Option (List ℕ) → Type 0
IsEvicted w now none r = r ≡ none
IsEvicted w now (some ts) r =
    ((r ≡ none) × (select (λ t. ltb now (t + w)) ts ≡ []))
    ⊎ ((r ≡ some ts) × (t : ℕ) × (rest : List ℕ) × (select (λ t. ltb now (t + w)) ts ≡ t ∷ rest))

all_old-select :
    (w now : ℕ) (ts : List ℕ)
    → ((ip_all_old w now ts ≡ true) × (select (λ t. ltb now (t + w)) ts ≡ []))
      ⊎ ((ip_all_old w now ts ≡ false)
          × (t : ℕ) × (rest : List ℕ) × (select (λ t. ltb now (t + w)) ts ≡ t ∷ rest))
all_old-select w now [] = inl (refl, refl)
all_old-select w now (t ∷ ts) = elim (Bool-cases (ltb now (t + w))) [
  | inl recent ↦ inr (rw recent refl, t, select (λ t. ltb now (t + w)) ts, rw recent refl)
  | inr old ↦ rw old (all_old-select w now ts)
]

evict_entry-IsEvicted :
    (w now : ℕ) (o : Option RateLimitEntry)
    → IsEvicted w now (entry_view o) (entry_view (evict_entry w now o))
evict_entry-IsEvicted w now none = refl
evict_entry-IsEvicted w now (some e) = elim (all_old-select w now e.times) [
  | inl (old, none_left) ↦ rw old (inl (refl, none_left))
  | inr (recent, t, rest, kept) ↦ rw recent (inr (refl, t, rest, kept))
]

evict-view :
    (w now : ℕ) (o : Option RateLimitEntry)
    → entry_view (evict_entry w now o) ≡ evict w now (entry_view o)
evict-view w now none = refl
evict-view w now (some e) = ground (arith, ip_all_old-all_old w now e.times)

-- A cleanup tick leaves the same timestamps in both limiters: those of a key are gone if none of
-- them is within the window, and are all kept otherwise.
pub ip_cleanup-cleanup :
    (l : IpRateLimiter) (now : ℕ)
    → (view (ip_cleanup l now) ≡ cleanup (view l) now)
      × ((k : String)
          → IsEvicted l.window now ((view l).windows k) ((view (ip_cleanup l now)).windows k))
unfolding ip_cleanup cleanup
ip_cleanup-cleanup l now = (
  ap
      (λ (w : String → Option (List ℕ)).
        let r : RateLimiter = record { windows = w; limit = l.max; window = l.window } in r)
      (fun_ext (λ k. evict-view l.window now (l.limits k))),
  λ k. evict_entry-IsEvicted l.window now (l.limits k),
)
