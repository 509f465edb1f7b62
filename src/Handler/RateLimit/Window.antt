-- ===== src/Handler/RateLimit/Window.antt =====
-- The window bound of RateLimiter (handler/ratelimit.go), over every history of calls and ticks.
pub mod Bound
use teenet_wallet.Base.{
  ℕ, ◌+◌, ◌≤◌, ◌<◌, ◌≡◌, refl, sym, ◌∙◌, ap, String, Bool, true, false, ◌&&◌, Option, none, some,
  List, [], ◌∷◌, ◌++◌, arith, ltb, leb, if◌then◌else◌, length, length-append, select, select-append,
  All, All-append, All-select, ◌==◌, string_eq, inl, inr, Bool-cases, append-nil,
}
use teenet_wallet.Handler.RateLimit.{
  RateLimiter, new_rate_limiter, is_recent, or_nil, assign, valid, allow, all_old, evict, cleanup,
}

pub data Event : Type 0 where
  request : String → Event
  tick : Event

-- The grants so far, oldest first: the key and the time of each request that was allowed.
abbrev pub Grants : Type 0
Grants = List (String × ℕ)

abbrev pub times : String → Grants → List ℕ
times key [] = []
times key ((k, t) ∷ g) = if k == key then t ∷ times key g else times key g

abbrev pub grant_if : Bool → String → ℕ → Grants → Grants
grant_if true key now g = g ++ (key, now) ∷ []
grant_if false key now g = g

unfoldable pub step : RateLimiter × Grants → ℕ × Event → RateLimiter × Grants
step (rl, g) (now, request key) =
    let (rl', allowed) = allow rl key now in (rl', grant_if allowed key now g)
step (rl, g) (now, tick) = (cleanup rl now, g)

unfoldable pub run : RateLimiter × Grants → List (ℕ × Event) → RateLimiter × Grants
run s [] = s
run s (e ∷ es) = run (step s e) es

-- The clock does not go back.
abbrev pub IsOrdered : ℕ → List (ℕ × Event) → Type 0
IsOrdered t [] = Unit {0}
IsOrdered t ((now, e) ∷ es) = (t ≤ now) × IsOrdered now es

-- How many of the times lie in the window that ends at `at`.
abbrev pub in_window : ℕ → ℕ → List ℕ → ℕ
in_window window at ts = length (select (λ t. ltb at (t + window) && leb t at) ts)

pub select_later :
    (w now later : ℕ) (ts : List ℕ)
    → now ≤ later
    → select (is_recent w later) (select (is_recent w now) ts) ≡ select (is_recent w later) ts
select_later w now later [] h = refl
select_later w now later (t ∷ ts) h = ground (arith, select_later w now later ts h)

pub all_old-select :
    (w now : ℕ) (ts : List ℕ) → all_old w now ts ≡ true → select (is_recent w now) ts ≡ []
all_old-select w now [] h = refl
all_old-select w now (t ∷ ts) h = ground (arith, all_old-select w now ts)

pub times-append : (key : String) (g h : Grants) → times key (g ++ h) ≡ times key g ++ times key h
times-append key [] h = refl
times-append key ((k, t) ∷ g) h = ground (arith, times-append key g h)

abbrev pub AllBefore : ℕ → List ℕ → Type 0
AllBefore now = All (λ t. t ≤ now)

pub AllBefore-mono :
    (now later : ℕ) (ts : List ℕ) → now ≤ later → AllBefore now ts → AllBefore later ts
AllBefore-mono now later [] h a = tt
AllBefore-mono now later (t ∷ ts) h a = (omega arith, AllBefore-mono now later ts h a.1)

-- A window that ends at or after `now` holds no more than the recent times.
pub in_window-le-recent :
    (w now at : ℕ) (ts : List ℕ)
    → now ≤ at
    → in_window w at ts ≤ length (select (is_recent w now) ts)
in_window-le-recent w now at [] h = omega arith
in_window-le-recent w now at (t ∷ ts) h = ground (arith, in_window-le-recent w now at ts h)
