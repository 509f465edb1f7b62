-- ===== src/Handler/RateLimit.antt =====
-- The sliding-window limiters of handler/ratelimit.go. The map from keys to timestamps is a
-- function. Time is a number that each call is given, so `t.After(now.Add(-window))` reads
-- `now < t + window`. Each method runs under the limiter's mutex, so a call is one step.
pub mod Window
pub mod Refinement
mod Examples
use teenet_wallet.Base.{
  ℕ, ◌+◌, String, Bool, true, false, not, Option, none, some, List, [], ◌∷◌, ◌++◌, ltb, leb,
  if◌then◌else◌, length, select, ◌==◌, string_eq,
}

pub record RateLimiter : Type 0 where
  pub windows : String → Option (List ℕ)
  pub limit : ℕ
  pub window : ℕ

-- A timestamp that `After(cutoff)` keeps.
abbrev pub is_recent : ℕ → ℕ → ℕ → Bool
is_recent window now t = ltb now (t + window)

-- Reading a missing key of a Go map gives the nil slice.
abbrev pub or_nil : Option (List ℕ) → List ℕ
or_nil none = []
or_nil (some ts) = ts

-- `m[key] = v`
abbrev pub assign {ℓ} : {V : Type ℓ} → String → Option V → (String → Option V) → String → Option V
assign key v m k = if key == k then v else m k

pub new_rate_limiter : ℕ → ℕ → RateLimiter
new_rate_limiter limit window = record { windows = λ _. none; limit = limit; window = window }

-- The timestamps of a key that the window keeps.
abbrev pub valid : RateLimiter → String → ℕ → List ℕ
valid rl key now = select (is_recent rl.window now) (or_nil (rl.windows key))

pub allow : RateLimiter → String → ℕ → RateLimiter × Bool
allow rl key now =
    if leb rl.limit (length (valid rl key now))
    then (record rl { windows = assign key (some (valid rl key now)) rl.windows }, false)
    else (record rl { windows = assign key (some (valid rl key now ++ now ∷ [])) rl.windows }, true)

-- The inner loop of `cleanup`, which breaks at the first recent timestamp.
abbrev pub all_old : ℕ → ℕ → List ℕ → Bool
all_old window now [] = true
all_old window now (t ∷ ts) = if is_recent window now t then false else all_old window now ts

abbrev pub evict : ℕ → ℕ → Option (List ℕ) → Option (List ℕ)
evict window now none = none
evict window now (some ts) = if all_old window now ts then none else some ts

-- One tick of the background goroutine.
pub cleanup : RateLimiter → ℕ → RateLimiter
cleanup rl now = record rl { windows = λ k. evict rl.window now (rl.windows k) }

pub record RateLimitEntry : Type 0 where
  pub times : List ℕ

-- The entries are pointers, each held by one key of the map, so the map holds their contents.
pub record IpRateLimiter : Type 0 where
  pub limits : String → Option RateLimitEntry
  pub max : ℕ
  pub window : ℕ

pub new_ip_rate_limiter : ℕ → ℕ → IpRateLimiter
new_ip_rate_limiter max window = record { limits = λ _. none; max = max; window = window }

abbrev pub entry_times : Option RateLimitEntry → List ℕ
entry_times none = []
entry_times (some e) = e.times

abbrev pub ip_valid : IpRateLimiter → String → ℕ → List ℕ
ip_valid l ip now = select (is_recent l.window now) (entry_times (l.limits ip))

pub exceeded : IpRateLimiter → String → ℕ → IpRateLimiter × Bool
exceeded l ip now =
    if leb l.max (length (ip_valid l ip now))
    then (
      record l { limits = assign ip (some (record { times = ip_valid l ip now })) l.limits },
      true,
    )
    else (
      record l {
        limits = assign ip (some (record { times = ip_valid l ip now ++ now ∷ [] })) l.limits;
      },
      false,
    )

-- The inner loop of IPRateLimiter's `cleanup`.
abbrev pub ip_all_old : ℕ → ℕ → List ℕ → Bool
ip_all_old window now [] = true
ip_all_old window now (t ∷ ts) = if is_recent window now t then false else ip_all_old window now ts

abbrev pub evict_entry : ℕ → ℕ → Option RateLimitEntry → Option RateLimitEntry
evict_entry window now none = none
evict_entry window now (some e) = if ip_all_old window now e.times then none else some e

pub ip_cleanup : IpRateLimiter → ℕ → IpRateLimiter
ip_cleanup l now = record l { limits = λ k. evict_entry l.window now (l.limits k) }

-- What a middleware does with a request: `c.Next()`, or an abort with a status.
pub data Verdict : Type 0 where
  next : Verdict
  abort : ℕ → Verdict

pub ip_rate_limit_middleware : IpRateLimiter → String → ℕ → IpRateLimiter × Verdict
unfolding exceeded
ip_rate_limit_middleware l ip now =
    let (l', over) = exceeded l ip now in (l', if over then abort 429 else next)

-- The key is made from the user's id or the API key's prefix.
pub user_rate_limit_middleware : (ℕ → String) → RateLimiter → Option ℕ → ℕ → RateLimiter × Verdict
unfolding allow
user_rate_limit_middleware key rl none now = (rl, abort 401)
user_rate_limit_middleware key rl (some user) now =
    let (rl', allowed) = allow rl (key user) now in (rl', if allowed then next else abort 429)

pub api_key_rate_limit_middleware :
    (String → String) → RateLimiter → String → String → ℕ → RateLimiter × Verdict
unfolding allow
api_key_rate_limit_middleware key rl mode prefix now =
    let (rl', allowed) = allow rl (key prefix) now in
    if not (mode == "apikey") then (rl, next) else (rl', if allowed then next else abort 429)
