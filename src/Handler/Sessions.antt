-- ===== src/Handler/Sessions.antt =====
-- The session store of handler/middleware.go. The map from tokens to entries is a function; time is a
-- number that each call is given, and so is the random CSRF token.
pub mod Histories
mod Examples
use teenet_wallet.Base.{ℕ, ◌+◌, String, Option, none, some, if◌then◌else◌, ◌==◌, string_eq, ltb}

pub record SessionEntry : Type 0 where
  pub user_id : ℕ
  pub csrf_token : String
  pub expires_at : ℕ

pub record SessionStore : Type 0 where
  pub sessions : String → Option SessionEntry

unfoldable pub new_session_store : SessionStore
new_session_store = record { sessions = λ _. none }

abbrev pub put : String → Option SessionEntry → SessionStore → SessionStore
put token e s = record { sessions = λ k. if token == k then e else s.sessions k }

-- `Set`, which returns the CSRF token as well.
unfoldable pub set : SessionStore → String → ℕ → ℕ → String → ℕ → SessionStore × String
set s token user ttl csrf now = (
  put token (some (record { user_id = user; csrf_token = csrf; expires_at = now + ttl })) s,
  csrf,
)

-- An entry that is still valid.
abbrev pub live : ℕ → Option SessionEntry → Option SessionEntry
live now none = none
live now (some e) = if ltb e.expires_at now then none else some e

abbrev pub user_of : Option SessionEntry → Option ℕ
user_of none = none
user_of (some e) = some e.user_id

abbrev pub csrf_of : Option SessionEntry → String
csrf_of none = ""
csrf_of (some e) = e.csrf_token

unfoldable pub get : SessionStore → String → ℕ → Option ℕ
get s token now = user_of (live now (s.sessions token))

unfoldable pub get_csrf : SessionStore → String → ℕ → String
get_csrf s token now = csrf_of (live now (s.sessions token))

unfoldable pub delete : SessionStore → String → SessionStore
delete s token = put token none s

-- One tick of the background goroutine.
unfoldable pub sweep : SessionStore → ℕ → SessionStore
sweep s now = record { sessions = λ k. live now (s.sessions k) }
