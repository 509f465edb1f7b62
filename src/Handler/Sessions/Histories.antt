-- ===== src/Handler/Sessions/Histories.antt =====
-- What the session store of handler/middleware.go answers after a history of logins, logouts and
-- cleanup ticks, against the history itself.
use teenet_wallet.Base.{
  ℕ, ◌+◌, ◌≤◌, ◌<◌, ◌≡◌, refl, String, Option, none, some, List, [], ◌∷◌, inl, inr, if◌then◌else◌,
  ◌==◌, string_eq, ltb, arith, Bool-cases, sym, ap,
}
use teenet_wallet.Handler.Sessions.{
  SessionEntry, SessionStore, new_session_store, set, get, get_csrf, delete, sweep, live, user_of,
  csrf_of, put,
}

pub data Event : Type 0 where
  -- The token, the user, the lifetime and the CSRF token.
  login : String → ℕ → ℕ → String → Event
  logout : String → Event
  tick : Event

unfoldable pub step : SessionStore → ℕ × Event → SessionStore
step s (now, login token user ttl csrf) = (set s token user ttl csrf now).0
step s (now, logout token) = delete s token
step s (now, tick) = sweep s now

unfoldable pub run : SessionStore → List (ℕ × Event) → SessionStore
run s [] = s
run s (e ∷ es) = run (step s e) es

-- The specification: the last login under a token, unless a logout came after it. It knows of no
-- expiry and no cleanup.
abbrev pub note : String → Option SessionEntry → ℕ × Event → Option SessionEntry
note key last (now, login token user ttl csrf) =
    if token == key
    then some (record { user_id = user; csrf_token = csrf; expires_at = now + ttl })
    else last
note key last (now, logout token) = if token == key then none else last
note key last (now, tick) = last

unfoldable pub last_login : String → Option SessionEntry → List (ℕ × Event) → Option SessionEntry
last_login key last [] = last
last_login key last (e ∷ es) = last_login key (note key last e) es

-- The clock does not go back.
abbrev pub IsOrdered : ℕ → List (ℕ × Event) → Type 0
IsOrdered t [] = Unit {0}
IsOrdered t ((now, e) ∷ es) = (t ≤ now) × IsOrdered now es

abbrev pub last_time : ℕ → List (ℕ × Event) → ℕ
last_time t [] = t
last_time t ((now, e) ∷ es) = last_time now es

-- What is stored is what the history says, or was cleaned up after its expiry.
data Agrees (past : ℕ) (key : String) (s : SessionStore) (spec : Option SessionEntry) : Type 0 where
  same : s.sessions key ≡ spec → Agrees past key s spec
  cleaned :
      (e : SessionEntry)
      → s.sessions key ≡ none
      → spec ≡ some e
      → e.expires_at < past
      → Agrees past key s spec

swept :
    (past now : ℕ) (key : String) (s : SessionStore) (spec o : Option SessionEntry)
    → s.sessions key ≡ o
    → o ≡ spec
    → Agrees now key (sweep s now) spec
unfolding sweep
swept past now key s spec none e f = same (rw e f)
swept past now key s spec (some x) e f = elim (Bool-cases (ltb x.expires_at now)) [
  | inl late ↦ cleaned x (rw (e, live, late) refl) (sym f) (ground (arith, late))
  | inr soon ↦ same (rw (e, live, soon) f)
]

put-Agrees :
    (past now : ℕ) (token key : String) (e : Option SessionEntry) (s : SessionStore)
    (spec : Option SessionEntry)
    → past ≤ now
    → Agrees past key s spec
    → Agrees now key (put token e s) (if token == key then e else spec)
put-Agrees past now token key e s spec h (same q) = elim (Bool-cases (token == key)) [
  | inl mine ↦ same (rw mine refl)
  | inr other ↦ same (rw other q)
]
put-Agrees past now token key e s spec h (cleaned x q f g) = elim (Bool-cases (token == key)) [
  | inl mine ↦ same (rw mine refl)
  | inr other ↦ cleaned x (rw other q) (rw other f) (omega (arith, h, g))
]

step-Agrees :
    (past now : ℕ) (ev : Event) (key : String) (s : SessionStore) (spec : Option SessionEntry)
    → past ≤ now
    → Agrees past key s spec
    → Agrees now key (step s (now, ev)) (note key spec (now, ev))
unfolding step set delete sweep
step-Agrees past now (login token user ttl csrf) key s spec h a =
    let e : SessionEntry = record { user_id = user; csrf_token = csrf; expires_at = now + ttl } in
    put-Agrees past now token key (some e) s spec h a
step-Agrees past now (logout token) key s spec h a = put-Agrees past now token key none s spec h a
step-Agrees past now tick key s spec h (same e) = swept past now key s spec (s.sessions key) refl e
step-Agrees past now tick key s spec h (cleaned x e f g) =
    cleaned x (rw e refl) f (omega (arith, h, g))

run-Agrees :
    (past : ℕ) (es : List (ℕ × Event)) (key : String) (s : SessionStore)
    (spec : Option SessionEntry)
    → IsOrdered past es
    → Agrees past key s spec
    → Agrees (last_time past es) key (run s es) (last_login key spec es)
unfolding run last_login
run-Agrees past [] key s spec o a = a
run-Agrees past ((now, ev) ∷ es) key s spec (h, o) a =
    run-Agrees now es key (step s (now, ev)) (note key spec (now, ev)) o
      (step-Agrees past now ev key s spec h a)

Agrees-live :
    (past now : ℕ) (key : String) (s : SessionStore) (spec : Option SessionEntry)
    → past ≤ now
    → Agrees past key s spec
    → live now (s.sessions key) ≡ live now spec
Agrees-live past now key s spec h (same e) = rw e refl
Agrees-live past now key s spec h (cleaned x e f g) = rw (e, f) (ground (arith, h, g))

-- After any history of logins, logouts and cleanup ticks on a clock that does not go back, and at any
-- later time, a token has the user and the CSRF token of its last login, if no logout came after
-- it and it has not expired, and none otherwise: the cleanup is never seen.
pub get-run_exact :
    (es : List (ℕ × Event)) (key : String) (now : ℕ)
    → IsOrdered 0 es
    → last_time 0 es ≤ now
    → (get (run new_session_store es) key now ≡ user_of (live now (last_login key none es)))
      × (get_csrf (run new_session_store es) key now ≡ csrf_of (live now (last_login key none es)))
unfolding get get_csrf new_session_store
get-run_exact es key now o h =
    let a = run-Agrees 0 es key new_session_store none o (same refl) in
    let e =
      Agrees-live (last_time 0 es) now key (run new_session_store es) (last_login key none es) h
        a in
    (ap user_of e, ap csrf_of e)
