-- ===== src/Handler/Sessions/Examples.antt =====
-- Examples for the session store of handler/middleware.go.
use teenet_wallet.Base.{ℕ, ◌≡◌, refl, none, some, List, [], ◌∷◌, arith}
use teenet_wallet.Handler.Sessions.{
  new_session_store, get, get_csrf, set, delete, sweep, live, user_of, csrf_of,
}
use teenet_wallet.Handler.Sessions.Histories.{
  Event, login, logout, tick, run, step, last_login, get-run_exact,
}

abbrev events : List (ℕ × Event)
events =
    (1, login "ps_a" 7 100 "x") ∷ (2, login "ps_b" 8 10 "y") ∷ (20, tick) ∷ (21, logout "ps_c") ∷ []

-- The second session was cleaned up, the first one is valid.
get-events : get (run new_session_store events) "ps_a" 50 ≡ some 7
unfolding get run step set delete sweep new_session_store
get-events = refl

get-run_exact_example :
    (get (run new_session_store events) "ps_b" 50
      ≡ user_of (live 50 (last_login "ps_b" none events)))
    × (get_csrf (run new_session_store events) "ps_b" 50
        ≡ csrf_of (live 50 (last_login "ps_b" none events)))
get-run_exact_example = get-run_exact events "ps_b" 50 (ground arith) (ground arith)
