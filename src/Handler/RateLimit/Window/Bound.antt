-- ===== src/Handler/RateLimit/Window/Bound.antt =====
-- The invariant that ties the recorded timestamps of handler/ratelimit.go to the grants.
use teenet_wallet.Base.{
  ℕ, ◌+◌, ◌≤◌, ◌<◌, ◌≡◌, refl, sym, ◌∙◌, ap, subst, String, true, ◌&&◌, Option, none, some, List,
  [], ◌∷◌, ◌++◌, arith, ltb, leb, if◌then◌else◌, length, length-append, select, select-append,
  All-append, ◌==◌, string_eq, inl, inr, Bool-cases, append-nil,
}
use teenet_wallet.Handler.RateLimit.{
  RateLimiter, new_rate_limiter, is_recent, or_nil, assign, valid, allow, all_old, evict, cleanup,
}
use teenet_wallet.Handler.RateLimit.Window.{
  Event, request, tick, Grants, times, step, run, IsOrdered, in_window, select_later,
  all_old-select, times-append, AllBefore, AllBefore-mono, in_window-le-recent,
}

-- At time `now`: the grants lie in the past, every recent grant is recorded, and no window of any
-- key holds more grants than the limit.
pub record Inv (now : ℕ) (s : RateLimiter × Grants) : Type 0 where
  pub before : (key : String) → AllBefore now (times key s.1)
  pub recorded :
      (key : String) (later : ℕ)
      → now ≤ later
      → valid s.0 key later ≡ select (is_recent s.0.window later) (times key s.1)
  pub bounded : (key : String) (at : ℕ) → in_window s.0.window at (times key s.1) ≤ s.0.limit

pub new-Inv : (limit w : ℕ) → Inv 0 (new_rate_limiter limit w, [])
unfolding new_rate_limiter
new-Inv limit w = record {
  before = λ key. tt;
  recorded = λ key later h. refl;
  bounded = λ key at. omega arith;
}

-- The recent times of an entry that the cleanup keeps or evicts are the same.
evict-recent :
    (w now later : ℕ) (o : Option (List ℕ))
    → now ≤ later
    → select (is_recent w later) (or_nil (evict w now o)) ≡ select (is_recent w later) (or_nil o)
evict-recent w now later none h = refl
evict-recent w now later (some ts) h = elim (Bool-cases (all_old w now ts)) [
  | inl old ↦ rw old (
      sym (
        sym (select_later w now later ts h)
        ∙ ap (select (is_recent w later)) (all_old-select w now ts old)))
  | inr kept ↦ rw kept
]

cleanup-Inv :
    (now now' : ℕ) (s : RateLimiter × Grants)
    → now ≤ now'
    → Inv now s
    → Inv now' (cleanup s.0 now', s.1)
unfolding cleanup
cleanup-Inv now now' s h v = record {
  before = λ key. AllBefore-mono now now' (times key s.1) h (v.before key);
  recorded = λ key later l.
      evict-recent s.0.window now' later (s.0.windows key) l ∙ v.recorded key later (omega arith);
  bounded = v.bounded;
}

-- What a lookup finds after an assignment.
valid-assign :
    (rl : RateLimiter) (key k : String) (ts : List ℕ) (later : ℕ)
    → valid (record rl { windows = assign key (some ts) rl.windows }) k later
      ≡ (if key == k then select (is_recent rl.window later) ts else valid rl k later)
valid-assign rl key k ts later = ground arith

-- For the assigned key itself.
recorded-assign :
    (rl : RateLimiter) (g : Grants) (key k : String) (ts : List ℕ) (later : ℕ)
    → (key == k) ≡ true
    → select (is_recent rl.window later) ts ≡ select (is_recent rl.window later) (times key g)
    → valid (record rl { windows = assign key (some ts) rl.windows }) k later
      ≡ select (is_recent rl.window later) (times k g)
recorded-assign rl g key k ts later hit e =
    let same : key ≡ k = (string_eq.eqb_iff key k).0 hit in
    valid-assign rl key k ts later
    ∙ rw hit (e ∙ ap (λ x. select (is_recent rl.window later) (times x g)) same)

-- The recent part of what is kept at `now'` is the recent part of the grants.
kept-recorded :
    (now now' : ℕ) (s : RateLimiter × Grants) (key : String) (later : ℕ)
    → now ≤ now'
    → now' ≤ later
    → Inv now s
    → select (is_recent s.0.window later) (valid s.0 key now')
      ≡ select (is_recent s.0.window later) (times key s.1)
kept-recorded now now' s key later h l v =
    select_later s.0.window now' later (or_nil (s.0.windows key)) l
    ∙ v.recorded key later (omega arith)

refused-Inv :
    (now now' : ℕ) (s : RateLimiter × Grants) (key : String)
    → now ≤ now'
    → Inv now s
    → Inv now' (record s.0 { windows = assign key (some (valid s.0 key now')) s.0.windows }, s.1)
refused-Inv now now' s key h v = record {
  before = λ k. AllBefore-mono now now' (times k s.1) h (v.before k);
  recorded = λ k later l. elim (Bool-cases (key == k)) [
    | inl hit ↦ recorded-assign s.0 s.1 key k _ later hit (kept-recorded now now' s key later h l v)
    | inr miss ↦
        valid-assign s.0 key k (valid s.0 key now') later
        ∙ rw miss (v.recorded k later (omega arith))
  ];
  bounded = v.bounded;
}

times-grant :
    (key k : String) (now : ℕ) (g : Grants)
    → times k (g ++ (key, now) ∷ []) ≡ (if key == k then times k g ++ now ∷ [] else times k g)
times-grant key k now g = elim (Bool-cases (key == k)) [
  | inl hit ↦ rw (times-append k g ((key, now) ∷ []), hit)
  | inr miss ↦ rw (times-append k g ((key, now) ∷ []), miss, append-nil)
]

-- One more grant at `now`, when fewer than the limit are recent.
in_window-append :
    (w limit now at : ℕ) (ts : List ℕ)
    → in_window w at ts ≤ limit
    → length (select (is_recent w now) ts) < limit
    → in_window w at (ts ++ now ∷ []) ≤ limit
in_window-append w limit now at ts h room =
    let split = select-append (λ t. ltb at (t + w) && leb t at) ts (now ∷ []) in
    let measure = length-append (select (λ t. ltb at (t + w) && leb t at) ts) in
    ground (arith, split, measure (now ∷ []), measure [], in_window-le-recent w now at ts)

AllBefore-grant :
    (now now' : ℕ) (ts : List ℕ) → now ≤ now' → AllBefore now ts → AllBefore now' (ts ++ now' ∷ [])
AllBefore-grant now now' ts h a =
    All-append (λ t. t ≤ now') ts (now' ∷ []) (AllBefore-mono now now' ts h a) (omega arith)

granted-recorded :
    (now now' : ℕ) (s : RateLimiter × Grants) (key : String) (later : ℕ)
    → now ≤ now'
    → now' ≤ later
    → Inv now s
    → select (is_recent s.0.window later) (valid s.0 key now' ++ now' ∷ [])
      ≡ select (is_recent s.0.window later) (times key (s.1 ++ (key, now') ∷ []))
granted-recorded now now' s key later h l v =
    let p = is_recent s.0.window later in
    let last = now' ∷ [] in
    rw (times-grant key key now' s.1, (string_eq.eqb_iff key key).1 refl)
      (select-append p (valid s.0 key now') last
        ∙ ap (λ ts. ts ++ select p last) (kept-recorded now now' s key later h l v)
        ∙ sym (select-append p (times key s.1) last))

granted-Inv :
    (now now' : ℕ) (s : RateLimiter × Grants) (key : String)
    → now ≤ now'
    → Inv now s
    → length (valid s.0 key now') < s.0.limit
    → Inv now' (
      record s.0 { windows = assign key (some (valid s.0 key now' ++ now' ∷ [])) s.0.windows },
      s.1 ++ (key, now') ∷ [],
    )
granted-Inv now now' s key h v room = record {
  before = λ k. elim (Bool-cases (key == k)) [
    | inl hit ↦
        rw (times-grant key k now' s.1, hit) (AllBefore-grant now now' (times k s.1) h (v.before k))
    | inr miss ↦
        rw (times-grant key k now' s.1, miss) (AllBefore-mono now now' (times k s.1) h (v.before k))
  ];
  recorded = λ k later l. elim (Bool-cases (key == k)) [
    | inl hit ↦
        recorded-assign s.0 (s.1 ++ (key, now') ∷ []) key k _ later hit
          (granted-recorded now now' s key later h l v)
    | inr miss ↦
        valid-assign s.0 key k (valid s.0 key now' ++ now' ∷ []) later
        ∙ rw (times-grant key k now' s.1, miss) (v.recorded k later (omega arith))
  ];
  bounded = λ k at. elim (Bool-cases (key == k)) [
    | inl hit ↦
        let same : key ≡ k = (string_eq.eqb_iff key k).0 hit in
        rw (times-grant key k now' s.1, hit)
          (in_window-append s.0.window s.0.limit now' at (times k s.1) (v.bounded k at)
            (rw (← same) (rw (← v.recorded key now' h) room)))
    | inr miss ↦ rw (times-grant key k now' s.1, miss) (v.bounded k at)
  ];
}

pub step-Inv :
    (now now' : ℕ) (e : Event) (s : RateLimiter × Grants)
    → now ≤ now'
    → Inv now s
    → Inv now' (step s (now', e))
unfolding step allow
step-Inv now now' (request key) s h v =
    elim (Bool-cases (leb s.0.limit (length (valid s.0 key now')))) [
      | inl full ↦ rw full (refused-Inv now now' s key h v)
      | inr room ↦ rw room (granted-Inv now now' s key h v (ground arith))
    ]
step-Inv now now' tick s h v = cleanup-Inv now now' s h v

step-config :
    (now : ℕ) (e : Event) (s : RateLimiter × Grants)
    → ((step s (now, e)).0.window ≡ s.0.window) × ((step s (now, e)).0.limit ≡ s.0.limit)
unfolding step allow cleanup
step-config now (request key) s = ground arith
step-config now tick s = (refl, refl)

abbrev pub last_time : ℕ → List (ℕ × Event) → ℕ
last_time t [] = t
last_time t ((now, e) ∷ es) = last_time now es

run-Inv :
    (now : ℕ) (es : List (ℕ × Event)) (s : RateLimiter × Grants)
    → IsOrdered now es
    → Inv now s
    → Inv (last_time now es) (run s es)
unfolding run
run-Inv now [] s o v = v
run-Inv now ((now', e) ∷ es) s o v =
    run-Inv now' es (step s (now', e)) o.1 (step-Inv now now' e s o.0 v)

run-config :
    (es : List (ℕ × Event)) (s : RateLimiter × Grants)
    → ((run s es).0.window ≡ s.0.window) × ((run s es).0.limit ≡ s.0.limit)
unfolding run
run-config [] s = (refl, refl)
run-config ((now', e) ∷ es) s =
    let (w, l) = step-config now' e s in
    let (w', l') = run-config es (step s (now', e)) in (w' ∙ w, l' ∙ l)

-- When no time lies after `now`, the window that ends at `now` holds the recent times.
in_window-eq-recent :
    (w now : ℕ) (ts : List ℕ)
    → AllBefore now ts
    → in_window w now ts ≡ length (select (is_recent w now) ts)
in_window-eq-recent w now [] a = refl
in_window-eq-recent w now (t ∷ ts) a = ground (arith, in_window-eq-recent w now ts a.1)

bounded_at :
    {now : ℕ} (s : RateLimiter × Grants) {w l : ℕ} (key : String) (at : ℕ)
    → s.0.window ≡ w
    → s.0.limit ≡ l
    → Inv now s
    → in_window w at (times key s.1) ≤ l
bounded_at s {w} {l} key at ew el v =
    subst (λ x. in_window x at (times key s.1) ≤ l) ew
      (subst (λ y. in_window s.0.window at (times key s.1) ≤ y) el (v.bounded key at))

-- Over any history of requests and cleanup ticks on a clock that does not go back, a new limiter
-- grants a key at most `limit` requests in every interval of length `window`.
pub run-within_limit :
    (limit window : ℕ) (es : List (ℕ × Event)) (key : String) (at : ℕ)
    → IsOrdered 0 es
    → in_window window at (times key (run (new_rate_limiter limit window, []) es).1) ≤ limit
unfolding new_rate_limiter
run-within_limit limit window es key at o =
    let s : RateLimiter × Grants = (new_rate_limiter limit window, []) in
    let (w, l) = run-config es s in
    bounded_at (run s es) key at w l (run-Inv 0 es s o (new-Inv limit window))

allow_exact :
    {past : ℕ} (s : RateLimiter × Grants) {w l : ℕ} (key : String) (now : ℕ)
    → s.0.window ≡ w
    → s.0.limit ≡ l
    → Inv past s
    → past ≤ now
    → (allow s.0 key now).1 ≡ ltb (in_window w now (times key s.1)) l
unfolding allow
allow_exact {past} s {w} {l} key now ew el v h =
    let recent =
      in_window-eq-recent s.0.window now (times key s.1)
        (AllBefore-mono past now _ h (v.before key)) in
    let here = ap length (v.recorded key now h) in
    subst (λ x. (allow s.0 key now).1 ≡ ltb (in_window x now (times key s.1)) l) ew
      (subst (λ y. (allow s.0 key now).1 ≡ ltb (in_window s.0.window now (times key s.1)) y) el
        (ground (arith, recent, here)))

-- After any history on a clock that does not go back, a request at a later time is allowed exactly
-- when its key has fewer than `limit` grants in the window that ends at that time.
pub allow-run_exact :
    (limit window now : ℕ) (es : List (ℕ × Event)) (key : String)
    → IsOrdered 0 es
    → last_time 0 es ≤ now
    → (allow (run (new_rate_limiter limit window, []) es).0 key now).1
      ≡ ltb (in_window window now (times key (run (new_rate_limiter limit window, []) es).1)) limit
unfolding new_rate_limiter
allow-run_exact limit window now es key o h =
    let s : RateLimiter × Grants = (new_rate_limiter limit window, []) in
    let (w, l) = run-config es s in
    allow_exact (run s es) key now w l (run-Inv 0 es s o (new-Inv limit window)) h
