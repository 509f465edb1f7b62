-- ===== src/Handler/Authentication/Admission.antt =====
-- Who gets past the middlewares of handler/middleware.go.
use teenet_wallet.Base.{
  not-true, ℕ, ◌≡◌, refl, sym, ◌∙◌, subst, String, Bool, true, false, not, ◌&&◌, Option, none, some,
  inl, inr, ◌⊎◌, Bool-cases, if_ind, and_true, ◌==◌, string_eq, nat_eq, ◌>>=◌, leb, bind-inl,
  inl_inj,
}
use teenet_wallet.Db.{Found, found, missing, failed, Table}
use teenet_wallet.Model.{ApiKey}
use teenet_wallet.Handler.Sessions.{
  SessionStore, SessionEntry, live, user_of, csrf_of, get, get_csrf,
}
use teenet_wallet.Handler.Authentication.{
  TokenTools, Identity, passkey, apikey, Request, with_prefix, identity_of, extract_bearer,
  session_identity, check_key, key_found, auth_middleware, is_safe_method, csrf_middleware, only_if,
  admit,
}

module _ (tools : TokenTools) (keys : Table ApiKey) where
  -- A token proves an identity: by a session that is live and its CSRF token, or by the row of an API
  -- key of this prefix whose hash is a hash of the token.
  unfoldable pub Proves : SessionStore → ℕ → keys.Store → String → Identity → Type 0
  Proves sessions now s token (passkey user session csrf) =
      (tools.has_prefix token "ps_" ≡ true)
      × (session ≡ token)
      × (e : SessionEntry) × (live now (sessions.sessions token) ≡ some e)
      × (user ≡ e.user_id)
      × (csrf ≡ e.csrf_token)
  Proves sessions now s token (apikey user prefix label) =
      (id : ℕ) × (k : ApiKey) × (keys.row id s ≡ some k)
      × (identity_of k ≡ apikey user prefix label)
      × (k.prefix ≡ tools.take_12 token)
      × ((tools.hash_api_key_with_salt token k.key_salt ≡ k.key_hash)
          ⊎ (tools.hash_api_key_legacy token k.key_salt ≡ k.key_hash))

  abbrev pub Admits : SessionStore → ℕ → keys.Store → String → keys.Store × (Identity ⊎ ℕ) → Type 0
  Admits sessions now s token r = (i : Identity) → r.1 ≡ inl i → Proves sessions now s token i

  session-Proves :
      (sessions : SessionStore) (now : ℕ) (s : keys.Store) (token : String) (i : Identity)
      (o : Option SessionEntry)
      → tools.has_prefix token "ps_" ≡ true
      → live now (sessions.sessions token) ≡ o
      → session_identity tools token (csrf_of o) (user_of o) ≡ inl i
      → Proves sessions now s token i
  unfolding Proves
  session-Proves sessions now s token i none ps is_live e = cc
  session-Proves sessions now s token i (some entry) ps is_live e =
      let same : passkey entry.user_id token entry.csrf_token ≡ i = cc in
      subst (Proves sessions now s token) same (ps, refl, entry, is_live, refl, refl)

  matched-Proves :
      (sessions : SessionStore) (now : ℕ) (s : keys.Store) (token : String) (id : ℕ) (k : ApiKey)
      (i : Identity)
      → keys.row id s ≡ some k
      → k.prefix ≡ tools.take_12 token
      → (tools.hash_api_key_with_salt token k.key_salt ≡ k.key_hash)
        ⊎ (tools.hash_api_key_legacy token k.key_salt ≡ k.key_hash)
      → ◌≡◌ {A = Identity ⊎ ℕ} (inl (identity_of k)) (inl i)
      → Proves sessions now s token i
  unfolding Proves
  matched-Proves sessions now s token id k i here prefix hash e =
      subst (Proves sessions now s token) (inl_inj (identity_of k) i e)
        (id, k, here, refl, prefix, hash)

  check_key-Admits :
      (sessions : SessionStore) (now : ℕ) (s : keys.Store) (token : String) (id : ℕ) (k : ApiKey)
      → keys.row id s ≡ some k
      → k.prefix ≡ tools.take_12 token
      → Admits sessions now s token (check_key tools keys token (id, k) s)
  unfolding check_key
  check_key-Admits sessions now s token id k here prefix =
      if_ind (Admits sessions now s token)
        (tools.hash_api_key_with_salt token k.key_salt == k.key_hash) _ _
        (λ new i e.
          matched-Proves sessions now s token id k i here prefix
            (inl ((string_eq.eqb_iff _ k.key_hash).0 new)) e)
        λ _.
          if_ind (Admits sessions now s token)
            (tools.hash_api_key_legacy token k.key_salt == k.key_hash) _ _
            (λ old i e.
              matched-Proves sessions now s token id k i here prefix
                (inr ((string_eq.eqb_iff _ k.key_hash).0 old)) e)
            (λ _ i e. cc)

  key_found-Admits :
      (sessions : SessionStore) (now : ℕ) (s : keys.Store) (token : String) (r : Found (ℕ × ApiKey))
      → keys.find (with_prefix (tools.take_12 token)) s ≡ r
      → Admits sessions now s token (key_found tools keys token r s)
  key_found-Admits sessions now s token missing f i e = cc
  key_found-Admits sessions now s token failed f i e = cc
  key_found-Admits sessions now s token (found (id, k)) f i e =
      let (here, prefix) = keys.find_found (with_prefix (tools.take_12 token)) s id k f in
      check_key-Admits sessions now s token id k here ((string_eq.eqb_iff k.prefix _).0 prefix) i e

  auth_middleware-Admits :
      (sessions : SessionStore) (now : ℕ) (authorization : String) (s : keys.Store)
      → Admits sessions now s
          (extract_bearer tools authorization)
          (auth_middleware tools keys sessions now authorization s)
  unfolding auth_middleware get get_csrf
  auth_middleware-Admits sessions now authorization s =
      let token = extract_bearer tools authorization in
      if_ind (Admits sessions now s token) (token == "") _ _ (λ _ i e. cc)
        λ _.
          if_ind (Admits sessions now s token) (tools.has_prefix token "ps_") _ _
            (λ ps i e.
              session-Proves sessions now s token i (live now (sessions.sessions token)) ps refl e)
            λ _.
              if_ind (Admits sessions now s token)
                (leb 12 (tools.byte_length token) && not (tools.take_12 token == "")) _ _
                (λ _. key_found-Admits sessions now s token _ refl) (λ _ i e. cc)

-- A session proves itself again by its CSRF token, unless the method changes no state; an API key is
-- kept from routes for passkeys.
unfoldable pub Confirms : Bool → Request → Identity → Type 0
Confirms passkey_only req (apikey user prefix label) = passkey_only ≡ false
Confirms passkey_only req (passkey user token csrf) =
    (is_safe_method req.method ≡ true)
    ⊎ (((req.x_csrf_token == "") ≡ false) × (req.x_csrf_token ≡ csrf))

only_if-passkey :
    (passkey_only : Bool) (user : ℕ) (token csrf : String)
    → only_if passkey_only (passkey user token csrf) ≡ inl (passkey user token csrf)
only_if-passkey true user token csrf = refl
only_if-passkey false user token csrf = refl

chained-Confirms :
    (passkey_only : Bool) (req : Request) (i j : Identity)
    → (csrf_middleware req i >>= only_if passkey_only) ≡ inl j
    → (i ≡ j) × Confirms passkey_only req i
unfolding csrf_middleware Confirms
chained-Confirms true req (apikey user prefix label) j e = cc
chained-Confirms false req (apikey user prefix label) j e = (inl_inj _ j e, refl)
chained-Confirms passkey_only req (passkey user token csrf) j e =
    elim (Bool-cases (is_safe_method req.method)) [
      | inl safe ↦ (
        inl_inj _ j (sym (only_if-passkey passkey_only user token csrf) ∙ rw safe at e),
        inl safe,
      )
      | inr unsafe ↦
          elim (Bool-cases (not (req.x_csrf_token == "") && (req.x_csrf_token == csrf))) [
            | inl sent ↦
                let (full, same) = and_true (not (req.x_csrf_token == "")) _ sent in
                (
                  inl_inj _ j
                      (sym (only_if-passkey passkey_only user token csrf) ∙ rw (unsafe, sent) at e),
                  inr (not-true _ full, (string_eq.eqb_iff req.x_csrf_token csrf).0 same),
                )
            | inr missing_token ↦
                let refusal : ◌≡◌ {A = Identity ⊎ ℕ} (inr 403) (inl j) =
                  rw (unsafe, missing_token) at e in
                cc
          ]
    ]

-- A request that gets past the middlewares comes with a token that proves its identity, by a live
-- session or by an API key of the table, and a session sends its CSRF token with any method but GET,
-- HEAD and OPTIONS. Behind PasskeyOnlyMiddleware the identity is a session.
pub admit-Proves :
    (tools : TokenTools) (keys : Table ApiKey) (passkey_only : Bool) (sessions : SessionStore)
    (now : ℕ) (req : Request) (s : keys.Store) (i : Identity)
    → (admit tools keys passkey_only sessions now req s).1 ≡ inl i
    → Proves tools keys sessions now s (extract_bearer tools req.authorization) i
      × Confirms passkey_only req i
unfolding admit
admit-Proves tools keys passkey_only sessions now req s i e =
    let auth = (auth_middleware tools keys sessions now req.authorization s).1 in
    let (j, passed, rest) = bind-inl (auth >>= csrf_middleware req) (only_if passkey_only) i e in
    let (k, proved, confirmed) = bind-inl auth (csrf_middleware req) j passed in
    let (same, confirms) = chained-Confirms passkey_only req k i (rw confirmed rest) in
    (
      subst (Proves tools keys sessions now s (extract_bearer tools req.authorization)) same
          (auth_middleware-Admits tools keys sessions now req.authorization s k proved),
      subst (Confirms passkey_only req) same confirms,
    )
