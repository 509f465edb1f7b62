-- ===== src/Handler/Authentication.antt =====
-- The middlewares of handler/middleware.go that say who sends a request: AuthMiddleware,
-- CSRFMiddleware and PasskeyOnlyMiddleware, in the order in which main.go chains them on the
-- routes below /api.
pub mod Admission
mod Examples
use teenet_wallet.Base.{
  ℕ, String, Bool, true, false, not, ◌&&◌, ◌||◌, Option, none, some, inl, inr, ◌⊎◌, if◌then◌else◌,
  ◌==◌, string_eq, ◌>>=◌, leb, require,
}
use teenet_wallet.Db.{Found, found, missing, failed, Table}
use teenet_wallet.Model.{ApiKey}
use teenet_wallet.Handler.Sessions.{SessionStore, get, get_csrf}

-- What the middlewares use of strings and crypto; `take_12` is the slice of the first 12 bytes.
pub record TokenTools : Type 0 where
  pub has_prefix : String → String → Bool
  pub trim_prefix : String → String → String
  pub trim_space : String → String
  pub byte_length : String → ℕ
  pub take_12 : String → String
  pub hash_api_key_with_salt : String → String → String
  pub hash_api_key_legacy : String → String → String

-- What AuthMiddleware sets in the context.
pub data Identity : Type 0 where
  passkey : (user_id : ℕ) (session_token csrf_token : String) → Identity
  apikey : (user_id : ℕ) (prefix label : String) → Identity

-- The request as the middlewares read it: its method and two headers, empty if absent.
pub record Request : Type 0 where
  pub method : String
  pub authorization : String
  pub x_csrf_token : String

abbrev pub with_prefix : String → ℕ → ApiKey → Bool
with_prefix prefix id k = k.prefix == prefix

abbrev pub rehash : String → ApiKey → ApiKey
rehash hash k = record k { key_hash = hash }

abbrev pub identity_of : ApiKey → Identity
identity_of k = apikey k.user_id k.prefix k.label

module _ (tools : TokenTools) where
  abbrev pub extract_bearer : String → String
  extract_bearer auth =
      if tools.has_prefix auth "Bearer "
      then tools.trim_space (tools.trim_prefix auth "Bearer ")
      else ""

  abbrev pub session_identity : String → String → Option ℕ → Identity ⊎ ℕ
  session_identity token csrf none = inr 401
  session_identity token csrf (some user) = inl (passkey user token csrf)

  module _ (keys : Table ApiKey) where
    -- The hash of the row is compared in constant time; a row with a hash of the old kind is updated,
    -- whose error is not looked at.
    unfoldable pub check_key : String → ℕ × ApiKey → keys.Store → keys.Store × (Identity ⊎ ℕ)
    check_key token (id, k) s =
        let hash = tools.hash_api_key_with_salt token k.key_salt in
        if hash == k.key_hash
        then (s, inl (identity_of k))
        else if tools.hash_api_key_legacy token k.key_salt == k.key_hash
        then ((keys.update id (rehash hash) s).0, inl (identity_of k))
        else (s, inr 401)

    abbrev pub key_found : String → Found (ℕ × ApiKey) → keys.Store → keys.Store × (Identity ⊎ ℕ)
    key_found token (found k) s = check_key token k s
    key_found token missing s = (s, inr 401)
    key_found token failed s = (s, inr 401)

    -- The prefix is the empty text, which is refused, if the token has fewer than 12 bytes.
    abbrev pub key_identity : String → keys.Store → keys.Store × (Identity ⊎ ℕ)
    key_identity token s =
        if leb 12 (tools.byte_length token) && not (tools.take_12 token == "")
        then key_found token (keys.find (with_prefix (tools.take_12 token)) s) s
        else (s, inr 401)

    unfoldable pub auth_middleware :
        SessionStore → ℕ → String → keys.Store → keys.Store × (Identity ⊎ ℕ)
    auth_middleware sessions now authorization s =
        let token = extract_bearer authorization in
        if token == ""
        then (s, inr 401)
        else if tools.has_prefix token "ps_"
        then (s, session_identity token (get_csrf sessions token now) (get sessions token now))
        else key_identity token s

abbrev pub is_safe_method : String → Bool
is_safe_method method = (method == "GET") || ((method == "HEAD") || (method == "OPTIONS"))

unfoldable pub csrf_middleware : Request → Identity → Identity ⊎ ℕ
csrf_middleware req (apikey user prefix label) = inl (apikey user prefix label)
csrf_middleware req (passkey user token csrf) =
    if is_safe_method req.method
    then inl (passkey user token csrf)
    else if not (req.x_csrf_token == "") && (req.x_csrf_token == csrf)
    then inl (passkey user token csrf)
    else inr 403

abbrev pub passkey_only_middleware : Identity → Identity ⊎ ℕ
passkey_only_middleware (apikey user prefix label) = inr 403
passkey_only_middleware (passkey user token csrf) = inl (passkey user token csrf)

abbrev pub only_if : Bool → Identity → Identity ⊎ ℕ
only_if false i = inl i
only_if true i = passkey_only_middleware i

-- The chain in front of a handler, without the rate limit for API keys.
unfoldable pub admit :
    TokenTools
    → (keys : Table ApiKey) → (passkey_only : Bool) → SessionStore
    → ℕ
    → Request
    → keys.Store
    → keys.Store × (Identity ⊎ ℕ)
admit tools keys passkey_only sessions now req s =
    let r = auth_middleware tools keys sessions now req.authorization s in
    (r.0, (r.1 >>= csrf_middleware req) >>= only_if passkey_only)
