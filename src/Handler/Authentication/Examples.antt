-- ===== src/Handler/Authentication/Examples.antt =====
-- Examples for the middlewares of handler/middleware.go.
use teenet_wallet.Base.{◌≡◌, refl, true, false, inl, inr, [], ◌∷◌, ◌==◌, string_eq, if◌then◌else◌}
use teenet_wallet.Db.{Table}
use teenet_wallet.Db.Memory.{memory_table, Memory, empty, insert_all}
use teenet_wallet.Model.{ApiKey}
use teenet_wallet.Handler.Sessions.{SessionStore, new_session_store, set, get, get_csrf}
use teenet_wallet.Handler.Authentication.{
  TokenTools, passkey, apikey, Request, extract_bearer, check_key, auth_middleware, csrf_middleware,
  admit,
}
use teenet_wallet.Handler.Authentication.Admission.{admit-Proves, Proves, Confirms}

-- The token is the header; the texts that begin with "ps_" are those of the session.
abbrev tools : TokenTools
tools = record {
  has_prefix = λ s p. if p == "ps_" then s == "ps_1" else true;
  trim_prefix = λ s p. s;
  trim_space = λ s. s;
  byte_length = λ s. 20;
  take_12 = λ s. s;
  hash_api_key_with_salt = λ key salt. key;
  hash_api_key_legacy = λ key salt. salt;
}

abbrev keys : Table ApiKey
keys = memory_table ApiKey

abbrev rows : Memory ApiKey
rows =
    insert_all
      (record { user_id = 7; key_hash = "ocw_k"; key_salt = "s"; prefix = "ocw_k"; label = "l" }
        ∷ [])
      empty

abbrev sessions : SessionStore
sessions = (set new_session_store "ps_1" 8 1000 "csrf" 0).0

abbrev post : Request
post = record { method = "POST"; authorization = "ps_1"; x_csrf_token = "csrf" }

session_admitted : (admit tools keys true sessions 10 post rows).1 ≡ inl (passkey 8 "ps_1" "csrf")
unfolding admit auth_middleware csrf_middleware get get_csrf set new_session_store
session_admitted = refl

key_admitted :
    (admit tools keys false sessions 10 (record post { authorization = "ocw_k" }) rows).1
    ≡ inl (apikey 7 "ocw_k" "l")
unfolding admit auth_middleware check_key csrf_middleware set new_session_store
key_admitted = refl

key_kept_out :
    (admit tools keys true sessions 10 (record post { authorization = "ocw_k" }) rows).1 ≡ inr 403
unfolding admit auth_middleware check_key csrf_middleware set new_session_store
key_kept_out = refl

admit-Proves_example :
    Proves tools keys sessions 10 rows (extract_bearer tools "ps_1") (passkey 8 "ps_1" "csrf")
    × Confirms true post (passkey 8 "ps_1" "csrf")
admit-Proves_example =
    admit-Proves tools keys true sessions 10 post rows (passkey 8 "ps_1" "csrf") session_admitted
