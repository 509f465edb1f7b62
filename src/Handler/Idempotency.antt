-- ===== src/Handler/Idempotency.antt =====
-- The responses that handler/idempotency.go keeps for requests that are sent again with their key.
use teenet_wallet.Base.{
  ℕ, ◌+◌, String, Bool, not, ◌&&◌, ◌||◌, Option, none, some, if◌then◌else◌, ◌==◌, nat_eq, string_eq,
  ltb,
}
use teenet_wallet.Db.{Found, found, missing, failed, Table}
use teenet_wallet.Model.{IdempotencyRecord}

-- 24 hours
abbrev pub idempotency_ttl : ℕ
idempotency_ttl = 86400

-- The request that a record answers: its key, its user, and the wallet of its path.
pub record RequestKey : Type 0 where
  pub key : String
  pub user_id : ℕ
  pub wallet_id : String

abbrev pub answers : RequestKey → ℕ → ℕ → IdempotencyRecord → Bool
answers k now id r =
    (r.key == k.key)
    && ((r.user_id == k.user_id) && ((r.wallet_id == k.wallet_id) && ltb now r.expires_at))

abbrev pub cached : Found (ℕ × IdempotencyRecord) → Option (ℕ × String)
cached (found (id, r)) = some (r.status_code, r.response)
cached missing = none
cached failed = none

abbrev pub new_record : RequestKey → ℕ → ℕ → String → IdempotencyRecord
new_record k now status response = record {
  key = k.key;
  user_id = k.user_id;
  wallet_id = k.wallet_id;
  status_code = status;
  response = response;
  expires_at = now + idempotency_ttl;
}

module _ (records : Table IdempotencyRecord) (has_store : Bool) where
  -- CheckIdempotency and Check: the response to send at once.
  unfoldable pub check_idempotency : RequestKey → ℕ → records.Store → Option (ℕ × String)
  check_idempotency k now s =
      if not has_store || (k.key == "") then none else cached (records.find (answers k now) s)

  -- Save, whose conflict is only logged, as respondWithIdempotency calls it.
  unfoldable pub save : RequestKey → ℕ → ℕ → String → records.Store → records.Store
  save k now status response s =
      if has_store && not (k.key == "")
      then (records.create (new_record k now status response) s).0
      else s
