-- ===== src/Handler/Passkey.antt =====
-- The fresh passkey check of handler/approval.go (verifyFreshPasskey), which guards every sensitive
-- operation. The passkey service is reached through the TEE SDK; a refusal is its HTTP status.
use teenet_wallet.Base.{
  ◌≡◌, refl, ◌⊎◌, inl, inr, ℕ, String, Bool, Option, none, some, if◌then◌else◌, ◌==◌, nat_eq,
}
use teenet_wallet.Db.{Found, found, missing, failed, Table}
use teenet_wallet.Model.{User}

-- The body of a request: the login session and the credential, as far as they were sent.
pub record PasskeyBody : Type 0 where
  pub login_session_id : ℕ
  pub credential : Option String

-- What the check calls: `h.sdk`, and the answer of `PasskeyLoginVerifyAs` to a login session, a
-- credential and the passkey user that it must belong to. `none` is an error of the call.
pub record PasskeyClient : Type 0 where
  pub has_sdk : Bool
  pub test_mode : Bool
  pub marshal : String → Option String
  pub passkey_login_verify_as : ℕ → String → ℕ → Option Bool

pub data Check : Type 0 where
  accepted : Check
  refused : ℕ → Check

pub Check-cases : (c : Check) → (c ≡ accepted) ⊎ ((status : ℕ) × (c ≡ refused status))
Check-cases accepted = inl refl
Check-cases (refused status) = inr (status, refl)

abbrev pub verified : Option Bool → Check
verified none = refused 403
verified (some success) = if success then accepted else refused 403

module _ (sdk : PasskeyClient) (users : Table User) (s : users.Store) (user : ℕ) where
  abbrev verify_as : ℕ → String → Found User → Check
  verify_as login bytes missing = refused 500
  verify_as login bytes failed = refused 500
  verify_as login bytes (found u) =
      verified (sdk.passkey_login_verify_as login bytes u.passkey_user_id)

  abbrev verify_credential : ℕ → Option String → Check
  verify_credential login none = refused 400
  verify_credential login (some credential) =
      if login == 0 then refused 400 else elim (sdk.marshal credential) [
        | none ↦ refused 400
        | some bytes ↦ verify_as login bytes (users.get user s)
      ]

  unfoldable pub verify_fresh_passkey_parsed : ℕ → Option String → Check
  verify_fresh_passkey_parsed login credential =
      if sdk.has_sdk
      then verify_credential login credential
      else if sdk.test_mode
      then accepted
      else refused 422

  abbrev verify_body : Option PasskeyBody → Check
  verify_body none = refused 400
  verify_body (some b) = if b.login_session_id == 0 then refused 400 else elim b.credential [
    | none ↦ refused 400
    | some c ↦ verify_fresh_passkey_parsed b.login_session_id (some c)
  ]

  -- `none` is a body that is not JSON of this form.
  unfoldable pub verify_fresh_passkey : Option PasskeyBody → Check
  unfolding verify_fresh_passkey_parsed
  verify_fresh_passkey body =
      if sdk.has_sdk then verify_body body else if sdk.test_mode then accepted else refused 422
