-- ===== src/Handler/EmailVerification.antt =====
-- The service of handler/email_verification.go: codes sent to an address, checked, looked up and
-- consumed. Times are seconds.
pub mod Laws
pub mod Attempts
mod Examples
use teenet_wallet.Base.{
  ℕ, suc, ◌+◌, ◌-◌, ◌≡◌, String, Bool, true, false, not, ◌&&◌, ◌||◌, Option, none, some,
  if◌then◌else◌, ◌==◌, nat_eq, string_eq, ltb, leb,
}
use teenet_wallet.Db.{
  Found, found, missing, failed, Created, created, duplicate, not_created, Table,
}
use teenet_wallet.Model.{User}

-- model/email_verification.go
pub record EmailVerification : Type 0 where
  pub email : String
  pub code_hash : String
  pub attempts : ℕ
  pub expires_at : ℕ
  pub last_sent_at : ℕ
  pub verified_at : Option ℕ
  pub verification_id : Option String
  pub consumed_at : Option ℕ
  pub created_at : ℕ

pub record EmailVerificationConfig : Type 0 where
  pub code_ttl : ℕ
  pub resend_cooldown : ℕ
  pub max_attempts : ℕ
  -- Empty outside of tests.
  pub fixed_code : String

-- What gorm does beyond a table's operations: the first row of an order, `Order("f DESC")`, and
-- `Where(p).Delete`.
pub record Ordered {Row : Type 0} (t : Table Row) : Type 0 where
  pub first_desc : (Row → ℕ) → (ℕ → Row → Bool) → t.Store → Found (ℕ × Row)
  pub delete_where : (ℕ → Row → Bool) → t.Store → t.Store × Bool
  pub first_desc_found :
      (f : Row → ℕ) (p : ℕ → Row → Bool) (s : t.Store) (id : ℕ) (r : Row)
      → first_desc f p s ≡ found (id, r)
      → (t.row id s ≡ some r) × (p id r ≡ true)
  pub delete_where_row :
      (p : ℕ → Row → Bool) (s : t.Store) (j : ℕ) (r : Row)
      → t.row j (delete_where p s).0 ≡ some r
      → t.row j s ≡ some r

-- The packages strings, crypto and the email sender. The random code and identifier are arguments.
pub record EmailTools : Type 0 where
  pub to_lower : String → String
  pub trim_space : String → String
  pub byte_length : String → ℕ
  pub count_at : String → ℕ
  -- `strings.LastIndex(email, "@")`, which is -1 for `none`.
  pub last_at : String → Option ℕ
  -- `email[i:]`
  pub suffix : String → ℕ → String
  pub contains_dot : String → Bool
  pub sha256_hex : String → String
  pub send : String → String → Bool

-- The sentinel errors, and an error of the database.
pub data Err : Type 0 where
  email_invalid email_already_taken cooldown smtp_send no_pending_code : Err
  code_expired code_invalid attempts_exhausted verification_id_bad db_error : Err

abbrev pub or_default : ℕ → ℕ → ℕ
or_default default n = if n == 0 then default else n

-- NewEmailVerificationService replaces the values that are not positive.
unfoldable pub with_defaults : EmailVerificationConfig → EmailVerificationConfig
with_defaults c = record c {
  code_ttl = or_default 600 c.code_ttl;
  resend_cooldown = or_default 60 c.resend_cooldown;
  max_attempts = or_default 5 c.max_attempts;
}

module _ (tools : EmailTools) where
  abbrev pub normalize_email : String → String
  normalize_email raw = tools.to_lower (tools.trim_space raw)

  abbrev pub valid_at : String → Option ℕ → Bool
  valid_at email none = false
  valid_at email (some at) =
      if leb at 0 || leb (tools.byte_length email - 1) at
      then false
      else tools.contains_dot (tools.suffix email (at + 1))

  unfoldable pub validate_email_format : String → Bool
  validate_email_format email =
      if ltb (tools.byte_length email) 5 || ltb 254 (tools.byte_length email)
      then false
      else if tools.count_at email == 1
      then valid_at email (tools.last_at email)
      else false

abbrev pub is_none {ℓ} : {A : Type ℓ} → Option A → Bool
is_none none = true
is_none (some x) = false

abbrev pub has_email : String → ℕ → User → Bool
has_email email key u = elim u.email [ none ↦ false | some e ↦ e == email ]

abbrev pub live_for : String → ℕ → ℕ → EmailVerification → Bool
live_for email now key v = (v.email == email) && ltb now v.expires_at

abbrev pub stale_for : String → ℕ → ℕ → EmailVerification → Bool
stale_for email now key v = (v.email == email) && leb v.expires_at now

abbrev pub unconsumed_for : String → ℕ → EmailVerification → Bool
unconsumed_for email key v = (v.email == email) && is_none v.consumed_at

abbrev pub is_id : String → Option String → Bool
is_id vid none = false
is_id vid (some v) = v == vid

abbrev pub usable : String → ℕ → ℕ → EmailVerification → Bool
usable vid now key v =
    is_id vid v.verification_id
    && (not (is_none v.verified_at) && (is_none v.consumed_at && ltb now v.expires_at))

abbrev pub count_attempt : EmailVerification → EmailVerification → EmailVerification
count_attempt seen v = record v { attempts = suc seen.attempts }

abbrev pub force_expire : ℕ → EmailVerification → EmailVerification
force_expire now v = record v { expires_at = now - 1 }

abbrev pub set_verified : ℕ → String → EmailVerification → EmailVerification
set_verified now vid v = record v { verified_at = some now; verification_id = some vid }

-- The result of an operation, with the error.
pub data Answer (A : Type 0) : Type 0 where
  returned : A → Answer A
  refused : Err → Answer A

abbrev pub existing_id : EmailVerification → Option String
existing_id v = if is_none v.verified_at then none else v.verification_id

abbrev pub nonempty : Option String → Option String
nonempty none = none
nonempty (some s) = if s == "" then none else some s

module _ (tools : EmailTools) (cfg : EmailVerificationConfig) (t : Table EmailVerification)
    (order : Ordered t) where
  abbrev pub new_row : String → String → ℕ → EmailVerification
  new_row email code now = record {
    email = email;
    code_hash = tools.sha256_hex code;
    attempts = 0;
    expires_at = now + cfg.code_ttl;
    last_sent_at = now;
    verified_at = none;
    verification_id = none;
    consumed_at = none;
    created_at = now;
  }

  -- The transaction: an error of the sender rolls the insert back.
  abbrev pub inserted_and_sent :
      String → String → t.Store → t.Store × Created → t.Store × Answer Unit
  inserted_and_sent email code s (s', duplicate) = (s, refused db_error)
  inserted_and_sent email code s (s', not_created) = (s, refused db_error)
  inserted_and_sent email code s (s', created id) =
      if tools.send email code then (s', returned tt) else (s, refused smtp_send)

  abbrev pub after_sweep : String → String → ℕ → t.Store × Bool → t.Store × Answer Unit
  after_sweep email code now (s, ok) =
      if ok
      then (let c : String = if cfg.fixed_code == "" then code else cfg.fixed_code in
          inserted_and_sent email c s (t.create (new_row email c now) s))
      else (s, refused db_error)

  abbrev pub sweep_and_send : String → String → ℕ → t.Store → t.Store × Answer Unit
  sweep_and_send email code now s =
      after_sweep email code now (order.delete_where (stale_for email now) s)

  abbrev pub after_cooldown :
      String → String → ℕ → Found (ℕ × EmailVerification) → t.Store → t.Store × Answer Unit
  after_cooldown email code now failed s = (s, refused db_error)
  after_cooldown email code now missing s = sweep_and_send email code now s
  after_cooldown email code now (found (key, v)) s =
      if ltb (now - v.last_sent_at) cfg.resend_cooldown
      then (s, refused cooldown)
      else sweep_and_send email code now s

  abbrev pub unless_taken :
      {us : Type 0} → Found us → String → String → ℕ → t.Store → t.Store × Answer Unit
  unless_taken (found u) email code now s = (s, refused email_already_taken)
  unless_taken failed email code now s = (s, refused db_error)
  unless_taken missing email code now s =
      after_cooldown email code now (order.first_desc (λ v. v.last_sent_at) (live_for email now) s)
        s

  -- `code` is the random code, used unless a fixed one is configured.
  unfoldable pub send_code :
      (users : Table User) → users.Store → String → String → ℕ → t.Store → t.Store × Answer Unit
  send_code users us raw code now s =
      let email : String = normalize_email tools raw in
      if validate_email_format tools email
      then unless_taken (users.find (has_email email) us) email code now s
      else (s, refused email_invalid)

  abbrev pub stored_id : String → t.Store × Bool → t.Store × Answer String
  stored_id vid (s, ok) = (s, if ok then returned vid else refused db_error)

  abbrev pub give_id : ℕ → String → ℕ → Option String → t.Store → t.Store × Answer String
  give_id key vid now (some old) s = (s, returned old)
  give_id key vid now none s = stored_id vid (t.update key (set_verified now vid) s)

  abbrev pub check_row :
      String → String → ℕ → Found (ℕ × EmailVerification) → t.Store → t.Store × Answer String
  check_row code vid now missing s = (s, refused no_pending_code)
  check_row code vid now failed s = (s, refused db_error)
  check_row code vid now (found (key, v)) s =
      if ltb v.expires_at now
      then (s, refused code_expired)
      else if leb cfg.max_attempts v.attempts
      then ((t.update key (force_expire now) s).0, refused attempts_exhausted)
      else if tools.sha256_hex code == v.code_hash
      then give_id key vid now (nonempty (existing_id v)) s
      else ((t.update key (count_attempt v) s).0, refused code_invalid)

  -- `vid` is the random identifier.
  unfoldable pub verify_code : String → String → String → ℕ → t.Store → t.Store × Answer String
  verify_code raw code vid now s =
      check_row code vid now
        (order.first_desc (λ v. v.created_at) (unconsumed_for (normalize_email tools raw)) s) s

module _ (t : Table EmailVerification) where
  abbrev pub email_of : Found (ℕ × EmailVerification) → Answer String
  email_of missing = refused verification_id_bad
  email_of failed = refused db_error
  email_of (found (key, v)) = returned v.email

  unfoldable pub lookup_verification : String → ℕ → t.Store → Answer String
  lookup_verification vid now s =
      if vid == "" then refused verification_id_bad else email_of (t.find (usable vid now) s)

  abbrev pub consumed : String → t.Store × Bool → t.Store × Answer String
  consumed email (s, ok) = (s, if ok then returned email else refused db_error)

  abbrev pub consume_row : Found (ℕ × EmailVerification) → t.Store → t.Store × Answer String
  consume_row missing s = (s, refused verification_id_bad)
  consume_row failed s = (s, refused db_error)
  consume_row (found (key, v)) s = consumed v.email (t.delete key s)

  unfoldable pub consume_verification : String → ℕ → t.Store → t.Store × Answer String
  consume_verification vid now s =
      if vid == ""
      then (s, refused verification_id_bad)
      else consume_row (t.find (usable vid now) s) s
