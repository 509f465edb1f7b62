-- ===== src/Handler/EmailVerification/Examples.antt =====
-- Examples for handler/email_verification.go, on tables in memory: two wrong codes lock a row.
use teenet_wallet.Base.{
  ℕ, ◌≡◌, refl, Bool, true, Option, none, some, List, [], ◌∷◌, if◌then◌else◌, nat_eq, string_eq,
  ltb, arith,
}
use teenet_wallet.Db.{Table}
use teenet_wallet.Db.Memory.{memory_table, Memory, empty, find, find_found}
use teenet_wallet.Model.{User}
use teenet_wallet.Handler.EmailVerification.{
  EmailVerification, EmailVerificationConfig, EmailTools, Ordered, verify_code, send_code, refused,
  code_expired, attempts_exhausted, validate_email_format,
}
use teenet_wallet.Handler.EmailVerification.Attempts.{
  IsLimited, Call, sending, verifying, call, calls, calls-IsLimited,
}

abbrev table : Table EmailVerification
table = memory_table EmailVerification

abbrev drop_if : (EmailVerification → Bool) → Option EmailVerification → Option EmailVerification
drop_if p none = none
drop_if p (some v) = if p v then none else some v

drop_if-kept :
    (p : EmailVerification → Bool) (hit : Bool) (o : Option EmailVerification)
    (r : EmailVerification)
    → (if hit then drop_if p o else none) ≡ some r
    → (if hit then o else none) ≡ some r
drop_if-kept p hit none r e = e
drop_if-kept p hit (some v) r e = ground (arith, e)

abbrev delete_where :
    (ℕ → EmailVerification → Bool) → Memory EmailVerification → Memory EmailVerification × Bool
delete_where p m = (record m { cell = λ j. drop_if (p j) (m.cell j) }, true)

-- A row in memory is found from the last one created.
abbrev order : Ordered table
order = record {
  first_desc = λ f p s. find p s;
  delete_where = delete_where;
  first_desc_found = λ f p s id r e. find_found p s id r e;
  delete_where_row = λ p s j r e. drop_if-kept (p j) (ltb j s.next_id) (s.cell j) r e;
}

abbrev tools : EmailTools
tools = record {
  to_lower = λ s. s;
  trim_space = λ s. s;
  byte_length = λ s. 9;
  count_at = λ s. 1;
  last_at = λ s. some 3;
  suffix = λ s n. s;
  contains_dot = λ s. true;
  sha256_hex = λ s. s;
  send = λ email code. true;
}

abbrev cfg : EmailVerificationConfig
cfg = record { code_ttl = 600; resend_cooldown = 60; max_attempts = 2; fixed_code = "" }

abbrev users : Table User
users = memory_table User

abbrev two_wrong : List Call
two_wrong =
    sending "a@b.c" "123456" 1000
    ∷ verifying "a@b.c" "000000" "v1" 1001
    ∷ verifying "a@b.c" "111111" "v2" 1002
    ∷ []

abbrev locked : Memory EmailVerification
locked = calls tools cfg table order users empty two_wrong empty

-- The right code comes too late.
verify_locked :
    (verify_code tools cfg table order "a@b.c" "123456" "v3" 1003 locked).1
    ≡ refused attempts_exhausted
unfolding verify_code calls call send_code validate_email_format
verify_locked = refl

-- The row is expired then, and is still the one that is found.
verify_after_lock :
    (verify_code tools cfg table order "a@b.c" "123456" "v4" 1004
      (verify_code tools cfg table order "a@b.c" "123456" "v3" 1003 locked).0).1
    ≡ refused code_expired
unfolding verify_code calls call send_code validate_email_format
verify_after_lock = refl

nothing_stored : IsLimited tools cfg table order empty
unfolding IsLimited
nothing_stored j v e = absurd (ground (arith, e))

calls-IsLimited_example : IsLimited tools cfg table order locked
calls-IsLimited_example =
    calls-IsLimited tools cfg table order users empty two_wrong empty nothing_stored
