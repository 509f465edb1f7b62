-- ===== src/Handler/EmailVerification/Laws.antt =====
-- What VerifyCode of handler/email_verification.go accepts.
use teenet_wallet.Base.{ℕ, ◌≡◌, String, true, false, some, ◌==◌, nat_eq, string_eq, ltb, leb}
use teenet_wallet.Db.{Table}
use teenet_wallet.Handler.EmailVerification.{
  EmailVerification, EmailVerificationConfig, Ordered, EmailTools, unconsumed_for,
}

module _ (tools : EmailTools) (cfg : EmailVerificationConfig) (t : Table EmailVerification)
    (order : Ordered t) where
  -- A code that may still be tried: stored for the address and not consumed, not expired, with
  -- attempts left, and of this code's hash.
  pub record Accepts (email code : String) (now : ℕ) (s : t.Store) : Type 0 where
    pub key : ℕ
    pub row : EmailVerification
    pub stored : t.row key s ≡ some row
    pub for_email : unconsumed_for email key row ≡ true
    pub not_expired : ltb row.expires_at now ≡ false
    pub attempts_left : leb cfg.max_attempts row.attempts ≡ false
    pub same_code : (tools.sha256_hex code == row.code_hash) ≡ true
