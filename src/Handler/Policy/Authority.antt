-- ===== src/Handler/Policy/Authority.antt =====
-- Who can change the policies through SetPolicy and DeletePolicy of handler/wallet.go.
use teenet_wallet.Base.{ℕ, ◌≡◌, String, true, Option, none, some, ◌⊎◌, nat_eq}
use teenet_wallet.Db.{Table}
use teenet_wallet.Model.{ApprovalPolicy, User, Wallet}
use teenet_wallet.Handler.DailyLimit.{BigFloat}
use teenet_wallet.Handler.Passkey.{
  PasskeyClient, accepted, verify_fresh_passkey, verify_fresh_passkey_parsed,
}
use teenet_wallet.Handler.Approval.World.{Tables, World}
use teenet_wallet.Handler.Requests.{Caller}
use teenet_wallet.Handler.Policy.{PolicyRequest, set_policy, delete_policy}
use teenet_wallet.Handler.Policy.Rows.{SetsRow, DropsRow}
use teenet_wallet.Handler.Facts.{IsOwned}
use teenet_wallet.Handler.DailyLimit.Exact.{IsPositive}

-- The passkey check accepted the request; a policy is set by a passkey session, with positive numbers.
unfoldable pub MayChange :
    (fl : BigFloat)
    → (sdk : PasskeyClient) (users : Table User) → users.Store
    → Caller
    → PolicyRequest
    → Type 0
MayChange fl sdk users us by (set_policy none) = ⊥
MayChange fl sdk users us by (set_policy (some req)) =
    ((x : fl.Num) × IsPositive fl req.threshold_usd x)
    × ((req.daily_limit_usd ≡ "") ⊎ ((y : fl.Num) × IsPositive fl req.daily_limit_usd y))
    × (by.is_passkey_auth ≡ true)
    × (verify_fresh_passkey_parsed sdk users us by.user_id req.login_session_id req.credential
        ≡ accepted)
MayChange fl sdk users us by (delete_policy body) =
    verify_fresh_passkey sdk users us by.user_id body ≡ accepted

-- What the request does to a row of the policies, for the wallet.
unfoldable pub ChangesRow :
    PolicyRequest → String → Option ApprovalPolicy → Option ApprovalPolicy → Type 0
ChangesRow (set_policy none) wallet_id old new = ⊥
ChangesRow (set_policy (some req)) wallet_id old new = SetsRow wallet_id req old new
ChangesRow (delete_policy body) wallet_id old new = DropsRow wallet_id old new

module _ (fl : BigFloat) (sdk : PasskeyClient) (users : Table User) (us : users.Store)
    (marshal : ApprovalPolicy → String) (expiry : ℕ) {t : Tables} (by : Caller) where
  -- The policies are as they were, or the request may change them and only those of the wallet are
  -- concerned.
  abbrev pub ChangesBy : PolicyRequest → String → World t → World t → Type 0
  ChangesBy req wallet_id w w' =
      (w'.policies ≡ w.policies)
      ⊎ (MayChange fl sdk users us by req
          × ((j : ℕ)
              → ChangesRow req wallet_id (t.policies.row j w.policies)
                  (t.policies.row j w'.policies)))

  -- The policies are as they were, or the request may change them, the wallet of the path is the
  -- caller's, and no policies but those of this wallet are concerned.
  abbrev pub IsOwnChange : String → PolicyRequest → World t → World t → Type 0
  IsOwnChange id req w w' =
      (w'.policies ≡ w.policies)
      ⊎ (MayChange fl sdk users us by req
          × (wallet : Wallet) × IsOwned by id w wallet
          × ((j : ℕ)
              → ChangesRow req wallet.id (t.policies.row j w.policies)
                  (t.policies.row j w'.policies)))
