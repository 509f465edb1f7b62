-- ===== src/Handler/SolWrap/Authority.antt =====
-- What has to hold before UnwrapSOL of handler/wallet.go signs anything.
use teenet_wallet.Base.{ℕ, ◌≡◌, String, Bool, true, Option, none, some, ◌++◌, ◌⊎◌, ◌==◌, string_eq}
use teenet_wallet.Db.{Table}
use teenet_wallet.Model.{IdempotencyRecord, Wallet, ApprovalPolicy}
use teenet_wallet.Chain.EthFees.{BigInts}
use teenet_wallet.Handler.DailyLimit.{BigFloat}
use teenet_wallet.Handler.Approval.World.{Tables, World}
use teenet_wallet.Handler.Facts.{IsOwned, IsPolicyOf}
use teenet_wallet.Handler.Requests.{Caller}
use teenet_wallet.Handler.Idempotency.{RequestKey, check_idempotency}
use teenet_wallet.Handler.Broadcast.{Node, sign_and_broadcast}
use teenet_wallet.Handler.Spend.{Money, Proposal, SpendState}
use teenet_wallet.Handler.Transfer.{Prices}
use teenet_wallet.Handler.Transfer.Build.{ChainConfig}
use teenet_wallet.Handler.SolWrap.{WrapTools, unwrap_proposal}

module _ {fl : BigFloat} (m : Money fl) (prices : Prices m) (tools : WrapTools fl) (by : Caller)
    {t : Tables} where
  -- The caller's ready wallet on a Solana chain, with the transaction that is built to unwrap.
  pub record UnwrapChecks (id : String) (w : World t) (p : Proposal m) (o : Option ApprovalPolicy)
      : Type 0 where
    pub wallet : Wallet
    pub chain : ChainConfig
    pub tx : String × String
    pub owned : IsOwned by id w wallet
    pub ready : (wallet.status == "ready") ≡ true
    pub on_solana : (chain.family == "solana") ≡ true
    pub was_built : tools.build_sol_unwrap_tx wallet.address ≡ some tx
    pub proposed : p ≡ unwrap_proposal m prices tools by wallet chain tx
    pub policy : IsPolicyOf w wallet o

  module _ (ints : BigInts) (node : Node) (hex : String → String) (expiry : ℕ)
      {records : Table IdempotencyRecord} (has_store : Bool) (key : RequestKey) where
    abbrev pub MayUnwrap : SpendState t records → SpendState t records → Type 0
    MayUnwrap s s' =
        (s'.log ≡ s.log)
        ⊎ ((p : Proposal m) × (o : Option ApprovalPolicy) × UnwrapChecks key.wallet_id s.world p o
            × ((o ≡ none) ⊎ (by.is_passkey_auth ≡ true))
            × (check_idempotency records has_store key by.now s.saved ≡ none)
            × (s'.log ≡ s.log ++ (sign_and_broadcast ints node p.wallet p.message p.params).0))
