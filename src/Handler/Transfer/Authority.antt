-- ===== src/Handler/Transfer/Authority.antt =====
-- What has to hold before Transfer of handler/wallet.go signs anything.
use teenet_wallet.Base.{
  ℕ, ◌≡◌, String, Bool, true, false, Option, none, some, ◌++◌, inl, ◌⊎◌, if◌then◌else◌, ◌==◌,
  string_eq,
}
use teenet_wallet.Db.{Table}
use teenet_wallet.Model.{AllowedContract, IdempotencyRecord, Wallet, ApprovalPolicy}
use teenet_wallet.Chain.EthFees.{BigInts}
use teenet_wallet.Handler.DailyLimit.{BigFloat}
use teenet_wallet.Handler.Approval.World.{Tables, World}
use teenet_wallet.Handler.Facts.{IsOwned, IsListed, IsPolicyOf}
use teenet_wallet.Handler.Requests.{Caller}
use teenet_wallet.Handler.Contract.Address.{AddressTools}
use teenet_wallet.Handler.Idempotency.{RequestKey, check_idempotency}
use teenet_wallet.Handler.Broadcast.{Node, sign_and_broadcast}
use teenet_wallet.Handler.Spend.{Money, Proposal, SpendState}
use teenet_wallet.Handler.Spend.Clearance.{IsCleared}
use teenet_wallet.Handler.Transfer.{
  TransferRequest, Prices, TransferTools, has_native, proposal_for,
}
use teenet_wallet.Handler.Transfer.Build.{ChainConfig, TokenParams, Builders, Built, build}

-- The token of a request is on the whitelist of the wallet's owner for the wallet's chain, with its
-- address trimmed, and in lower case on an EVM chain.
unfoldable pub IsAllowed :
    {t : Tables} → AddressTools → World t → Wallet → ChainConfig → Option TokenParams → Type 0
IsAllowed tools w wallet chain none = Unit {0}
IsAllowed tools w wallet chain (some token) =
    (row : AllowedContract) × IsListed w wallet
      (if chain.family == "evm"
        then tools.to_lower (tools.trim_space token.contract)
        else tools.trim_space token.contract)
      row

module _ {fl : BigFloat} (m : Money fl) (prices : Prices m) (builders : Builders fl)
    (tools : AddressTools) (more : TransferTools) (ints : BigInts) (by : Caller) {t : Tables} where
  -- A request that has passed every check before the policy code, with its wallet, the chain, the
  -- amount, the recipient and the transaction that was built for them.
  pub record Checks (id : String) (body : Option TransferRequest) (w : World t) (p : Proposal m)
      (o : Option ApprovalPolicy) : Type 0 where
    pub req : TransferRequest
    pub bound : body ≡ some req
    pub wallet : Wallet
    pub chain : ChainConfig
    pub amount : fl.Num
    pub to : String
    pub built : Built
    pub owned : IsOwned by id w wallet
    pub ready : (wallet.status == "ready") ≡ true
    pub amount_read : fl.parse req.amount ≡ some amount
    pub amount_positive : fl.is_positive amount ≡ true
    pub chain_known : more.get_chain wallet.chain ≡ some chain
    pub other_address : more.equal_fold to wallet.address ≡ false
    pub token_allowed : IsAllowed tools w wallet chain req.token
    pub was_built : build tools ints builders w wallet chain amount to req.token ≡ inl built
    pub pays_fees :
        has_native m prices builders tools more ints by wallet.address built.required ≡ true
    pub proposed :
        p ≡ proposal_for m prices builders tools more ints by req wallet chain built amount o
    pub policy : IsPolicyOf w wallet o

  module _ (node : Node) (hex : String → String) (expiry : ℕ) {records : Table IdempotencyRecord}
      (has_store : Bool) (key : RequestKey) where
    -- Nothing was signed for this request; or it passed the checks and the policy, and its proposal
    -- went through signAndBroadcast once.
    abbrev pub HasAuthority :
        Option TransferRequest → SpendState t records → SpendState t records → Type 0
    HasAuthority body s s' =
        (s'.log ≡ s.log)
        ⊎ ((p : Proposal m) × (o : Option ApprovalPolicy) × Checks key.wallet_id body s.world p o
            × (check_idempotency records has_store key by.now s.saved ≡ none)
            × IsCleared m by p o s
            × (s'.log ≡ s.log ++ (sign_and_broadcast ints node p.wallet p.message p.params).0))
