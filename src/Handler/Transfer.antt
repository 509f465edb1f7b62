-- ===== src/Handler/Transfer.antt =====
-- Transfer of handler/wallet.go: the checks of a request, the transaction that is built for it, its
-- amount in US dollars, and then the policy code.
pub mod Build
pub mod Authority
mod Examples
use teenet_wallet.Base.{
  ℕ, ℤ, lebℤ, String, Bool, true, false, not, ◌&&◌, Option, none, some, inl, inr, ◌⊎◌,
  if◌then◌else◌, ◌==◌, string_eq, ◌>>=◌, ◌>>◌, demand, require,
}
use teenet_wallet.Db.{Table}
use teenet_wallet.Model.{IdempotencyRecord, Wallet, ApprovalPolicy}
use teenet_wallet.Chain.EthFees.{BigInts}
use teenet_wallet.Handler.DailyLimit.{BigFloat, positive}
use teenet_wallet.Handler.Approval.World.{Tables, World}
use teenet_wallet.Handler.Requests.{Caller, load_user_wallet}
use teenet_wallet.Handler.Contract.Address.{AddressTools}
use teenet_wallet.Handler.Nicknames.{resolve_nickname, looks_like_address}
use teenet_wallet.Handler.Idempotency.{RequestKey, check_idempotency}
use teenet_wallet.Handler.Broadcast.{Node}
use teenet_wallet.Handler.Spend.{
  Money, Reply, refused, replayed, Proposal, SpendState, policy_of, answer,
}
use teenet_wallet.Handler.Transfer.Build.{ChainConfig, TokenParams, Builders, Built, build}

-- The body of the request, as bound from its JSON.
pub record TransferRequest : Type 0 where
  pub to : String
  pub amount : String
  pub memo : String
  pub token : Option TokenParams

-- The map that is shown for approval; `contract` is empty for native transfers.
pub record TransferContext : Type 0 where
  pub tx_type : String
  pub from : String
  pub to : String
  pub amount : String
  pub currency : String
  pub memo : String
  pub contract : String

module _ {fl : BigFloat} (m : Money fl) where
  -- The price service; `none` is an error or a price that is not above zero.
  pub record Prices : Type 0 where
    pub has_prices : Bool
    pub usd_price : String → Option m.Price
    pub token_usd_price : String → String → Option m.Price
    pub jupiter_price : String → Option m.Price
    pub price_by_symbol : String → Option m.Price

  abbrev pub at_price : fl.Num → Option m.Price → m.Usd
  at_price amount none = m.zero_usd
  at_price amount (some price) = m.times amount price

  abbrev pub or_else : Option m.Price → Option m.Price → Option m.Price
  or_else none other = other
  or_else (some price) other = some price

  -- The price by the currency, and for a token the prices by its address.
  abbrev pub main_price : Prices → ChainConfig → Built → Option m.Price
  main_price prices chain b = or_else (prices.usd_price b.currency) (
      if b.contract == ""
      then none
      else or_else (prices.token_usd_price chain.name b.contract)
          (if chain.family == "solana" then prices.jupiter_price b.contract else none))

  -- A token without an amount so far is priced by its symbol.
  abbrev pub amount_by_symbol : Prices → Built → fl.Num → m.Usd → m.Usd
  amount_by_symbol prices b amount so_far =
      if m.is_zero so_far && (not (b.contract == "") && not (b.currency == ""))
      then (elim (prices.price_by_symbol b.currency) [
        | none ↦ so_far
        | some price ↦ m.times amount price
      ])
      else so_far

  -- The amount in US dollars, zero if it is unknown or there is no policy.
  unfoldable pub amount_in_usd :
      Prices → ChainConfig → Built → fl.Num → Option ApprovalPolicy → m.Usd
  amount_in_usd prices chain b amount none = m.zero_usd
  amount_in_usd prices chain b amount (some policy) =
      if prices.has_prices
      then amount_by_symbol prices b amount (at_price amount (main_price prices chain b))
      else m.zero_usd

-- The rest that a transfer calls: the registry of chains, strings and encoding/json.
pub record TransferTools : Type 0 where
  pub get_chain : String → Option ChainConfig
  pub equal_fold : String → String → Bool
  pub marshal_context : TransferContext → Option String
  -- The JSON of the response, by the hash.
  pub marshal_response : TransferContext → String → String

module _ {fl : BigFloat} (m : Money fl) (prices : Prices m) (builders : Builders fl)
    (tools : AddressTools) (more : TransferTools) (ints : BigInts) (by : Caller) where
  -- preflightNativeBalance: an error of the node lets the request go on.
  abbrev pub has_native : String → ℤ → Bool
  has_native address required = elim (builders.get_balance address) [
    | none ↦ true
    | some raw ↦ elim (ints.parse_int raw) [ none ↦ true | some have ↦ lebℤ required have ]
  ]

  abbrev pub context_of : TransferRequest → Wallet → Built → TransferContext
  context_of req wallet b = record {
    tx_type = b.tx_type;
    from = wallet.address;
    to = b.to;
    amount = req.amount;
    currency = b.currency;
    memo = req.memo;
    contract = b.contract;
  }

  unfoldable pub proposal_for :
      TransferRequest → Wallet → ChainConfig → Built → fl.Num → Option ApprovalPolicy → Proposal m
  proposal_for req wallet chain b amount policy =
      let usd = amount_in_usd m prices chain b amount policy in
      record {
        wallet = wallet;
        message = b.message;
        params = b.params;
        context = more.marshal_context (context_of req wallet b);
        amount_usd = usd;
        unpriced = m.is_zero usd && (not (b.contract == "") && not by.is_passkey_auth);
        action = "transfer";
        response = more.marshal_response (context_of req wallet b);
      }

  module _ {t : Tables} where
    abbrev pub recipient : TransferRequest → Wallet → ChainConfig → World t → String ⊎ ℕ
    recipient req wallet chain w =
        if looks_like_address tools req.to chain.family
        then inl req.to
        else require (resolve_nickname tools by.user_id req.to wallet.chain w) 400

    -- Everything before the policy code, which changes no state.
    unfoldable pub prepare_with :
        Wallet → TransferRequest → World t → (Proposal m × Option ApprovalPolicy) ⊎ ℕ
    prepare_with wallet req w = do
      amount ← require (positive fl req.amount) 400
      chain ← require (more.get_chain wallet.chain) 400
      to ← recipient req wallet chain w
      demand (not (more.equal_fold to wallet.address)) 400
      b ← build tools ints builders w wallet chain amount to req.token
      demand (has_native wallet.address b.required) 400
      inl (proposal_for req wallet chain b amount (policy_of w wallet), policy_of w wallet)

    -- The body is `none` if its JSON does not bind.
    unfoldable pub prepare :
        String → Option TransferRequest → World t → (Proposal m × Option ApprovalPolicy) ⊎ ℕ
    prepare id body w = do
      wallet ← load_user_wallet by id w
      demand (wallet.status == "ready") 400
      req ← require body 400
      prepare_with wallet req w

    module _ (node : Node) (hex : String → String) (expiry : ℕ) {records : Table IdempotencyRecord}
        (has_store : Bool) (key : RequestKey) where
      unfoldable pub transfer :
          Option TransferRequest → SpendState t records → SpendState t records × Reply
      transfer body s =
          answer m ints node hex expiry has_store by key (prepare key.wallet_id body) s
