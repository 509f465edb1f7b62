-- ===== src/Handler/SolWrap.antt =====
-- WrapSOL and UnwrapSOL of handler/wallet.go, which go through the same policy code as a transfer.
pub mod Authority
mod Examples
use teenet_wallet.Base.{
  ℕ, String, Bool, false, not, Option, none, some, inl, inr, ◌⊎◌, if◌then◌else◌, ◌==◌, string_eq,
  nat_eq, ◌>>=◌, ◌>>◌, demand, require,
}
use teenet_wallet.Db.{Table}
use teenet_wallet.Model.{IdempotencyRecord, Wallet, ApprovalPolicy}
use teenet_wallet.Chain.EthFees.{BigInts}
use teenet_wallet.Handler.DailyLimit.{BigFloat, positive}
use teenet_wallet.Handler.Approval.World.{Tables, World}
use teenet_wallet.Handler.Requests.{Caller, load_user_wallet}
use teenet_wallet.Handler.Idempotency.{RequestKey}
use teenet_wallet.Handler.Broadcast.{Node}
use teenet_wallet.Handler.Spend.{Money, Reply, Proposal, SpendState, policy_of, answer}
use teenet_wallet.Handler.Transfer.{Prices, at_price}
use teenet_wallet.Handler.Transfer.Build.{ChainConfig}

-- What these handlers call: the registry of chains, the builders of the chain package, which ask a
-- node, with the JSON of the parameters and the message, and the JSON of the context, by the
-- kind, the wallet, the amount and the currency, and of the response.
pub record WrapTools (fl : BigFloat) : Type 0 where
  pub get_chain : String → Option ChainConfig
  pub lamports : fl.Num → ℕ
  pub build_sol_wrap_tx : String → ℕ → Option (String × String)
  pub build_sol_unwrap_tx : String → Option (String × String)
  pub marshal_context : String → Wallet → String → String → Option String
  pub marshal_response : String → Wallet → String → String → String

module _ {fl : BigFloat} (m : Money fl) (prices : Prices m) (tools : WrapTools fl)
    (by : Caller) where
  -- The amount in US dollars by the price of the chain's currency, zero if it is unknown.
  abbrev pub wrap_usd : Option ApprovalPolicy → ChainConfig → fl.Num → m.Usd
  wrap_usd none chain amount = m.zero_usd
  wrap_usd (some policy) chain amount =
      if prices.has_prices then at_price m amount (prices.usd_price chain.currency) else m.zero_usd

  abbrev pub wrap_proposal :
      Wallet → ChainConfig → String → fl.Num → String × String → Option ApprovalPolicy → Proposal m
  wrap_proposal wallet chain amount_text amount tx policy = record {
    wallet = wallet;
    message = tx.1;
    params = tx.0;
    context = tools.marshal_context "wrap_sol" wallet amount_text chain.currency;
    amount_usd = wrap_usd policy chain amount;
    unpriced = false;
    action = "wrap_sol";
    response = tools.marshal_response "wrap" wallet amount_text;
  }

  -- The amount is not known, so that an active policy wants an approval, but for a passkey session.
  abbrev pub unwrap_proposal : Wallet → ChainConfig → String × String → Proposal m
  unwrap_proposal wallet chain tx = record {
    wallet = wallet;
    message = tx.1;
    params = tx.0;
    context = tools.marshal_context "unwrap_sol" wallet "" chain.currency;
    amount_usd = m.zero_usd;
    unpriced = not by.is_passkey_auth;
    action = "unwrap_sol";
    response = tools.marshal_response "unwrap" wallet "";
  }

  module _ {t : Tables} where
    -- The checks that both handlers begin with.
    abbrev pub ready_on_solana : String → World t → (Wallet × ChainConfig) ⊎ ℕ
    ready_on_solana id w = do
      wallet ← load_user_wallet by id w
      demand (wallet.status == "ready") 400
      chain ← require (tools.get_chain wallet.chain) 400
      demand (chain.family == "solana") 400
      inl (wallet, chain)

    -- The body is the amount, or `none` if its JSON does not bind.
    unfoldable pub prepare_wrap :
        String → Option String → World t → (Proposal m × Option ApprovalPolicy) ⊎ ℕ
    prepare_wrap id body w = do
      at ← ready_on_solana id w
      text ← require body 400
      amount ← require (positive fl text) 400
      demand (not (tools.lamports amount == 0)) 400
      tx ← require (tools.build_sol_wrap_tx at.0.address (tools.lamports amount)) 422
      let policy = policy_of w at.0
      inl (wrap_proposal at.0 at.1 text amount tx policy, policy)

    unfoldable pub prepare_unwrap : String → World t → (Proposal m × Option ApprovalPolicy) ⊎ ℕ
    prepare_unwrap id w = do
      at ← ready_on_solana id w
      tx ← require (tools.build_sol_unwrap_tx at.0.address) 422
      inl (unwrap_proposal at.0 at.1 tx, policy_of w at.0)

    module _ (ints : BigInts) (node : Node) (hex : String → String) (expiry : ℕ)
        {records : Table IdempotencyRecord} (has_store : Bool) (key : RequestKey) where
      unfoldable pub wrap_sol : Option String → SpendState t records → SpendState t records × Reply
      wrap_sol body s =
          answer m ints node hex expiry has_store by key (prepare_wrap key.wallet_id body) s

      unfoldable pub unwrap_sol : SpendState t records → SpendState t records × Reply
      unwrap_sol s = answer m ints node hex expiry has_store by key (prepare_unwrap key.wallet_id) s
