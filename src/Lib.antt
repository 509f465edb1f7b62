-- ===== src/Lib.antt =====
-- TEENet wallet: a wallet service in Go whose keys live in a TEE. Users hold wallets, agents act for
-- them with API keys, and what an agent may not do alone waits for its owner's passkey.
--
-- The parts and how they interact. Requests pass the middlewares of handler/middleware.go, which say who
-- sends them, and the limiters of handler/ratelimit.go. The transfers of handler/wallet.go build a
-- transaction, ask the policy of the wallet, and then sign and broadcast it or leave it as an
-- approval; handler/idempotency.go answers a request that is sent again. The handlers of
-- handler/contract.go and handler/approval.go read and write the rows of model/ through gorm; a
-- sensitive change calls the fresh passkey check of handler/approval.go, or becomes an approval, which
-- Approve later executes: it applies a stored proposal, or rebuilds a transaction, has the TEE sign
-- it, takes its amount from the wallet's daily limit (handler/wallet.go), and broadcasts it. Its
-- outcome goes to the subscribers of the hub of handler/sse_hub.go. Users register through
-- handler/email_verification.go, and their sessions are kept by handler/middleware.go. The chain package
-- builds the messages that the TEE signs.
--
-- The files.
--   Base: names of the libraries passed on, Boolean tests, lists over the native numbers, equality.
--   Db: a table as an interface of operations and laws; Db/Memory, a table that meets it; Db/Touches,
--     statements that touch only rows with a property.
--   Model: the rows of model/*.go.
--   Handler/RateLimit: handler/ratelimit.go. Window runs a limiter on a history of requests and ticks
--     and records its grants; Window/Bound and Refinement hold the proofs.
--   Handler/DailyLimit: checkAndDeductDailyLimitUSD, releaseDailySpentUSD and addDailySpentUSD of
--     handler/wallet.go; Laws and Exact hold the proofs.
--   Handler/Facts: what the proofs of the handlers know of the rows that were looked up.
--   Handler/Passkey: verifyFreshPasskey and verifyFreshPasskeyParsed of handler/approval.go.
--   Handler/Approval: handler/approval.go. World is the state and the outside, Changes the branches of
--     Approve that apply a proposal, Execute the one that signs and broadcasts, Flow the handlers;
--     Handled, AppliedEffects, ExecutedEffects and Locked say what a handler does to the approvals, and
--     Lifecycle, SentOnce and Authority prove what follows.
--   Handler/Requests: the caller, the audit log, createPendingApproval of handler/helpers.go and
--     loadUserWallet of handler/wallet.go.
--   Handler/Contract: handler/contract.go; Address is what it accepts, and Authority holds the proof.
--   Handler/Broadcast: signAndBroadcast of handler/wallet.go; Turns is induction over its loop, and
--     Retries, Payment and Completion hold the proofs.
--   Handler/Spend: what Transfer, WrapSOL and UnwrapSOL of handler/wallet.go do with a built transaction,
--     with createApprovalRequest; Cases lists the ways it can go, Clearance, Counter and Replay hold the
--     proofs, Samples the data of the examples.
--   Handler/Transfer: Transfer of handler/wallet.go up to there; Build is the transaction, Authority the
--     proof. Handler/SolWrap: WrapSOL and UnwrapSOL in the same way.
--   Handler/ContractCall: ContractCall, ApproveToken and RevokeApproval of handler/contract_call.go from the
--     security decision on; Prepare is what comes before, Checks and Authority hold the proofs.
--   Handler/AddressBook: the handlers of handler/addressbook.go; Entry is what they accept, Authority the
--     proof.
--   Handler/Nicknames: ResolveNickname and LooksLikeAddress of handler/addressbook.go.
--   Handler/Policy: SetPolicy and DeletePolicy of handler/wallet.go; Rows and Authority hold the proofs.
--   Handler/Idempotency: handler/idempotency.go.
--   Handler/Authentication: AuthMiddleware, CSRFMiddleware and PasskeyOnlyMiddleware of
--     handler/middleware.go; Admission holds the proof.
--   Handler/EmailVerification: the service of handler/email_verification.go; Laws and Attempts.
--   Handler/SseHub: handler/sse_hub.go; Bounds.
--   Handler/Sessions: the session store of handler/middleware.go; Histories.
--   Chain/Base58, Chain/CompactU16, Chain/SolMessage: base58Decode of chain/address.go, compactU16 and
--     buildSOLMessage of chain/tx_sol.go; SolMessage/Reading is a reader of the format.
--   Chain/SolProgram: buildSOLProgramCallMessage of chain/tx_sol.go. Merging and Collecting are about the
--     merged accounts, Sorting, Counting and Payer about their order, Lookup and Header about the indices
--     and counts, Bounds about sizes, Encoding about the bytes; Giving, Keys,
--     Privileges and Acceptance put these together.
--   Chain/EthFees: BumpETHGas of chain/tx_eth.go and the errors that ask for it; Laws holds the proofs.
--     Tally and Encoding write integers and parameters as texts for the examples.
--   Chain/Abi: chain/abi.go. Texts is what it uses of strings and numbers, Types its type texts, Words the
--     elementary values, Encode the rest; Shrinking, Whole, Ending, Layout and Integers hold the proofs.
--     Abi/Erc20: the call data of tokens in chain/tx_eth.go.
--   Chain/Rpc: the retries and the fallback of chain/rpc.go; Plan.
--   The Examples modules run the definitions on concrete inputs and apply the theorems there.
--
-- How the model corresponds to the code. A handler is a function from the state to the state and the
-- HTTP status of its answer; the fields of a JSON answer are left out. Time is a number of seconds
-- that a call is given. A gorm statement is an operation of a table, which may fail; a row is kept
-- under its primary key. Methods under a mutex are one step, and so is the part of Approve and of
-- Reject under the approval's lock: between a handler's first checks and its lock, others may run. The
-- expiry tick takes no lock in the code and stands between handlers in the model. Numbers of math/big
-- are an abstract type with the operations that the code calls. Every loop is structural recursion,
-- but for the recursion of the ABI encoder on type texts: its fuel is the length of the signature, which is
-- enough since every call is on a shorter text.
--
-- What is outside the repository is a parameter: gorm, math/big, encoding/json, strings, crypto, the TEE
-- SDK and the email sender. The builders of the chain package over RPC, the prices and the registry of
-- chains are parameters of the handlers as well, since they answer from the network or from a file. A
-- TEE and a node answer the calls of signAndBroadcast by their number, so that they may answer each
-- call differently. Its loop has four turns at most in the code, and the model counts them down.
-- Not modelled: the API keys and accounts of handler/auth.go, creating and deleting wallets,
-- prices, and the rest of the chain package; main.go is glue but for the order of
-- its middlewares. A transfer is one step: two transfers, or the lookup and the save of two requests
-- with one idempotency key, do not interleave, and the lock of an address is not modelled. The write of
-- GetApproval, which takes no lock, may come at any later time, but not between the read and the writes of
-- another handler under the lock.
pub mod Base
pub mod Db
pub mod Model
pub mod Handler
pub mod Chain
