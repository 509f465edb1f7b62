-- ===== src/Handler/Contract.antt =====
-- The whitelist of handler/contract.go: adding, relabelling and deleting a contract, by wallet and by
-- chain, with the helpers of handler/helpers.go and handler/wallet.go that they call. Deleting asks
-- for a fresh passkey; adding asks for one, or for an approval if it comes with an API key.
pub mod Address
pub mod Authority
mod Examples
use teenet_wallet.Base.{
  ℕ, ℤ, ◌+◌, String, Bool, true, false, ◌&&◌, Option, none, some, inl, inr, ◌⊎◌, if◌then◌else◌,
  ◌==◌, nat_eq, string_eq, leb,
}
use teenet_wallet.Db.{
  Found, found, missing, failed, Created, created, duplicate, not_created, Table,
}
use teenet_wallet.Model.{
  ApprovalRequest, pending, ApprovalType, contract_add, AllowedContract, AuditLog, User, Wallet,
}
use teenet_wallet.Handler.Passkey.{
  PasskeyClient, PasskeyBody, Check, accepted, refused, verify_fresh_passkey,
  verify_fresh_passkey_parsed,
}
use teenet_wallet.Handler.Approval.World.{Tables, World}
use teenet_wallet.Handler.Requests.{
  Caller, write_audit_ctx, create_pending_approval, load_user_wallet,
}
use teenet_wallet.Handler.Contract.Address.{AddressTools, valid_decimals, contract_address_for}

-- The body of a request to add, as bound from its JSON.
pub record ContractAddReq : Type 0 where
  pub login_session_id : ℕ
  pub credential : Option String
  pub contract_address : String
  pub label : String
  pub symbol : String
  pub decimals : ℤ

-- What a handler's first lines find: the user and the chain, and the wallet of the path if any.
pub record Target : Type 0 where
  pub user_id : ℕ
  pub chain : String
  pub wallet_id : Option String

module _ (tools : AddressTools) where
  abbrev pub propose : Target → ContractAddReq → String → ℕ → AllowedContract
  propose at req addr decimals = record {
    user_id = at.user_id;
    chain = at.chain;
    contract_address = addr;
    label = req.label;
    symbol = tools.to_upper (tools.trim_space req.symbol);
    decimals = decimals;
  }

abbrev pub same_contract : AllowedContract → ℕ → AllowedContract → Bool
same_contract p key c =
    (c.user_id == p.user_id) && ((c.chain == p.chain) && (c.contract_address == p.contract_address))

abbrev pub own_contract_on : ℕ → Target → ℕ → AllowedContract → Bool
own_contract_on cid at key c = (key == cid) && ((c.user_id == at.user_id) && (c.chain == at.chain))

abbrev pub set_label : String → AllowedContract → AllowedContract
set_label label c = record c { label = label }

module _ (sdk : PasskeyClient) (users : Table User) (us : users.Store) (tools : AddressTools)
    (expiry : ℕ) {t : Tables} (by : Caller) where
  abbrev pub approval_created : Target → World t → t.approvals.Store × Created → World t × ℕ
  approval_created at w (s, duplicate) = (record w { approvals = s }, 500)
  approval_created at w (s, not_created) = (record w { approvals = s }, 500)
  approval_created at w (s, created id) = (
    write_audit_ctx by "contract_add" "pending" at.wallet_id (some id) (record w { approvals = s }),
    202,
  )

  abbrev pub contract_created : Target → World t → t.contracts.Store × Created → World t × ℕ
  contract_created at w (s, duplicate) = (record w { contracts = s }, 409)
  contract_created at w (s, not_created) = (record w { contracts = s }, 500)
  contract_created at w (s, created id) = (
    write_audit_ctx by "contract_add" "success" at.wallet_id none (record w { contracts = s }),
    200,
  )

  abbrev pub insert_checked : Target → AllowedContract → Check → World t → World t × ℕ
  insert_checked at proposed (refused status) w = (w, status)
  insert_checked at proposed accepted w =
      contract_created at w (t.contracts.create proposed w.contracts)

  unfoldable pub submit : Target → ContractAddReq → AllowedContract → World t → World t × ℕ
  submit at req proposed w =
      if by.is_passkey_auth
      then insert_checked at proposed
          (verify_fresh_passkey_parsed sdk users us by.user_id req.login_session_id req.credential)
          w
      else approval_created at w (
          create_pending_approval by contract_add at.wallet_id (tools.marshal_contract proposed)
            expiry w)

  -- A duplicate is refused; an error of this query lets the request go on.
  abbrev pub unless_existing :
      Target
      → ContractAddReq
      → AllowedContract
      → Found (ℕ × AllowedContract)
      → World t
      → World t × ℕ
  unless_existing at req proposed (found c) w = (w, 409)
  unless_existing at req proposed missing w = submit at req proposed w
  unless_existing at req proposed failed w = submit at req proposed w

  abbrev pub add_valid : Target → ContractAddReq → Option ℕ → Option String → World t → World t × ℕ
  add_valid at req none addr w = (w, 400)
  add_valid at req (some decimals) none w = (w, 400)
  add_valid at req (some decimals) (some addr) w =
      let proposed : AllowedContract = propose tools at req addr decimals in
      unless_existing at req proposed (t.contracts.find (same_contract proposed) w.contracts) w

  -- The body is `none` if its JSON does not bind.
  unfoldable pub add_contract_for : Target → Option ContractAddReq → World t → World t × ℕ
  add_contract_for at none w = (w, 400)
  add_contract_for at (some req) w =
      add_valid at req (valid_decimals req.decimals)
        (contract_address_for tools (tools.get_chain_family at.chain) req.contract_address) w

module _ {t : Tables} (by : Caller) where
  abbrev pub relabelled : Target → World t → t.contracts.Store × Bool → World t × ℕ
  relabelled at w (s, ok) =
      if ok
      then (
        write_audit_ctx by "contract_update" "success" at.wallet_id none
            (record w { contracts = s }),
        200,
      )
      else (record w { contracts = s }, 500)

  abbrev pub relabel_found :
      Target → Option (Option String) → Found (ℕ × AllowedContract) → World t → World t × ℕ
  relabel_found at body missing w = (w, 404)
  relabel_found at body failed w = (w, 404)
  relabel_found at none (found c) w = (w, 400)
  relabel_found at (some none) (found c) w = (w, 400)
  relabel_found at (some (some label)) (found (key, c)) w =
      if label == c.label
      then (w, 200)
      else relabelled at w (t.contracts.update key (set_label label) w.contracts)

  -- The identifier of the path, if it is a number, and the label of the body, if it has one.
  unfoldable pub update_contract_for :
      Target → Option ℕ → Option (Option String) → World t → World t × ℕ
  update_contract_for at none body w = (w, 400)
  update_contract_for at (some cid) body w =
      relabel_found at body (t.contracts.find (own_contract_on cid at) w.contracts) w

module _ {t : Tables} where
  abbrev pub deleted : World t → t.contracts.Store × Bool → World t × ℕ
  deleted w (s, ok) = (record w { contracts = s }, if ok then 200 else 500)

  abbrev pub delete_found : Found (ℕ × AllowedContract) → World t → World t × ℕ
  delete_found missing w = (w, 404)
  delete_found failed w = (w, 404)
  delete_found (found (key, c)) w = deleted w (t.contracts.delete key w.contracts)

  unfoldable pub delete_contract_for : Target → Option ℕ → World t → World t × ℕ
  delete_contract_for at none w = (w, 400)
  delete_contract_for at (some cid) w =
      delete_found (t.contracts.find (own_contract_on cid at) w.contracts) w

-- The wallet of the path, or the chain of the path.
pub data Route : Type 0 where
  by_wallet : String → Route
  by_chain : String → Route

-- The requests that these routes serve.
pub data Request : Type 0 where
  add_contract : Option ContractAddReq → Request
  update_contract : Option ℕ → Option (Option String) → Request
  delete_contract : Option PasskeyBody → Option ℕ → Request

abbrev pub wallet_target : Wallet ⊎ ℕ → Target ⊎ ℕ
wallet_target (inr status) = inr status
wallet_target (inl x) = inl (record { user_id = x.user_id; chain = x.chain; wallet_id = some x.id })

module _ {t : Tables} (by : Caller) where
  unfoldable pub target : Route → World t → Target ⊎ ℕ
  target (by_wallet id) w = wallet_target (load_user_wallet by id w)
  target (by_chain chain) w = inl (record { user_id = by.user_id; chain = chain; wallet_id = none })

abbrev pub on_target {ℓ} : {W : Type ℓ} → (Target → W → W × ℕ) → Target ⊎ ℕ → W → W × ℕ
on_target k (inr status) w = (w, status)
on_target k (inl at) w = k at w

abbrev pub after_check {ℓ} : {W : Type ℓ} → (W → W × ℕ) → Check → W → W × ℕ
after_check k (refused status) w = (w, status)
after_check k accepted w = k w

module _ (sdk : PasskeyClient) (users : Table User) (us : users.Store) (tools : AddressTools)
    (expiry : ℕ) {t : Tables} (by : Caller) where
  -- AddContract, UpdateContract, DeleteContract and their ByChain variants.
  unfoldable pub handle : Route → Request → World t → World t × ℕ
  handle route (add_contract body) w =
      on_target (λ at. add_contract_for sdk users us tools expiry by at body) (target by route w) w
  handle route (update_contract cid body) w =
      on_target (λ at. update_contract_for by at cid body) (target by route w) w
  handle route (delete_contract body cid) w =
      after_check (λ v. on_target (λ at. delete_contract_for at cid) (target by route v) v)
        (verify_fresh_passkey sdk users us by.user_id body) w
