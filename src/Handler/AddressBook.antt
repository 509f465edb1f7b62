-- ===== src/Handler/AddressBook.antt =====
-- The handlers of handler/addressbook.go that change the address book: AddEntry, UpdateEntry and
-- DeleteEntry. An API key may only propose a change, which becomes an approval.
pub mod Entry
pub mod Authority
mod Examples
use teenet_wallet.Base.{
  ℕ, String, Bool, true, false, not, ◌&&◌, ◌||◌, Option, none, some, inl, inr, ◌⊎◌, if◌then◌else◌,
  ◌==◌, nat_eq, string_eq, ◌>>=◌, ◌>>◌, demand, require,
}
use teenet_wallet.Db.{
  Found, found, missing, failed, Created, created, duplicate, not_created, Table,
}
use teenet_wallet.Model.{AddressBookEntry, ApprovalType, addressbook_add, addressbook_update, User}
use teenet_wallet.Handler.Passkey.{
  PasskeyClient, PasskeyBody, Check, accepted, refused, verify_fresh_passkey,
  verify_fresh_passkey_parsed,
}
use teenet_wallet.Handler.Approval.World.{Tables, World}
use teenet_wallet.Handler.Contract.Address.{AddressTools}
use teenet_wallet.Handler.Nicknames.{entry_of}
use teenet_wallet.Handler.Requests.{Caller, write_audit_ctx, create_pending_approval}
use teenet_wallet.Handler.AddressBook.Entry.{valid_nickname, valid_memo, validate_address}

-- The bodies of the requests, as bound from their JSON.
pub record AddEntryReq : Type 0 where
  pub login_session_id : ℕ
  pub credential : Option String
  pub nickname : String
  pub chain : String
  pub address : String
  pub memo : String

pub record UpdateEntryReq : Type 0 where
  pub login_session_id : ℕ
  pub credential : Option String
  pub nickname : Option String
  pub address : Option String
  pub memo : Option String

abbrev pub is_found {ℓ} : {A : Type ℓ} → Found A → Bool
is_found (found a) = true
is_found missing = false
is_found failed = false

abbrev pub other_entry_of : ℕ → String → String → ℕ → ℕ → AddressBookEntry → Bool
other_entry_of user nickname chain id key e = entry_of user nickname chain key e && not (key == id)

abbrev pub own_entry_at : ℕ → ℕ → ℕ → AddressBookEntry → Bool
own_entry_at id user key e = (key == id) && (e.user_id == user)

-- A change that passed its checks: a new entry, or an entry with its key, before and after.
pub data Change : Type 0 where
  adding : AddressBookEntry → Change
  updating : (key : ℕ) (old new : AddressBookEntry) → Change

abbrev pub is_some {ℓ} : {A : Type ℓ} → Option A → Bool
is_some none = false
is_some (some a) = true

abbrev pub new_address : AddressTools → Option String → AddressBookEntry → String ⊎ ℕ
new_address tools none e = inl e.address
new_address tools (some raw) e =
    require (validate_address tools raw (tools.get_chain_family e.chain)) 400

abbrev pub new_memo : AddressTools → Option String → AddressBookEntry → String ⊎ ℕ
new_memo tools none e = inl e.memo
new_memo tools (some raw) e = valid_memo tools raw

abbrev pub has_field : UpdateEntryReq → Bool
has_field req = is_some req.nickname || (is_some req.address || is_some req.memo)

module _ (tools : AddressTools) {t : Tables} (by : Caller) where
  -- The count of entries, whose error is not looked at, is above zero.
  unfoldable pub check_add : AddEntryReq → World t → AddressBookEntry ⊎ ℕ
  check_add req w = do
    nickname ← valid_nickname tools req.nickname
    family ← require (tools.get_chain_family req.chain) 400
    address ← require (validate_address tools req.address (some family)) 400
    demand (not (is_found (t.addresses.find (entry_of by.user_id nickname req.chain) w.addresses)))
        409
    memo ← valid_memo tools req.memo
    inl (record {
      user_id = by.user_id;
      nickname = nickname;
      chain = req.chain;
      address = address;
      memo = memo;
    })

  abbrev pub new_nickname : Option String → ℕ → AddressBookEntry → World t → String ⊎ ℕ
  new_nickname none id e w = inl e.nickname
  new_nickname (some raw) id e w = do
    nickname ← valid_nickname tools raw
    demand
        (not
          (is_found (t.addresses.find (other_entry_of by.user_id nickname e.chain id) w.addresses)))
        409
    inl nickname

  -- The entry with the fields of the request.
  unfoldable pub check_update :
      UpdateEntryReq → ℕ → AddressBookEntry → World t → AddressBookEntry ⊎ ℕ
  check_update req id e w = do
    nickname ← new_nickname req.nickname id e w
    address ← new_address tools req.address e
    memo ← new_memo tools req.memo e
    demand (has_field req) 400
    inl (record e { nickname = nickname; address = address; memo = memo })

abbrev pub same_entry : AddressBookEntry → AddressBookEntry → Bool
same_entry e f = (e.nickname == f.nickname) && ((e.address == f.address) && (e.memo == f.memo))

abbrev pub kind_of : Change → ApprovalType × String
kind_of (adding e) = (addressbook_add, "addressbook_add")
kind_of (updating key old new) = (addressbook_update, "addressbook_update")

abbrev pub entry_of_change : Change → AddressBookEntry
entry_of_change (adding e) = e
entry_of_change (updating key old new) = new

-- The requests that these handlers serve; a body is `none` if its JSON does not bind, and the
-- identifier of the path if it is no number.
pub data EntryRequest : Type 0 where
  add_entry : Option AddEntryReq → EntryRequest
  update_entry : Option ℕ → Option UpdateEntryReq → EntryRequest
  delete_entry : Option ℕ → Option PasskeyBody → EntryRequest

module _ (sdk : PasskeyClient) (users : Table User) (us : users.Store) (tools : AddressTools)
    (marshal : AddressBookEntry → String) (expiry : ℕ) (conflict : Bool) {t : Tables}
    (by : Caller) where
  abbrev pub entry_asked : String → World t → t.approvals.Store × Created → World t × ℕ
  entry_asked action w (s, duplicate) = (record w { approvals = s }, 500)
  entry_asked action w (s, not_created) = (record w { approvals = s }, 500)
  entry_asked action w (s, created id) =
      (write_audit_ctx by action "pending" none (some id) (record w { approvals = s }), 202)

  abbrev pub entry_created : World t → t.addresses.Store × Created → World t × ℕ
  entry_created w (s, duplicate) = (record w { addresses = s }, 409)
  entry_created w (s, not_created) = (record w { addresses = s }, 500)
  entry_created w (s, created id) =
      (write_audit_ctx by "addressbook_add" "success" none none (record w { addresses = s }), 200)

  -- `conflict` says whether the error of an update is a UNIQUE violation.
  abbrev pub entry_updated : World t → t.addresses.Store × Bool → World t × ℕ
  entry_updated w (s, false) = (record w { addresses = s }, if conflict then 409 else 500)
  entry_updated w (s, true) = (
    write_audit_ctx by "addressbook_update" "success" none none (record w { addresses = s }),
    200,
  )

  abbrev pub apply_change : Change → Check → World t → World t × ℕ
  apply_change change (refused status) w = (w, status)
  apply_change (adding e) accepted w = entry_created w (t.addresses.create e w.addresses)
  apply_change (updating key old new) accepted w =
      entry_updated w (t.addresses.update key (λ _. new) w.addresses)

  unfoldable pub submit_change : Change → ℕ → Option String → World t → World t × ℕ
  submit_change change login credential w =
      if by.is_passkey_auth
      then apply_change change
          (verify_fresh_passkey_parsed sdk users us by.user_id login credential) w
      else entry_asked (kind_of change).1 w (
          create_pending_approval by (kind_of change).0 none (marshal (entry_of_change change))
            expiry w)

  abbrev pub add_checked : AddEntryReq → AddressBookEntry ⊎ ℕ → World t → World t × ℕ
  add_checked req (inr status) w = (w, status)
  add_checked req (inl e) w = submit_change (adding e) req.login_session_id req.credential w

  -- A change that changes nothing is answered at once.
  abbrev pub update_checked :
      UpdateEntryReq → ℕ → AddressBookEntry → AddressBookEntry ⊎ ℕ → World t → World t × ℕ
  update_checked req key e (inr status) w = (w, status)
  update_checked req key e (inl f) w =
      if same_entry f e
      then (w, 200)
      else submit_change (updating key e f) req.login_session_id req.credential w

  abbrev pub update_found :
      Option UpdateEntryReq → Found (ℕ × AddressBookEntry) → World t → World t × ℕ
  update_found body missing w = (w, 404)
  update_found body failed w = (w, 404)
  update_found none (found (key, e)) w = (w, 400)
  update_found (some req) (found (key, e)) w =
      update_checked req key e (check_update tools by req key e w) w

  abbrev pub entry_deleted : World t → t.addresses.Store × Bool → World t × ℕ
  entry_deleted w (s, false) = (record w { addresses = s }, 500)
  entry_deleted w (s, true) = (
    write_audit_ctx by "addressbook_delete" "success" none none (record w { addresses = s }),
    200,
  )

  abbrev pub delete_entry_found : Found (ℕ × AddressBookEntry) → World t → World t × ℕ
  delete_entry_found missing w = (w, 404)
  delete_entry_found failed w = (w, 404)
  delete_entry_found (found (key, e)) w = entry_deleted w (t.addresses.delete key w.addresses)

  abbrev pub delete_entry_checked : Option ℕ → Check → World t → World t × ℕ
  delete_entry_checked id (refused status) w = (w, status)
  delete_entry_checked none accepted w = (w, 400)
  delete_entry_checked (some id) accepted w =
      delete_entry_found (t.addresses.find (own_entry_at id by.user_id) w.addresses) w

  abbrev pub add_bound : Option AddEntryReq → World t → World t × ℕ
  add_bound none w = (w, 400)
  add_bound (some req) w = add_checked req (check_add tools by req w) w

  abbrev pub update_at : Option ℕ → Option UpdateEntryReq → World t → World t × ℕ
  update_at none body w = (w, 400)
  update_at (some id) body w =
      update_found body (t.addresses.find (own_entry_at id by.user_id) w.addresses) w

  -- AddEntry, UpdateEntry and DeleteEntry.
  unfoldable pub handle_entry : EntryRequest → World t → World t × ℕ
  handle_entry (add_entry body) w = add_bound body w
  handle_entry (update_entry id body) w = update_at id body w
  handle_entry (delete_entry id body) w =
      delete_entry_checked id (verify_fresh_passkey sdk users us by.user_id body) w
