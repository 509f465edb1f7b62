-- ===== src/Handler/AddressBook/Authority.antt =====
-- Who can change the address book of handler/addressbook.go.
use teenet_wallet.Base.{ℕ, ◌≡◌, String, Bool, true, none, some, ◌⊎◌, string_eq}
use teenet_wallet.Db.{Table}
use teenet_wallet.Model.{AddressBookEntry, User}
use teenet_wallet.Handler.Passkey.{
  PasskeyClient, accepted, verify_fresh_passkey, verify_fresh_passkey_parsed,
}
use teenet_wallet.Handler.Approval.World.{Tables, World}
use teenet_wallet.Handler.Contract.Address.{AddressTools}
use teenet_wallet.Handler.Requests.{Caller}
use teenet_wallet.Db.Touches.{Touches}
use teenet_wallet.Handler.AddressBook.{
  Change, adding, updating, EntryRequest, add_entry, update_entry, delete_entry,
}

abbrev pub OfUser : ℕ → AddressBookEntry → Type 0
OfUser user e = e.user_id ≡ user

-- No row is touched but those of the user.
abbrev pub TouchesOwn :
    (addresses : Table AddressBookEntry) → ℕ → addresses.Store → addresses.Store → Type 0
TouchesOwn addresses user s s' =
    (j : ℕ) → Touches (OfUser user) (addresses.row j s) (addresses.row j s')

-- The passkey check accepted the request; entries are added and updated by a passkey session.
unfoldable pub MayEdit :
    (sdk : PasskeyClient) (users : Table User) → users.Store → Caller → EntryRequest → Type 0
MayEdit sdk users us by (add_entry none) = ⊥
MayEdit sdk users us by (add_entry (some req)) =
    (by.is_passkey_auth ≡ true)
    × (verify_fresh_passkey_parsed sdk users us by.user_id req.login_session_id req.credential
        ≡ accepted)
MayEdit sdk users us by (update_entry id none) = ⊥
MayEdit sdk users us by (update_entry id (some req)) =
    (by.is_passkey_auth ≡ true)
    × (verify_fresh_passkey_parsed sdk users us by.user_id req.login_session_id req.credential
        ≡ accepted)
MayEdit sdk users us by (delete_entry id body) =
    verify_fresh_passkey sdk users us by.user_id body ≡ accepted

module _ (sdk : PasskeyClient) (users : Table User) (us : users.Store) (tools : AddressTools)
    (marshal : AddressBookEntry → String) (expiry : ℕ) (conflict : Bool) {t : Tables}
    (by : Caller) where
  -- The address book is as it was, or a check `C` holds and only rows of the user are touched.
  abbrev pub ChangesBy : Type 0 → World t → World t → Type 0
  ChangesBy C w w' =
      (w'.addresses ≡ w.addresses)
      ⊎ (C × TouchesOwn t.addresses by.user_id w.addresses w'.addresses)

  -- The change is of an entry of the user.
  abbrev IsMine : Change → World t → Type 0
  IsMine (adding e) w = OfUser by.user_id e
  IsMine (updating key old new) w =
      (t.addresses.row key w.addresses ≡ some old) × OfUser by.user_id old
