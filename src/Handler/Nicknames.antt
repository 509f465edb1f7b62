-- ===== src/Handler/Nicknames.antt =====
-- The nicknames of handler/addressbook.go, as a transfer resolves them.
use teenet_wallet.Base.{
  ℕ, String, Bool, false, not, ◌&&◌, Option, none, some, if◌then◌else◌, ◌==◌, nat_eq, string_eq,
  leb,
}
use teenet_wallet.Db.{Found, found, missing, failed}
use teenet_wallet.Model.{AddressBookEntry}
use teenet_wallet.Handler.Approval.World.{Tables, World}
use teenet_wallet.Handler.Contract.Address.{AddressTools}

abbrev pub entry_of : ℕ → String → String → ℕ → AddressBookEntry → Bool
entry_of user nickname chain key e =
    (e.user_id == user) && ((e.nickname == nickname) && (e.chain == chain))

abbrev pub entry_address : Found (ℕ × AddressBookEntry) → Option String
entry_address (found (key, e)) = some e.address
entry_address missing = none
entry_address failed = none

module _ (tools : AddressTools) where
  unfoldable pub resolve_nickname : {t : Tables} → ℕ → String → String → World t → Option String
  resolve_nickname {t} user nickname chain w =
      entry_address (t.addresses.find (entry_of user (tools.to_lower nickname) chain) w.addresses)

  -- The text looks like an address of the family, and is not looked up.
  abbrev pub looks_like_address : String → String → Bool
  looks_like_address s family =
      if family == "evm"
      then tools.has_hex_prefix s && (tools.byte_length s == 42)
      else if family == "solana"
      then leb 32 (tools.byte_length s)
        && (leb (tools.byte_length s) 44 && not (tools.contains_any s "_-"))
      else false
