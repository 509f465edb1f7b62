-- ===== src/Handler/Contract/Authority.antt =====
-- Who can change the whitelist of handler/contract.go.
use teenet_wallet.Base.{ℕ, ◌≡◌, true, Option, none, some, nat_eq, string_eq}
use teenet_wallet.Db.{Table, map_row}
use teenet_wallet.Model.{AllowedContract, User}
use teenet_wallet.Handler.Passkey.{
  PasskeyClient, accepted, verify_fresh_passkey, verify_fresh_passkey_parsed,
}
use teenet_wallet.Handler.Approval.World.{Tables, World}
use teenet_wallet.Handler.Contract.{
  Request, add_contract, update_contract, delete_contract, set_label,
}
use teenet_wallet.Handler.Requests.{Caller}

-- A row without its label, which is for display only.
abbrev pub terms : Option AllowedContract → Option AllowedContract
terms r = map_row (set_label "") r

-- A handler has changed labels at most.
unfoldable pub KeepsTerms : {t : Tables} → World t → World t → Type 0
KeepsTerms {t} w w' =
    (j : ℕ) → terms (t.contracts.row j w'.contracts) ≡ terms (t.contracts.row j w.contracts)

-- The request passed the passkey check: deleting with any session of the user, adding by a passkey
-- session only.
unfoldable pub HasPasskey :
    (sdk : PasskeyClient) (users : Table User) → users.Store → Caller → Request → Type 0
HasPasskey sdk users us by (add_contract none) = ⊥
HasPasskey sdk users us by (add_contract (some req)) =
    (by.is_passkey_auth ≡ true)
    × (verify_fresh_passkey_parsed sdk users us by.user_id req.login_session_id req.credential
        ≡ accepted)
HasPasskey sdk users us by (update_contract cid body) = ⊥
HasPasskey sdk users us by (delete_contract body cid) =
    verify_fresh_passkey sdk users us by.user_id body ≡ accepted
