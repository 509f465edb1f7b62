-- ===== src/Handler/AddressBook/Entry.antt =====
-- What the handlers of handler/addressbook.go accept in an entry: nicknames, addresses and memos.
use Prim.Native.Char.{code}
use Prim.Native.String.{String}
use teenet_wallet.Base.{
  ℕ, Bool, true, false, ◌&&◌, ◌||◌, Option, none, some, inl, ◌⊎◌, List, if◌then◌else◌, ◌==◌, nat_eq,
  string_eq, leb, length, ◌>>◌, demand,
}
use teenet_wallet.Chain.Base58.{base58_decode}
use teenet_wallet.Handler.Contract.Address.{AddressTools, normalize_evm_address}

-- a to z, 0 to 9
abbrev pub is_lower_alphanumeric : ℕ → Bool
is_lower_alphanumeric c = (leb b'a' c && leb c b'z') || (leb b'0' c && leb c b'9')

abbrev pub is_nickname_char : ℕ → Bool
is_nickname_char c = is_lower_alphanumeric c || ((c == b'_') || (c == b'-'))

abbrev pub all_nickname_chars : String → Bool
all_nickname_chars String.[] = true
all_nickname_chars (String.◌∷◌ c s) = is_nickname_char (code c) && all_nickname_chars s

-- nicknameRe
abbrev pub nickname_matches : String → Bool
nickname_matches String.[] = false
nickname_matches (String.◌∷◌ c s) = is_lower_alphanumeric (code c) && all_nickname_chars s

module _ (tools : AddressTools) where
  unfoldable pub valid_nickname : String → String ⊎ ℕ
  valid_nickname raw = do
    let nickname = tools.to_lower (tools.trim_space raw)
    demand (leb (tools.byte_length nickname) 100) 400
    demand (nickname_matches nickname) 400
    inl nickname

  unfoldable pub valid_memo : String → String ⊎ ℕ
  valid_memo raw = do
    let memo = tools.trim_space raw
    demand (leb (tools.byte_length memo) 256) 400
    inl memo

  abbrev pub of_32_bytes : String → Option (List ℕ) → Option String
  of_32_bytes addr none = none
  of_32_bytes addr (some bytes) = if length bytes == 32 then some addr else none

  -- validateAddress, by the family of the chain.
  unfoldable pub validate_address : String → Option String → Option String
  validate_address addr none = none
  validate_address addr (some family) =
      if family == "solana"
      then of_32_bytes (tools.trim_space addr)
          (base58_decode tools.big_bytes (tools.trim_space addr))
      else normalize_evm_address tools addr
