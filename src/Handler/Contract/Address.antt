-- ===== src/Handler/Contract/Address.antt =====
-- The addresses and decimals that handler/contract.go accepts, with normalizeEVMAddress of
-- handler/helpers.go.
use teenet_wallet.Base.{
  ℕ, ℤ, pos, negsuc, String, Bool, ◌&&◌, Option, none, some, if◌then◌else◌, ◌==◌, nat_eq, string_eq,
  leb, List, length,
}
use teenet_wallet.Model.{AllowedContract}
use teenet_wallet.Chain.Base58.{base58_decode}

-- The packages strings, encoding/hex, encoding/json, the registry of chains, which is read from a
-- file, and the bytes of a big integer (math/big), which Base58Decode calls.
pub record AddressTools : Type 0 where
  pub trim_space : String → String
  pub to_lower : String → String
  pub to_upper : String → String
  -- `strings.ContainsAny`
  pub contains_any : String → String → Bool
  pub has_hex_prefix : String → Bool
  pub byte_length : String → ℕ
  pub is_hex_after_prefix : String → Bool
  pub big_bytes : ℕ → List ℕ
  pub get_chain_family : String → Option String
  pub marshal_contract : AllowedContract → String

-- 0 to 77
abbrev pub valid_decimals : ℤ → Option ℕ
valid_decimals (negsuc n) = none
valid_decimals (pos n) = if leb n 77 then some n else none

abbrev pub zero_address : String
zero_address = "0x0000000000000000000000000000000000000000"

module _ (tools : AddressTools) where
  unfoldable pub normalize_evm_address : String → Option String
  normalize_evm_address raw =
      let addr : String = tools.to_lower (tools.trim_space raw) in
      if tools.has_hex_prefix addr && (tools.byte_length addr == 42)
      then (if tools.is_hex_after_prefix addr then some addr else none)
      else none

  abbrev pub solana_program : String → Option (List ℕ) → Option String
  solana_program addr none = none
  solana_program addr (some pub_key) = if length pub_key == 32 then some addr else none

  abbrev pub nonzero : Option String → Option String
  nonzero none = none
  nonzero (some addr) = if addr == zero_address then none else some addr

  -- The address in the form that is stored, by the family of the chain.
  unfoldable pub contract_address_for : Option String → String → Option String
  unfolding normalize_evm_address
  contract_address_for none raw = none
  contract_address_for (some family) raw =
      if family == "solana"
      then (let addr : String = tools.trim_space raw in
          solana_program addr (base58_decode tools.big_bytes addr))
      else nonzero (normalize_evm_address raw)
