-- ===== src/Chain/Abi/Erc20.antt =====
-- The call data of ERC-20 transfers and approvals in chain/tx_eth.go, against EncodeCall.
use Prim.Native.String.{String}
use mathlib.Core.Path.{subst₂}
use teenet_wallet.Base.{
  map, suc, sym, ap, ℕ, ℤ, pos, negsuc, ◌^◌, ◌≡◌, refl, List, [], ◌∷◌, ◌++◌, take, replicate,
  if◌then◌else◌, ltb, append-nil, Bool-cases, inl, inr,
}
use teenet_wallet.Chain.Abi.Outcome.{AbiResult, ok, refused, ◌>>=◌}
use teenet_wallet.Chain.Abi.Texts.{Text, codes}
use teenet_wallet.Chain.Abi.Words.{text, big, Args, cons, nil, word}
use teenet_wallet.Chain.Abi.Encode.{AbiTools, encode_call, encode_args, encode_arg}

abbrev pub values : Text → ℤ → Args
values addr amount = cons (text addr) (cons (big amount) nil)

abbrev with_selector : List ℕ → AbiResult (List ℕ) → AbiResult (List ℕ)
with_selector hash r = r >>= λ encoded. ok (take 4 hash ++ encoded)

module _ (tools : AbiTools) where
  abbrev pub addr_amount : Text → Text → ℤ → AbiResult (List ℕ)
  addr_amount hash addr (negsuc n) = refused
  addr_amount hash addr (pos n) =
      if ltb n (2 ^ 256)
      then ok (take 4 hash ++ ((replicate 12 0 ++ tools.hex_to_address addr) ++ word n))
      else refused

  -- encodeAddrAmountCalldata: an amount of more than 32 bytes is refused.
  unfoldable pub encode_addr_amount_calldata : String → Text → ℤ → AbiResult (List ℕ)
  encode_addr_amount_calldata func_sig addr amount =
      addr_amount (tools.keccak256 (codes func_sig)) addr amount

  unfoldable pub encode_erc20_transfer : Text → ℤ → AbiResult (List ℕ)
  unfolding encode_addr_amount_calldata
  encode_erc20_transfer to amount =
      encode_addr_amount_calldata "transfer(address,uint256)" to amount

  unfoldable pub encode_erc20_approve : Text → ℤ → AbiResult (List ℕ)
  unfolding encode_addr_amount_calldata
  encode_erc20_approve spender amount =
      encode_addr_amount_calldata "approve(address,uint256)" spender amount

  encode_values :
      (k : ℕ) (addr hash : Text) (amount : ℤ)
      → addr_amount hash addr amount
        ≡ with_selector hash (
            encode_args
              (encode_arg tools (suc k))
              (codes "address" ∷ codes "uint256" ∷ [])
              (values addr amount))
  unfolding encode_args encode_arg
  encode_values k addr hash (negsuc n) = refl
  encode_values k addr hash (pos n) = elim (Bool-cases (ltb n (2 ^ 256))) [
    | inl fits ↦ rw fits (
        ap (λ e. ok (take 4 hash ++ e))
          (ap (λ s. (replicate 12 0 ++ tools.hex_to_address addr) ++ s)
            (sym (append-nil (word n)))))
    | inr large ↦ rw large
  ]

  -- `strings.TrimSpace` keeps the texts of the two types, which have no space.
  module _ (keeps_address : tools.trim_space (codes "address") ≡ codes "address")
      (keeps_uint256 : tools.trim_space (codes "uint256") ≡ codes "uint256") where
    encode_trimmed :
        (k : ℕ) (addr hash : Text) (amount : ℤ)
        → addr_amount hash addr amount
          ≡ with_selector hash (
              encode_args
                (encode_arg tools (suc k))
                (map tools.trim_space (codes "address" ∷ codes "uint256" ∷ []))
                (values addr amount))
    encode_trimmed k addr hash amount =
        subst₂
          (λ first second.
            addr_amount hash addr amount
            ≡ with_selector hash
                (encode_args (encode_arg tools (suc k)) (first ∷ second ∷ []) (values addr amount)))
          (sym keeps_address) (sym keeps_uint256) (encode_values k addr hash amount)

    -- The call data of ERC-20 transfers and approvals is what EncodeCall encodes for their signatures, where
    -- strings.TrimSpace keeps the texts of the two types; amounts that do not fit are refused by both.
    pub encode_erc20-encode_call :
        (addr : Text) (amount : ℤ)
        → (encode_erc20_transfer addr amount
            ≡ encode_call tools (codes "transfer(address,uint256)") (values addr amount))
          × (encode_erc20_approve addr amount
              ≡ encode_call tools (codes "approve(address,uint256)") (values addr amount))
    unfolding encode_erc20_transfer encode_erc20_approve encode_call
    encode_erc20-encode_call addr amount = (
      encode_trimmed 25 addr (tools.keccak256 (codes "transfer(address,uint256)")) amount,
      encode_trimmed 24 addr (tools.keccak256 (codes "approve(address,uint256)")) amount,
    )
