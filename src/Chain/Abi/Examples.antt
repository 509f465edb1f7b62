-- ===== src/Chain/Abi/Examples.antt =====
-- Examples for chain/abi.go, with a hash and an address of constant bytes.
use teenet_wallet.Base.{
  ℕ, pos, negsuc, ◌≡◌, refl, true, false, some, List, [], ◌∷◌, ◌++◌, replicate, arith, nat_eq,
}
use teenet_wallet.Chain.Abi.Outcome.{ok, refused, panicked, Meets}
use teenet_wallet.Chain.Abi.Texts.{Text, codes}
use teenet_wallet.Chain.Abi.Words.{
  text, truth, big, float, items, Args, nil, cons, to_big_int, encode_int_n, encode_uint, word,
}
use teenet_wallet.Chain.Abi.Encode.{
  AbiTools, Piece, encode_call, encode_args, encode_each, encode_arg,
}
use teenet_wallet.Chain.Abi.Ending.{IsSound, IsCalldata, encode_call-ends}
use teenet_wallet.Chain.Abi.Erc20.{
  values, encode_erc20_transfer, encode_erc20_approve, encode_erc20-encode_call,
}
use teenet_wallet.Chain.Abi.Layout.{IsFound, encode_args-IsFound}
use teenet_wallet.Chain.Abi.Integers.{
  IsExact, InSigned, InUnsigned, signed_value, encode_integers-IsExact,
}

abbrev tools : AbiTools
tools = record {
  trim_space = λ s. s;
  hex_to_address = λ s. replicate 20 7;
  keccak256 = λ s. replicate 32 9;
}

tools-IsSound : IsSound tools
tools-IsSound = record { trims = λ s. omega arith; address_size = λ s. refl }

abbrev transfer_args : Args
transfer_args = cons (text (codes "0xabc")) (cons (text (codes "258")) nil)

encode_call-transfer :
    encode_call tools (codes "transfer(address,uint256)") transfer_args
    ≡ ok (replicate 4 9 ++ (replicate 12 0 ++ (replicate 20 7 ++ (replicate 30 0 ++ (1 ∷ 2 ∷ [])))))
unfolding encode_call encode_args encode_arg word
encode_call-transfer = refl

-- A lone parenthesis as a type panics.
encode_call-paren : encode_call tools (codes "f(()") (cons (truth true) nil) ≡ panicked
unfolding encode_call encode_args encode_arg word
encode_call-paren = refl

-- A string that begins with 0x is read as hexadecimal.
encode_call-hex_string :
    encode_call tools (codes "f(string)") (cons (text (codes "0xhello")) nil) ≡ refused
unfolding encode_call encode_args encode_arg word
encode_call-hex_string = refl

-- A tuple with a dynamic component, an array of two booleans and an integer.
abbrev nested_types : List Text
nested_types = codes "(bytes,uint8)" ∷ codes "bool[2]" ∷ codes "int8" ∷ []

abbrev nested_args : Args
nested_args =
    cons (items (cons (text (codes "abc")) (cons (float (some (pos 5))) nil)))
      (cons (items (cons (truth true) (cons (truth false) nil))) (cons (big (negsuc 0)) nil))

abbrev nested_result : List ℕ
nested_result =
    word 128
    ++ (word 1
        ++ (word 0
            ++ (replicate 32 255
                ++ (word 64 ++ (word 5 ++ (word 3 ++ (codes "abc" ++ replicate 29 0)))))))

nested_encoded : encode_args (encode_arg tools 20) nested_types nested_args ≡ ok nested_result
unfolding encode_args encode_arg word
nested_encoded = refl

encode_args-IsFound_example :
    (pieces : List Piece) × (encode_each (encode_arg tools 20) nested_types nested_args ≡ ok pieces)
    × IsFound nested_result 0 pieces
unfolding word
encode_args-IsFound_example =
    encode_args-IsFound (encode_arg tools 20) nested_types nested_args nested_result nested_encoded
      (omega arith)

encode_call-ends_example :
    Meets
      (IsCalldata tools (codes "transfer(address,uint256)"))
      (encode_call tools (codes "transfer(address,uint256)") transfer_args)
encode_call-ends_example =
    encode_call-ends tools tools-IsSound (codes "transfer(address,uint256)") transfer_args

is_minus_one : to_big_int (text (codes "-1")) ≡ some (negsuc 0)
unfolding to_big_int
is_minus_one = refl

encode_integers-IsExact_example :
    IsExact (InSigned 8 (negsuc 0)) signed_value (negsuc 0) (encode_int_n 8 (text (codes "-1")))
    × IsExact (InUnsigned 8 (negsuc 0)) (λ n. pos n) (negsuc 0) (encode_uint 8 (text (codes "-1")))
encode_integers-IsExact_example =
    encode_integers-IsExact 8 (text (codes "-1")) (negsuc 0) refl is_minus_one

encode_erc20-encode_call_example :
    (encode_erc20_transfer tools (codes "0xabc") (pos 258)
      ≡ encode_call tools (codes "transfer(address,uint256)") (values (codes "0xabc") (pos 258)))
    × (encode_erc20_approve tools (codes "0xabc") (pos 258)
        ≡ encode_call tools (codes "approve(address,uint256)") (values (codes "0xabc") (pos 258)))
encode_erc20-encode_call_example =
    encode_erc20-encode_call tools refl refl (codes "0xabc") (pos 258)
