-- ===== src/Chain/Abi/Encode.antt =====
-- EncodeCall of chain/abi.go: values by their type text, and the layout of heads and tails.
use teenet_wallet.Base.{
  ℕ, zero, suc, ◌+◌, Bool, true, false, ◌&&◌, Option, none, some, List, [], ◌∷◌, ◌++◌, length, take,
  replicate, if◌then◌else◌, ◌==◌, nat_eq, leb, ltb,
}
use teenet_wallet.Chain.Abi.Outcome.{
  AbiResult, ok, refused, panicked, out_of_fuel, ◌>>=◌, ◌>>◌, demand, required_value, given,
}
use teenet_wallet.Chain.Abi.Texts.{Text, codes, same_text, before_suffix}
use teenet_wallet.Chain.Abi.Types.{
  split_top_level, parse_param_types, parse_fixed_array, is_dynamic, opens, inside,
}
use teenet_wallet.Chain.Abi.Words.{
  Arg, text, truth, items, Args, nil, cons, word, to_big_int, encode_uint, encode_int256,
  encode_int_n, encode_bytes_n, encode_dynamic_bytes, numbered, is_integer_size,
}

-- What the encoder calls: `strings.TrimSpace`, the bytes of `common.HexToAddress` and Keccak-256.
pub record AbiTools : Type 0 where
  pub trim_space : Text → Text
  pub hex_to_address : Text → List ℕ
  pub keccak256 : Text → List ℕ

-- An encoded argument: in place, or behind an offset.
pub data Piece : Type 0 where
  in_place pointed : List ℕ → Piece

abbrev pub has_pointed : List Piece → Bool
has_pointed [] = false
has_pointed (in_place b ∷ pieces) = has_pointed pieces
has_pointed (pointed b ∷ pieces) = true

abbrev pub head_size : List Piece → ℕ
head_size [] = 0
head_size (in_place b ∷ pieces) = length b + head_size pieces
head_size (pointed b ∷ pieces) = 32 + head_size pieces

-- The heads, where the next tail begins at the offset.
abbrev pub heads : ℕ → List Piece → List ℕ
heads offset [] = []
heads offset (in_place b ∷ pieces) = b ++ heads offset pieces
heads offset (pointed b ∷ pieces) = word offset ++ heads (offset + length b) pieces

abbrev pub tails : List Piece → List ℕ
tails [] = []
tails (in_place b ∷ pieces) = tails pieces
tails (pointed b ∷ pieces) = b ++ tails pieces

abbrev pub in_places : List Piece → List ℕ
in_places [] = []
in_places (in_place b ∷ pieces) = b ++ in_places pieces
in_places (pointed b ∷ pieces) = in_places pieces

unfoldable pub lay_out : List Piece → List ℕ
lay_out pieces =
    if has_pointed pieces then heads (head_size pieces) pieces ++ tails pieces else in_places pieces

-- The arguments one after_prefix the other; `args[i]` panics where there are too few.
abbrev pub encode_each : (Text → Arg → AbiResult Piece) → List Text → Args → AbiResult (List Piece)
encode_each enc [] args = ok []
encode_each enc (typ ∷ types) nil = panicked
encode_each enc (typ ∷ types) (cons arg args) =
    enc typ arg >>= λ p. encode_each enc types args >>= λ pieces. ok (p ∷ pieces)

-- encodeArgs, by the encoder of one argument.
unfoldable pub encode_args : (Text → Arg → AbiResult Piece) → List Text → Args → AbiResult (List ℕ)
unfolding lay_out
encode_args enc types args = encode_each enc types args >>= λ pieces. ok (lay_out pieces)

abbrev pub count : Args → ℕ
count nil = 0
count (cons a args) = suc (count args)

abbrev pub to_slice : Arg → Option Args
to_slice (items args) = some args
to_slice _ = none

abbrev pub encode_address : (Text → List ℕ) → Arg → AbiResult (List ℕ)
encode_address to_address (text s) = ok (replicate 12 0 ++ to_address s)
encode_address to_address _ = refused

abbrev pub encode_bool : Arg → AbiResult (List ℕ)
encode_bool (truth true) = ok (word 1)
encode_bool (truth false) = ok (word 0)
encode_bool _ = refused

abbrev pub encode_string : Arg → AbiResult (List ℕ)
encode_string (text s) = encode_dynamic_bytes (text s)
encode_string _ = refused

module _ (tools : AbiTools) where
  -- In the functions of this block, `enc` encodes an argument of a shorter type.
  module _ (enc : Text → Arg → AbiResult Piece) where
    unfoldable pub encode_tuple : Text → Arg → AbiResult (List ℕ)
    unfolding split_top_level encode_args
    encode_tuple typ arg = do
      inner ← inside typ
      let types = split_top_level tools.trim_space inner
      args ← required_value (to_slice arg)
      demand (count args == length types)
      encode_args enc types args

    unfoldable pub encode_fixed_array : Text → ℕ → Arg → AbiResult (List ℕ)
    unfolding encode_args
    encode_fixed_array elem size arg = do
      args ← required_value (to_slice arg)
      demand (count args == size)
      encode_args enc (replicate size elem) args

    unfoldable pub encode_dynamic_array : Text → Arg → AbiResult (List ℕ)
    unfolding encode_args
    encode_dynamic_array elem arg = do
      args ← required_value (to_slice arg)
      bytes ← encode_args enc (replicate (count args) elem) args
      ok (word (count args) ++ bytes)

    abbrev pub tuple_or_refuse : Text → Arg → AbiResult (List ℕ)
    tuple_or_refuse typ arg = if opens typ then encode_tuple typ arg else refused

    -- The last case of encodeStatic.
    unfoldable pub encode_compound : Text → Arg → AbiResult (List ℕ)
    unfolding encode_tuple encode_fixed_array parse_fixed_array is_dynamic
    encode_compound typ arg =
        given (parse_fixed_array typ)
          (λ array. is_dynamic tools.trim_space array.0 >>= λ dynamic.
            if dynamic then tuple_or_refuse typ arg else encode_fixed_array array.0 array.1 arg)
          (tuple_or_refuse typ arg)

    unfoldable pub encode_static : Text → Arg → AbiResult (List ℕ)
    unfolding encode_uint encode_int256 encode_int_n encode_bytes_n encode_compound
    encode_static typ arg =
        if same_text typ (codes "address")
        then encode_address tools.hex_to_address arg
        else if same_text typ (codes "bool")
        then encode_bool arg
        else if same_text typ (codes "uint256")
        then encode_uint 256 arg
        else if same_text typ (codes "int256")
        then required_value (to_big_int arg) >>= encode_int256
        else given (numbered "uint" typ)
            (λ bits. demand (is_integer_size bits) >> encode_uint bits arg)
            (given (numbered "int" typ)
              (λ bits. demand (is_integer_size bits) >> encode_int_n bits arg)
              (given (numbered "bytes" typ)
                (λ n. demand (ltb 0 n && leb n 32) >> encode_bytes_n n arg)
                (encode_compound typ arg)))

    unfoldable pub encode_dynamic : Text → Arg → AbiResult (List ℕ)
    unfolding encode_dynamic_bytes encode_dynamic_array encode_tuple encode_fixed_array
    encode_dynamic typ arg =
        if same_text typ (codes "bytes")
        then encode_dynamic_bytes arg
        else if same_text typ (codes "string")
        then encode_string arg
        else given (before_suffix (codes "[]") typ) (λ elem. encode_dynamic_array elem arg)
            (given (parse_fixed_array typ) (λ array. encode_fixed_array array.0 array.1 arg)
              (tuple_or_refuse typ arg))

    -- The body of the loop of encodeArgs.
    unfoldable pub encode_piece : Text → Arg → AbiResult Piece
    unfolding is_dynamic encode_static encode_dynamic
    encode_piece typ arg = is_dynamic tools.trim_space typ >>= λ dynamic.
        if dynamic
        then encode_dynamic typ arg >>= (λ b. ok (pointed b))
        else encode_static typ arg >>= (λ b. ok (in_place b))

  -- The recursion of the encoder: every call is on a shorter type.
  unfoldable pub encode_arg : ℕ → Text → Arg → AbiResult Piece
  unfolding encode_piece
  encode_arg zero typ arg = out_of_fuel
  encode_arg (suc fuel) typ arg = encode_piece (encode_arg fuel) typ arg

  unfoldable pub encode_call : Text → Args → AbiResult (List ℕ)
  unfolding parse_param_types
  encode_call func_sig args = do
    types ← parse_param_types tools.trim_space func_sig
    demand (length types == count args)
    encoded ← encode_args (encode_arg (suc (length func_sig))) types args
    ok (take 4 (tools.keccak256 func_sig) ++ encoded)
