-- ===== src/Chain/Abi/Ending.antt =====
-- The encoder of chain/abi.go ends on every input, and gives whole words.
use teenet_wallet.Base.{
  ℕ, zero, suc, ◌%◌, ◌≤◌, ◌<◌, ◌≡◌, refl, Bool, true, false, List, [], ◌∷◌, ◌++◌, length,
  length-append, replicate, take, All, arith, ltb, leb, leb→le, ◌==◌, nat_eq, and_true, ◌&&◌,
}
use teenet_wallet.Chain.Abi.Outcome.{
  AbiResult, Meets, Meets-if, Meets-bind, Meets-demand, Meets-required, Meets-given,
}
use teenet_wallet.Chain.Abi.Texts.{Text, codes, same_text, before_suffix}
use teenet_wallet.Chain.Abi.Types.{
  split_top_level, parse_fixed_array, parse_param_types, is_dynamic_at, is_dynamic, opens, inside,
  any_of, is_plain_dynamic,
}
use teenet_wallet.Chain.Abi.Shrinking.{
  Trims, All-mono, split_top_level-le, inside-lt, parse_fixed_array-lt, parse_param_types-lt,
  length-before,
}
use teenet_wallet.Chain.Abi.Words.{Arg, text, truth, Args, nil, cons, word, to_big_int, numbered}
use teenet_wallet.Chain.Abi.Encode.{
  AbiTools, Piece, encode_each, encode_args, count, to_slice, encode_address, encode_bool,
  encode_string, encode_tuple, encode_fixed_array, encode_dynamic_array, tuple_or_refuse,
  encode_compound, encode_static, encode_dynamic, encode_piece, encode_arg, encode_call,
}
use teenet_wallet.Chain.Abi.Whole.{
  IsWhole, IsWholePiece, word-IsWhole, append-IsWhole, lay_out-IsWhole, encode_int256-IsWhole,
  encode_uint-IsWhole, encode_int_n-IsWhole, encode_bytes_n-IsWhole, encode_dynamic_bytes-IsWhole,
}

-- Some outcome that is not the lack of fuel.
abbrev Ends {ℓ} : {A : Type ℓ} → AbiResult A → Type 0
Ends = Meets (λ a. Unit)

module _ (trim : Text → Text) (trims : Trims trim) where
  any_of-Ends :
      (test : Text → AbiResult Bool) (n : ℕ) (types : List Text)
      → ((t : Text) → length t < n → Ends (test t))
      → All (λ t. length t < n) types
      → Ends (any_of test types)
  any_of-Ends test n [] h l = tt
  any_of-Ends test n (t ∷ types) h l =
      Meets-bind (λ b. Unit) (λ b. Unit) (test t) _ (h t l.0)
        (λ b u. Meets-if (λ c. Unit) b _ _ (λ e. tt) (λ e. any_of-Ends test n types h l.1))

  is_dynamic_at-Ends :
      (fuel : ℕ) (typ : Text) → length typ < fuel → Ends (is_dynamic_at trim fuel typ)
  unfolding is_dynamic_at
  is_dynamic_at-Ends zero typ h = absurd (omega arith)
  is_dynamic_at-Ends (suc fuel) typ h =
      Meets-if (λ b. Unit) (is_plain_dynamic typ) _ _ (λ e. tt)
        (λ e.
          Meets-given (λ b. Unit) (parse_fixed_array typ) _ _
            (λ array found.
              is_dynamic_at-Ends fuel array.0
                (omega (arith, parse_fixed_array-lt typ array.0 array.1 found)))
            (Meets-if (λ b. Unit) (opens typ) _ _
              (λ e.
                Meets-bind (λ inner. suc (length inner) < length typ) (λ b. Unit) (inside typ) _
                  (inside-lt typ)
                  (λ inner shorter.
                    any_of-Ends (is_dynamic_at trim fuel) fuel (split_top_level trim inner)
                      (is_dynamic_at-Ends fuel)
                      (All-mono (λ t. length t ≤ length inner) (λ t. length t < fuel)
                        (λ t le. omega arith) (split_top_level trim inner)
                        (split_top_level-le trim trims inner))))
              (λ e. tt)))

  pub is_dynamic-Ends : (typ : Text) → Ends (is_dynamic trim typ)
  unfolding is_dynamic
  is_dynamic-Ends typ = is_dynamic_at-Ends (suc (length typ)) typ (omega arith)

-- The documented sizes of what is called.
pub record IsSound (tools : AbiTools) : Type 0 where
  pub trims : Trims tools.trim_space
  pub address_size : (s : Text) → length (tools.hex_to_address s) ≡ 20

-- The encoder ends on every argument of a type in the list, with whole words.
abbrev EncodesAll : (Text → Arg → AbiResult Piece) → List Text → Type 0
EncodesAll enc types = All (λ t. (arg : Arg) → Meets IsWholePiece (enc t arg)) types

encode_each-IsWhole :
    (enc : Text → Arg → AbiResult Piece) (types : List Text) (args : Args)
    → EncodesAll enc types
    → Meets (All IsWholePiece) (encode_each enc types args)
encode_each-IsWhole enc [] args h = tt
encode_each-IsWhole enc (typ ∷ types) nil h = tt
encode_each-IsWhole enc (typ ∷ types) (cons arg args) h =
    Meets-bind IsWholePiece (All IsWholePiece) (enc typ arg) _ (h.0 arg) (λ p whole.
      Meets-bind (All IsWholePiece) (All IsWholePiece) (encode_each enc types args) _
        (encode_each-IsWhole enc types args h.1) (λ pieces all. (whole, all)))

encode_args-IsWhole :
    (enc : Text → Arg → AbiResult Piece) (types : List Text) (args : Args)
    → EncodesAll enc types
    → Meets IsWhole (encode_args enc types args)
unfolding encode_args
encode_args-IsWhole enc types args h =
    Meets-bind (All IsWholePiece) IsWhole (encode_each enc types args) _
      (encode_each-IsWhole enc types args h) (λ pieces all. lay_out-IsWhole pieces all)

EncodesAll-replicate :
    (enc : Text → Arg → AbiResult Piece) (elem : Text) (n : ℕ)
    → ((arg : Arg) → Meets IsWholePiece (enc elem arg))
    → EncodesAll enc (replicate n elem)
EncodesAll-replicate enc elem zero h = tt
EncodesAll-replicate enc elem (suc n) h = (h, EncodesAll-replicate enc elem n h)

-- The first four bytes of the hash, and words of 32 bytes.
abbrev pub IsCalldata : AbiTools → Text → List ℕ → Type 0
IsCalldata tools func_sig calldata =
    (words : List ℕ) × (calldata ≡ take 4 (tools.keccak256 func_sig) ++ words)
    × (length words % 32 ≡ 0)

module _ (tools : AbiTools) (sound : IsSound tools) where
  encode_address-IsWhole : (arg : Arg) → Meets IsWhole (encode_address tools.hex_to_address arg)
  encode_address-IsWhole (text s) = omega (
    arith,
    length-append {0} (replicate {A = ℕ} 12 0) (tools.hex_to_address s),
    sound.address_size s,
  )
  encode_address-IsWhole _ = tt

  encode_bool-IsWhole : (arg : Arg) → Meets IsWhole (encode_bool arg)
  encode_bool-IsWhole (truth true) = word-IsWhole 1
  encode_bool-IsWhole (truth false) = word-IsWhole 0
  encode_bool-IsWhole _ = tt

  encode_string-IsWhole : (arg : Arg) → Meets IsWhole (encode_string arg)
  encode_string-IsWhole (text s) = encode_dynamic_bytes-IsWhole (text s)
  encode_string-IsWhole _ = tt

  module _ (enc : Text → Arg → AbiResult Piece) (typ : Text) (arg : Arg)
      (ih : (t : Text) (a : Arg) → length t < length typ → Meets IsWholePiece (enc t a)) where
    encode_tuple-IsWhole : Meets IsWhole (encode_tuple tools enc typ arg)
    unfolding encode_tuple
    encode_tuple-IsWhole =
        Meets-bind (λ inner. suc (length inner) < length typ) IsWhole (inside typ) _ (inside-lt typ)
          (λ inner shorter. Meets-required IsWhole (to_slice arg) _ (λ args e.
            Meets-demand IsWhole _ _ (λ fits.
              encode_args-IsWhole enc (split_top_level tools.trim_space inner) args (
                All-mono (λ t. length t ≤ length inner)
                  (λ t. (a : Arg) → Meets IsWholePiece (enc t a)) (λ t le a. ih t a (omega arith))
                  (split_top_level tools.trim_space inner)
                  (split_top_level-le tools.trim_space sound.trims inner)))))

    encode_fixed_array-IsWhole :
        (elem : Text) (size : ℕ)
        → length elem < length typ
        → Meets IsWhole (encode_fixed_array tools enc elem size arg)
    unfolding encode_fixed_array
    encode_fixed_array-IsWhole elem size shorter =
        Meets-required IsWhole (to_slice arg) _ (λ args e. Meets-demand IsWhole _ _ (λ fits.
          encode_args-IsWhole enc (replicate size elem) args
            (EncodesAll-replicate enc elem size (λ a. ih elem a shorter))))

    encode_dynamic_array-IsWhole :
        (elem : Text)
        → length elem < length typ
        → Meets IsWhole (encode_dynamic_array tools enc elem arg)
    unfolding encode_dynamic_array
    encode_dynamic_array-IsWhole elem shorter = Meets-required IsWhole (to_slice arg) _ (λ args e.
        Meets-bind IsWhole IsWhole (encode_args enc (replicate (count args) elem) args) _
          (encode_args-IsWhole enc (replicate (count args) elem) args
            (EncodesAll-replicate enc elem (count args) (λ a. ih elem a shorter)))
          (λ bytes whole.
            append-IsWhole (word (count args)) bytes (word-IsWhole (count args)) whole))

    tuple_or_refuse-IsWhole : Meets IsWhole (tuple_or_refuse tools enc typ arg)
    tuple_or_refuse-IsWhole = Meets-if IsWhole (opens typ) _ _ (λ e. encode_tuple-IsWhole) (λ e. tt)

    encode_compound-IsWhole : Meets IsWhole (encode_compound tools enc typ arg)
    unfolding encode_compound
    encode_compound-IsWhole =
        Meets-given IsWhole (parse_fixed_array typ) _ _
          (λ array found.
            Meets-bind (λ b. Unit) IsWhole (is_dynamic tools.trim_space array.0) _
              (is_dynamic-Ends tools.trim_space sound.trims array.0)
              (λ dynamic u.
                Meets-if IsWhole dynamic _ _ (λ e. tuple_or_refuse-IsWhole)
                  (λ e.
                    encode_fixed_array-IsWhole array.0 array.1
                      (parse_fixed_array-lt typ array.0 array.1 found))))
          tuple_or_refuse-IsWhole

    encode_static-IsWhole : Meets IsWhole (encode_static tools enc typ arg)
    unfolding encode_static
    encode_static-IsWhole =
        Meets-if IsWhole (same_text typ (codes "address")) _ _ (λ e. encode_address-IsWhole arg)
          (λ e.
            Meets-if IsWhole (same_text typ (codes "bool")) _ _ (λ e. encode_bool-IsWhole arg)
              (λ e.
                Meets-if IsWhole (same_text typ (codes "uint256")) _ _
                  (λ e. encode_uint-IsWhole 256 arg)
                  (λ e.
                    Meets-if IsWhole (same_text typ (codes "int256")) _ _
                      (λ e.
                        Meets-required IsWhole (to_big_int arg) _ (λ v e. encode_int256-IsWhole v))
                      (λ e.
                        Meets-given IsWhole (numbered "uint" typ) _ _
                          (λ bits e. Meets-demand IsWhole _ _ (λ e. encode_uint-IsWhole bits arg))
                          (Meets-given IsWhole (numbered "int" typ) _ _
                            (λ bits e.
                              Meets-demand IsWhole _ _ (λ e. encode_int_n-IsWhole bits arg))
                            (Meets-given IsWhole (numbered "bytes" typ) _ _
                              (λ n e. Meets-demand IsWhole (ltb 0 n && leb n 32) _ (λ e.
                                encode_bytes_n-IsWhole n arg (leb→le n 32 (and_true _ _ e).1)))
                              encode_compound-IsWhole))))))

    encode_dynamic-IsWhole : Meets IsWhole (encode_dynamic tools enc typ arg)
    unfolding encode_dynamic
    encode_dynamic-IsWhole =
        Meets-if IsWhole (same_text typ (codes "bytes")) _ _ (λ e. encode_dynamic_bytes-IsWhole arg)
          (λ e.
            Meets-if IsWhole (same_text typ (codes "string")) _ _ (λ e. encode_string-IsWhole arg)
              (λ e.
                Meets-given IsWhole (before_suffix (codes "[]") typ) _ _
                  (λ elem e.
                    encode_dynamic_array-IsWhole elem
                      (omega (arith, length-before (codes "[]") typ elem e)))
                  (Meets-given IsWhole (parse_fixed_array typ) _ _
                    (λ array e.
                      encode_fixed_array-IsWhole array.0 array.1
                        (parse_fixed_array-lt typ array.0 array.1 e))
                    tuple_or_refuse-IsWhole)))

    encode_piece-IsWhole : Meets IsWholePiece (encode_piece tools enc typ arg)
    unfolding encode_piece
    encode_piece-IsWhole =
        Meets-bind (λ b. Unit) IsWholePiece (is_dynamic tools.trim_space typ) _
          (is_dynamic-Ends tools.trim_space sound.trims typ)
          (λ dynamic u.
            Meets-if IsWholePiece dynamic _ _
              (λ e.
                Meets-bind IsWhole IsWholePiece (encode_dynamic tools enc typ arg) _
                  encode_dynamic-IsWhole (λ b whole. whole))
              (λ e.
                Meets-bind IsWhole IsWholePiece (encode_static tools enc typ arg) _
                  encode_static-IsWhole (λ b whole. whole)))

  encode_arg-IsWhole :
      (fuel : ℕ) (typ : Text) (arg : Arg)
      → length typ < fuel
      → Meets IsWholePiece (encode_arg tools fuel typ arg)
  unfolding encode_arg
  encode_arg-IsWhole zero typ arg h = absurd (omega arith)
  encode_arg-IsWhole (suc fuel) typ arg h =
      encode_piece-IsWhole (encode_arg tools fuel) typ arg
        (λ t a shorter. encode_arg-IsWhole fuel t a (omega arith))

  -- For every signature and all arguments, EncodeCall ends with a result, an error or a panic, where
  -- strings.TrimSpace never returns a longer text and an address has 20 bytes; a result is the first four
  -- bytes of the hash of the signature followed by whole words of 32 bytes.
  pub encode_call-ends :
      (func_sig : Text) (args : Args)
      → Meets (IsCalldata tools func_sig) (encode_call tools func_sig args)
  unfolding encode_call
  encode_call-ends func_sig args =
      let fuel : ℕ = suc (length func_sig) in
      Meets-bind (All (λ t. length t < length func_sig)) (IsCalldata tools func_sig)
        (parse_param_types tools.trim_space func_sig) _
        (parse_param_types-lt tools.trim_space sound.trims func_sig)
        (λ types shorter.
          Meets-demand (IsCalldata tools func_sig) (length types == count args) _ (λ fits.
            Meets-bind IsWhole (IsCalldata tools func_sig)
              (encode_args (encode_arg tools fuel) types args) _
              (encode_args-IsWhole (encode_arg tools fuel) types args (
                All-mono (λ t. length t < length func_sig)
                  (λ t. (a : Arg) → Meets IsWholePiece (encode_arg tools fuel t a))
                  (λ t lt a. encode_arg-IsWhole fuel t a (omega arith)) types shorter))
              (λ words whole. (words, refl, whole))))
