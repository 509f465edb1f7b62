-- ===== src/Chain/Abi/Whole.antt =====
-- What chain/abi.go encodes fills whole words of 32 bytes: elementary values, and heads and tails.
use teenet_wallet.Base.{
  ℕ, zero, suc, ℤ, pos, negsuc, ◌+◌, ◌-◌, ◌/◌, ◌%◌, ◌^◌, ◌≤◌, ◌≡◌, refl, List, [], ◌∷◌, ◌++◌,
  length, length-append, length-replicate, replicate, All, arith, ltb, leb, leb→le, ◌==◌, nat_eq,
  nat_beq_iff, if_ind,
}
use teenet_wallet.Chain.Abi.Outcome.{Meets, Meets-if, Meets-demand, Meets-required}
use teenet_wallet.Chain.Abi.Texts.{codes, without_prefix, decode_hex}
use teenet_wallet.Chain.Abi.Words.{
  Arg, text, be_bytes, word, to_big_int, unsigned, encode_uint, encode_int256, encode_int_n,
  encode_bytes_n, left_aligned, encode_dynamic_bytes, payload, padded, fits_int, complement,
}
use teenet_wallet.Chain.Abi.Encode.{
  Piece, in_place, pointed, has_pointed, head_size, heads, tails, in_places, lay_out,
}

-- A number of bytes that fills words of 32.
abbrev pub IsWhole : List ℕ → Type 0
IsWhole bytes = length bytes % 32 ≡ 0

abbrev pub IsWholePiece : Piece → Type 0
IsWholePiece (in_place bytes) = IsWhole bytes
IsWholePiece (pointed bytes) = IsWhole bytes

pub length-be_bytes : (k n : ℕ) → length (be_bytes k n) ≡ k
unfolding be_bytes
length-be_bytes zero n = refl
length-be_bytes (suc k) n =
    omega (
      arith,
      length-append {0} (be_bytes k (n / 256)) ((n % 256) ∷ []),
      length-be_bytes k (n / 256),
    )

pub length-word : (n : ℕ) → length (word n) ≡ 32
unfolding word
length-word n = length-be_bytes 32 n

pub append-IsWhole : (a b : List ℕ) → IsWhole a → IsWhole b → IsWhole (a ++ b)
append-IsWhole a b h k = omega (arith, length-append {0} a b)

pub word-IsWhole : (n : ℕ) → IsWhole (word n)
word-IsWhole n = omega (arith, length-word n)

heads-IsWhole :
    (offset : ℕ) (pieces : List Piece) → All IsWholePiece pieces → IsWhole (heads offset pieces)
heads-IsWhole offset [] h = refl
heads-IsWhole offset (in_place b ∷ pieces) h =
    append-IsWhole b _ h.0 (heads-IsWhole offset pieces h.1)
heads-IsWhole offset (pointed b ∷ pieces) h =
    append-IsWhole (word offset) _ (word-IsWhole offset)
      (heads-IsWhole (offset + length b) pieces h.1)

tails-IsWhole : (pieces : List Piece) → All IsWholePiece pieces → IsWhole (tails pieces)
tails-IsWhole [] h = refl
tails-IsWhole (in_place b ∷ pieces) h = tails-IsWhole pieces h.1
tails-IsWhole (pointed b ∷ pieces) h = append-IsWhole b _ h.0 (tails-IsWhole pieces h.1)

in_places-IsWhole : (pieces : List Piece) → All IsWholePiece pieces → IsWhole (in_places pieces)
in_places-IsWhole [] h = refl
in_places-IsWhole (in_place b ∷ pieces) h = append-IsWhole b _ h.0 (in_places-IsWhole pieces h.1)
in_places-IsWhole (pointed b ∷ pieces) h = in_places-IsWhole pieces h.1

pub lay_out-IsWhole : (pieces : List Piece) → All IsWholePiece pieces → IsWhole (lay_out pieces)
unfolding lay_out
lay_out-IsWhole pieces h =
    if_ind IsWhole (has_pointed pieces) _ _
      (λ e.
        append-IsWhole (heads (head_size pieces) pieces) _
          (heads-IsWhole (head_size pieces) pieces h) (tails-IsWhole pieces h))
      (λ e. in_places-IsWhole pieces h)

pub encode_int256-IsWhole : (v : ℤ) → Meets IsWhole (encode_int256 v)
unfolding encode_int256
encode_int256-IsWhole v =
    Meets-if IsWhole (fits_int 256 v) _ _ (λ e. word-IsWhole (complement v)) (λ e. tt)

unsigned-IsWhole : (bits : ℕ) (v : ℤ) → Meets IsWhole (unsigned bits v)
unsigned-IsWhole bits (negsuc n) = tt
unsigned-IsWhole bits (pos n) =
    Meets-if IsWhole (ltb n (2 ^ bits)) _ _ (λ e. word-IsWhole n) (λ e. tt)

pub encode_uint-IsWhole : (bits : ℕ) (arg : Arg) → Meets IsWhole (encode_uint bits arg)
unfolding encode_uint
encode_uint-IsWhole bits arg =
    Meets-required IsWhole (to_big_int arg) _ (λ v e. unsigned-IsWhole bits v)

pub encode_int_n-IsWhole : (bits : ℕ) (arg : Arg) → Meets IsWhole (encode_int_n bits arg)
unfolding encode_int_n
encode_int_n-IsWhole bits arg =
    Meets-required IsWhole (to_big_int arg) _
      (λ v e. Meets-demand IsWhole (fits_int bits v) _ (λ e. encode_int256-IsWhole v))

left_aligned-IsWhole : (bytes : List ℕ) → length bytes ≤ 32 → IsWhole (left_aligned bytes)
left_aligned-IsWhole bytes h = omega (
  arith,
  length-append {0} bytes (replicate (32 - length bytes) 0),
  length-replicate {A = ℕ} (32 - length bytes) 0,
)

pub encode_bytes_n-IsWhole : (n : ℕ) (arg : Arg) → n ≤ 32 → Meets IsWhole (encode_bytes_n n arg)
unfolding encode_bytes_n
encode_bytes_n-IsWhole n (text s) h =
    Meets-required IsWhole (decode_hex (without_prefix (codes "0x") s)) _ (λ bytes e.
      Meets-demand IsWhole (leb (length bytes) n) _
        (λ fits. left_aligned-IsWhole bytes (omega (arith, leb→le (length bytes) n fits))))
encode_bytes_n-IsWhole n _ h = tt

padded-IsWhole : (bytes : List ℕ) → IsWhole (padded bytes)
padded-IsWhole bytes =
    if_ind IsWhole (length bytes % 32 == 0) _ _ (λ e. (nat_beq_iff _ _).0 e)
      (λ e. omega (
        arith,
        length-append {0} bytes (replicate (32 - length bytes % 32) 0),
        length-replicate {A = ℕ} (32 - length bytes % 32) 0,
      ))

pub encode_dynamic_bytes-IsWhole : (arg : Arg) → Meets IsWhole (encode_dynamic_bytes arg)
unfolding encode_dynamic_bytes
encode_dynamic_bytes-IsWhole arg = Meets-required IsWhole (payload arg) _ (λ bytes e.
    append-IsWhole (word (length bytes)) _ (word-IsWhole (length bytes)) (padded-IsWhole bytes))
