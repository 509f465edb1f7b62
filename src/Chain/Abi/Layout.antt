-- ===== src/Chain/Abi/Layout.antt =====
-- What a reader of the ABI finds in the heads and tails that chain/abi.go lays out.
use native.Mathlib.Nat.{pow-suc}
use teenet_wallet.Base.{
  ℕ, zero, suc, ◌+◌, ◌*◌, ◌/◌, ◌%◌, ◌^◌, ◌≤◌, ◌<◌, ◌≡◌, refl, sym, ap, ◌∙◌, subst, false, List, [],
  ◌∷◌, ◌++◌, length, length-append, take, drop, append_assoc, arith, Bool-cases, inl, inr,
}
use teenet_wallet.Chain.Abi.Outcome.{AbiResult, ok, refused, panicked, out_of_fuel, ◌>>=◌}
use teenet_wallet.Chain.Abi.Texts.{Text}
use teenet_wallet.Chain.Abi.Words.{Arg, Args, be_bytes, word}
use teenet_wallet.Chain.Abi.Encode.{
  Piece, in_place, pointed, has_pointed, head_size, heads, tails, in_places, lay_out, encode_each,
  encode_args,
}
use teenet_wallet.Chain.Abi.Whole.{length-word}

-- The number that bytes write, the highest first.
abbrev pub be_value : ℕ → List ℕ → ℕ
be_value n [] = n
be_value n (b ∷ bytes) = be_value (n * 256 + b) bytes

be_value-append : (n : ℕ) (xs ys : List ℕ) → be_value n (xs ++ ys) ≡ be_value (be_value n xs) ys
be_value-append n [] ys = refl
be_value-append n (x ∷ xs) ys = be_value-append (n * 256 + x) xs ys

be_value-be_bytes : (k n : ℕ) → n < 256 ^ k → be_value 0 (be_bytes k n) ≡ n
unfolding be_bytes
be_value-be_bytes zero n h = omega (arith)
be_value-be_bytes (suc k) n h =
    be_value-append 0 (be_bytes k (n / 256)) ((n % 256) ∷ [])
    ∙ omega (arith, be_value-be_bytes k (n / 256) (omega (arith, h, pow-suc 256 k)))

pub be_value-word : (n : ℕ) → n < 2 ^ 256 → be_value 0 (word n) ≡ n
unfolding word
be_value-word n h = be_value-be_bytes 32 n h

-- The bytes that stand in a list from a position on.
abbrev pub StandsAt : List ℕ → ℕ → List ℕ → Type 0
StandsAt s at bytes = take (length bytes) (drop at s) ≡ bytes

abbrev pub read_word : List ℕ → ℕ → ℕ
read_word s at = be_value 0 (take 32 (drop at s))

-- From a position of the heads on, every argument is found: in place, or where the offset at its head
-- says.
abbrev pub IsFound : List ℕ → ℕ → List Piece → Type 0
IsFound s at [] = Unit
IsFound s at (in_place b ∷ pieces) = StandsAt s at b × IsFound s (at + length b) pieces
IsFound s at (pointed b ∷ pieces) =
    (StandsAt s (read_word s at) b × (at + 32 ≤ read_word s at)) × IsFound s (at + 32) pieces

take-append : (xs ys : List ℕ) → take (length xs) (xs ++ ys) ≡ xs
take-append [] ys = refl
take-append (x ∷ xs) ys = ap (λ t. x ∷ t) (take-append xs ys)

drop-append : (xs ys : List ℕ) → drop (length xs) (xs ++ ys) ≡ ys
drop-append [] ys = refl
drop-append (x ∷ xs) ys = drop-append xs ys

StandsAt-append : (xs b ys : List ℕ) (at : ℕ) → at ≡ length xs → StandsAt (xs ++ (b ++ ys)) at b
StandsAt-append xs b ys at e = rw (e, drop-append xs (b ++ ys)) (take-append b ys)

read_word-word :
    (front rest : List ℕ) (at n : ℕ)
    → at ≡ length front
    → n < 2 ^ 256
    → read_word (front ++ (word n ++ rest)) at ≡ n
read_word-word front rest at n e h =
    rw (e, drop-append front (word n ++ rest))
      (ap (be_value 0) (
          subst (λ k. take k (word n ++ rest) ≡ word n) (length-word n) (take-append (word n) rest))
        ∙ be_value-word n h)

length-heads : (offset : ℕ) (pieces : List Piece) → length (heads offset pieces) ≡ head_size pieces
length-heads offset [] = refl
length-heads offset (in_place b ∷ pieces) =
    omega (arith, length-append {0} b (heads offset pieces), length-heads offset pieces)
length-heads offset (pointed b ∷ pieces) = omega (
  arith,
  length-append {0} (word offset) (heads (offset + length b) pieces),
  length-word offset,
  length-heads (offset + length b) pieces,
)

-- Behind `front`, with the tails of earlier arguments in `before`.
heads-IsFound :
    (front before : List ℕ) (at offset : ℕ) (pieces : List Piece)
    → at ≡ length front
    → offset ≡ at + head_size pieces + length before
    → offset + length (tails pieces) < 2 ^ 256
    → IsFound (front ++ (heads offset pieces ++ (before ++ tails pieces))) at pieces
heads-IsFound front before at offset [] a o h = tt
heads-IsFound front before at offset (in_place b ∷ pieces) a o h =
    let rest : List ℕ = heads offset pieces ++ (before ++ tails pieces) in
    let here : front ++ ((b ++ heads offset pieces) ++ (before ++ tails pieces))
        ≡ front ++ (b ++ rest) =
      simp append_assoc in
    let next : front ++ ((b ++ heads offset pieces) ++ (before ++ tails pieces))
        ≡ (front ++ b) ++ rest =
      simp append_assoc in
    (
      subst (λ s. StandsAt s at b) (sym here) (StandsAt-append front b rest at a),
      subst (λ s. IsFound s (at + length b) pieces) (sym next)
          (heads-IsFound (front ++ b) before (at + length b) offset pieces
            (omega (arith, length-append {0} front b)) (omega arith) h),
    )
heads-IsFound front before at offset (pointed b ∷ pieces) a o h =
    let later : ℕ = offset + length b in
    let all : List ℕ =
      front ++ ((word offset ++ heads later pieces) ++ (before ++ (b ++ tails pieces))) in
    let rest : List ℕ = heads later pieces ++ (before ++ (b ++ tails pieces)) in
    let here : all ≡ front ++ (word offset ++ rest) = simp append_assoc in
    let tail : all
        ≡ (front ++ (word offset ++ (heads later pieces ++ before))) ++ (b ++ tails pieces) =
      simp append_assoc in
    let next : all
        ≡ (front ++ word offset) ++ (heads later pieces ++ ((before ++ b) ++ tails pieces)) =
      simp append_assoc in
    let offset_read : read_word all at ≡ offset = rw here (
      read_word-word front rest at offset a
        (omega (arith, h, length-append {0} b (tails pieces)))) in
    let found : StandsAt all offset b = rw tail (
      StandsAt-append (front ++ (word offset ++ (heads later pieces ++ before))) b (tails pieces)
        offset
        (omega (
          arith,
          length-append {0} front (word offset ++ (heads later pieces ++ before)),
          length-append {0} (word offset) (heads later pieces ++ before),
          length-append {0} (heads later pieces) before,
          length-heads later pieces,
          length-word offset,
        ))) in
    (
      (subst (λ n. StandsAt all n b) (sym offset_read) found, omega (arith, offset_read)),
      subst (λ s. IsFound s (at + 32) pieces) (sym next)
          (heads-IsFound (front ++ word offset) (before ++ b) (at + 32) later pieces
            (omega (arith, length-append {0} front (word offset), length-word offset))
            (omega (arith, length-append {0} before b))
            (omega (arith, h, length-append {0} b (tails pieces)))),
    )

in_places-heads :
    (offset : ℕ) (pieces : List Piece)
    → has_pointed pieces ≡ false
    → in_places pieces ≡ heads offset pieces ++ tails pieces
in_places-heads offset [] e = refl
in_places-heads offset (in_place b ∷ pieces) e =
    ap (λ s. b ++ s) (in_places-heads offset pieces e)
    ∙ sym (append_assoc b (heads offset pieces) (tails pieces))
in_places-heads offset (pointed b ∷ pieces) e = cc

lay_out-heads :
    (pieces : List Piece) → lay_out pieces ≡ heads (head_size pieces) pieces ++ tails pieces
unfolding lay_out
lay_out-heads pieces = elim (Bool-cases (has_pointed pieces)) [
  | inl some_pointed ↦ rw some_pointed
  | inr all_in_place ↦ rw all_in_place (in_places-heads (head_size pieces) pieces all_in_place)
]

lay_out-IsFound :
    (pieces : List Piece) → length (lay_out pieces) < 2 ^ 256 → IsFound (lay_out pieces) 0 pieces
lay_out-IsFound pieces h =
    let e = lay_out-heads pieces in
    rw e (
      heads-IsFound [] [] 0 (head_size pieces) pieces refl (omega arith) (
        omega (
          arith,
          ap length e,
          h,
          length-append {0} (heads (head_size pieces) pieces) (tails pieces),
          length-heads (head_size pieces) pieces,
        )))

-- A result of encodeArgs that is shorter than 2 ^ 256 bytes consists of the encodings of its arguments, and
-- a reader finds each: in place among the heads, in order, or where the offset that its head writes says,
-- which lies behind that head.
pub encode_args-IsFound :
    (enc : Text → Arg → AbiResult Piece) (types : List Text) (args : Args) (result : List ℕ)
    → encode_args enc types args ≡ ok result
    → length result < 2 ^ 256
    → (pieces : List Piece) × (encode_each enc types args ≡ ok pieces) × IsFound result 0 pieces
unfolding encode_args
encode_args-IsFound enc types args result e h = go (encode_each enc types args) refl e
  where
    go :
        (r : AbiResult (List Piece))
        → encode_each enc types args ≡ r
        → (r >>= λ pieces. ok (lay_out pieces)) ≡ ok result
        → (pieces : List Piece) × (encode_each enc types args ≡ ok pieces) × IsFound result 0 pieces
    go (ok pieces) known laid =
        let same : lay_out pieces ≡ result = cc in
        (
          pieces,
          known,
          subst (λ s. IsFound s 0 pieces) same
              (lay_out-IsFound pieces (subst (λ s. length s < 2 ^ 256) (sym same) h)),
        )
    go refused known laid = cc
    go panicked known laid = cc
    go out_of_fuel known laid = cc
