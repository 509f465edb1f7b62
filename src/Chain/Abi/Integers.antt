-- ===== src/Chain/Abi/Integers.antt =====
-- The integers of chain/abi.go: which values fit a type, and what their words say.
use native.Mathlib.Nat.{pow-le-pow_right}
use teenet_wallet.Base.{
  ℕ, ℤ, pos, negsuc, suc, ◌-◌, ◌^◌, ◌≤◌, ◌<◌, ◌≡◌, refl, ap, true, some, List, leb, arith,
  if◌then◌else◌, ltb, lt→ltb, ltb→lt, leb→le, and_true, Bool-cases, inl, inr, ◌⊎◌,
}
use teenet_wallet.Chain.Abi.Outcome.{AbiResult, ok, refused}
use teenet_wallet.Chain.Abi.Words.{
  Arg, word, to_big_int, unsigned, encode_uint, encode_int256, encode_int_n, fits_int, complement,
  is_integer_size,
}
use teenet_wallet.Chain.Abi.Layout.{be_value, be_value-word}

-- The integers of a signed and of an unsigned type, by its bits.
abbrev pub InSigned : ℕ → ℤ → Type 0
InSigned bits (pos n) = n < 2 ^ (bits - 1)
InSigned bits (negsuc n) = n < 2 ^ (bits - 1)

abbrev pub InUnsigned : ℕ → ℤ → Type 0
InUnsigned bits (pos n) = n < 2 ^ bits
InUnsigned bits (negsuc n) = ⊥

-- A word in two's complement.
abbrev pub signed_value : ℕ → ℤ
signed_value n = if ltb n (2 ^ 255) then pos n else negsuc (2 ^ 256 - n - 1)

-- The value of a word is the given integer.
abbrev pub Writes : (ℕ → ℤ) → ℤ → AbiResult (List ℕ) → Type 0
Writes read v (ok bytes) = read (be_value 0 bytes) ≡ v
Writes read v _ = ⊥

-- A value of the type is written, and any other is refused.
abbrev pub IsExact : Type 0 → (ℕ → ℤ) → ℤ → AbiResult (List ℕ) → Type 0
IsExact InType read v r = (InType × Writes read v r) ⊎ (¬ InType × (r ≡ refused))

word-complement : (v : ℤ) → InSigned 256 v → signed_value (be_value 0 (word (complement v))) ≡ v
word-complement (pos n) h =
    rw (be_value-word n (omega (arith, h))) (rw (lt→ltb n (2 ^ 255) (omega (arith, h))))
word-complement (negsuc n) h =
    rw (be_value-word (2 ^ 256 - suc n) (omega arith))
      (elim (Bool-cases (ltb (2 ^ 256 - suc n) (2 ^ 255))) [
        | inl small ↦ absurd (omega (arith, h, ltb→lt (2 ^ 256 - suc n) (2 ^ 255) small))
        | inr large ↦ rw large (ap negsuc (omega (arith, h)))
      ])

fits_int-InSigned : (bits : ℕ) (v : ℤ) → fits_int bits v ≡ true → InSigned bits v
fits_int-InSigned bits (pos n) e = ltb→lt n (2 ^ (bits - 1)) e
fits_int-InSigned bits (negsuc n) e = ltb→lt n (2 ^ (bits - 1)) e

InSigned-fits_int : (bits : ℕ) (v : ℤ) → InSigned bits v → fits_int bits v ≡ true
InSigned-fits_int bits (pos n) h = lt→ltb n (2 ^ (bits - 1)) h
InSigned-fits_int bits (negsuc n) h = lt→ltb n (2 ^ (bits - 1)) h

InSigned-256 : (bits : ℕ) (v : ℤ) → bits ≤ 256 → InSigned bits v → InSigned 256 v
InSigned-256 bits (pos n) le h =
    omega (arith, h, pow-le-pow_right {n = 2} (omega arith) {i = bits - 1} {j = 255} (omega arith))
InSigned-256 bits (negsuc n) le h =
    omega (arith, h, pow-le-pow_right {n = 2} (omega arith) {i = bits - 1} {j = 255} (omega arith))

encode_int_n-IsExact :
    (bits : ℕ) (arg : Arg) (v : ℤ)
    → bits ≤ 256
    → to_big_int arg ≡ some v
    → IsExact (InSigned bits v) signed_value v (encode_int_n bits arg)
unfolding encode_int_n encode_int256
encode_int_n-IsExact bits arg v le e = rw e (elim (Bool-cases (fits_int bits v)) [
  | inl fits ↦
      let h = fits_int-InSigned bits v fits in
      let h256 = InSigned-256 bits v le h in
      inl (h, rw (fits, InSigned-fits_int 256 v h256) (word-complement v h256))
  | inr not_fits ↦ inr (λ h. cc (InSigned-fits_int bits v h), rw not_fits)
])

encode_unsigned-IsExact :
    (bits : ℕ) (v : ℤ) → bits ≤ 256 → IsExact (InUnsigned bits v) (λ n. pos n) v (unsigned bits v)
encode_unsigned-IsExact bits (negsuc n) le = inr (λ h. h, refl)
encode_unsigned-IsExact bits (pos n) le = elim (Bool-cases (ltb n (2 ^ bits))) [
  | inl fits ↦
      let h = ltb→lt n (2 ^ bits) fits in
      inl (
        h,
        rw fits (
            ap (λ k. pos k)
              (be_value-word n (
                omega (arith, h, pow-le-pow_right {n = 2} (omega arith) {i = bits} {j = 256} le)))),
      )
  | inr large ↦ inr (λ h. cc (lt→ltb n (2 ^ bits) h), rw large)
]

encode_uint-IsExact :
    (bits : ℕ) (arg : Arg) (v : ℤ)
    → bits ≤ 256
    → to_big_int arg ≡ some v
    → IsExact (InUnsigned bits v) (λ n. pos n) v (encode_uint bits arg)
unfolding encode_uint
encode_uint-IsExact bits arg v le e = rw e (encode_unsigned-IsExact bits v le)

-- For every size that the code accepts, an argument that is an integer is encoded by intN and by uintN if
-- it is in the range of the type, and refused if not; the word reads as the integer, in two's complement
-- for intN.
pub encode_integers-IsExact :
    (bits : ℕ) (arg : Arg) (v : ℤ)
    → is_integer_size bits ≡ true
    → to_big_int arg ≡ some v
    → IsExact (InSigned bits v) signed_value v (encode_int_n bits arg)
      × IsExact (InUnsigned bits v) (λ n. pos n) v (encode_uint bits arg)
encode_integers-IsExact bits arg v size e =
    let le = leb→le bits 256 (and_true (leb bits 256) _ (and_true (ltb 0 bits) _ size).1).0 in
    (encode_int_n-IsExact bits arg v le e, encode_uint-IsExact bits arg v le e)
