-- ===== src/Chain/CompactU16.antt =====
-- compactU16 of chain/tx_sol.go, against a reader of the format. The bit operations are written as
-- division and remainder; a value out of range panics in Go: `none`.
use teenet_wallet.Base.{
  ℕ, ◌+◌, ◌*◌, ◌/◌, ◌%◌, ◌≤◌, ◌<◌, ◌≡◌, ◌++◌, Option, none, some, List, [], ◌∷◌, if◌then◌else◌, leb,
  ltb, arith, Bool-cases, inl, inr, All,
}

unfoldable pub compact_u16 : ℕ → Option (List ℕ)
compact_u16 v =
    if leb v 65535
    then some (
        if leb v 127
        then v ∷ []
        else if leb v 16383
        then (v % 128 + 128) ∷ (v / 128) ∷ []
        else (v % 128 + 128) ∷ (v / 128 % 128 + 128) ∷ (v / 16384) ∷ [])
    else none

-- The reader of the format: seven bits a byte, the lowest first, and the eighth bit for "more".
abbrev pub read_third : ℕ → List ℕ → Option (ℕ × List ℕ)
read_third low [] = none
read_third low (c ∷ s) = some (low + c * 16384, s)

abbrev pub read_second : ℕ → List ℕ → Option (ℕ × List ℕ)
read_second low [] = none
read_second low (b ∷ s) =
    if ltb b 128 then some (low + b * 128, s) else read_third (low + b % 128 * 128) s

abbrev pub read_compact : List ℕ → Option (ℕ × List ℕ)
read_compact [] = none
read_compact (a ∷ s) = if ltb a 128 then some (a, s) else read_second (a % 128) s

-- Every value of sixteen bits is encoded in bytes, and the reader gives it back with what follows.
pub read-compact_u16 :
    (v : ℕ) (rest : List ℕ)
    → v ≤ 65535
    → (bs : List ℕ) × (compact_u16 v ≡ some bs)
      × All (λ b. b < 256) bs
      × (read_compact (bs ++ rest) ≡ some (v, rest))
unfolding compact_u16
read-compact_u16 v rest h = elim (Bool-cases (leb v 127)) [
  | inl one ↦ (v ∷ [], ground (arith, one, h), ground (arith, one), ground (arith, one))
  | inr more ↦ elim (Bool-cases (leb v 16383)) [
    | inl two ↦ (
      (v % 128 + 128) ∷ (v / 128) ∷ [],
      ground (arith, more, two, h),
      ground (arith, two),
      ground (arith, more, two),
    )
    | inr three ↦ (
      (v % 128 + 128) ∷ (v / 128 % 128 + 128) ∷ (v / 16384) ∷ [],
      ground (arith, more, three, h),
      ground (arith, h),
      ground (arith, three, h),
    )
  ]
]
