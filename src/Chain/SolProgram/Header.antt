-- ===== src/Chain/SolProgram/Header.antt =====
-- The privileges that the header of a Solana message gives by position, and how the header of
-- buildSOLProgramCallMessage of chain/tx_sol.go counts them.
use Prim.Native.String.{String}
use teenet_wallet.Base.{
  ℕ, zero, suc, ◌+◌, ◌-◌, ◌%◌, ◌≤◌, ◌≡◌, refl, ap, sym, ◌∙◌, Bool, not, ◌&&◌, ◌||◌, Option, none,
  some, List, [], ◌∷◌, nat_eq, ltb, leb, arith, length,
}
use teenet_wallet.Chain.SolMessage.Reading.{Message}
use teenet_wallet.Chain.SolProgram.{
  AccountMeta, count_of, num_signers, num_readonly_signed, num_readonly_unsigned, keys_of, decoded,
}
use teenet_wallet.Chain.SolProgram.Encoding.{call_message}
use teenet_wallet.Chain.SolProgram.Bounds.{count_of-le}
use teenet_wallet.Chain.SolProgram.Sorting.{IsSorted, get_elem?, in_below, threshold}

-- The first accounts sign; of these the last are readonly, and so are the last of all.
abbrev pub signs : Message → ℕ → Bool
signs m i = ltb i m.required_signatures

abbrev pub writes : Message → ℕ → Bool
writes m i =
    ltb i (m.required_signatures - m.readonly_signed)
    || (leb m.required_signatures i && ltb i (length m.keys - m.readonly_unsigned))

abbrev pub key_at : List (List ℕ) → ℕ → Option (List ℕ)
key_at [] i = none
key_at (k ∷ ks) zero = some k
key_at (k ∷ ks) (suc i) = key_at ks i

pub length-keys_of :
    (bytes : ℕ → List ℕ) (accts : List AccountMeta) → length (keys_of bytes accts) ≡ length accts
length-keys_of bytes [] = refl
length-keys_of bytes (x ∷ accts) = ap suc (length-keys_of bytes accts)

pub key_at-keys_of :
    (bytes : ℕ → List ℕ) (accts : List AccountMeta) (i : ℕ) (x : AccountMeta)
    → get_elem? accts i ≡ some x
    → key_at (keys_of bytes accts) i ≡ some (decoded bytes x.pubkey)
key_at-keys_of bytes [] i x e = cc
key_at-keys_of bytes (y ∷ accts) zero x e =
    let same : y ≡ x = cc in ap (λ z. some (decoded bytes z.pubkey)) same
key_at-keys_of bytes (y ∷ accts) (suc i) x e = key_at-keys_of bytes accts i x e

signers-below : (accts : List AccountMeta) → num_signers accts ≡ count_of (in_below 2) accts
signers-below [] = refl
signers-below (x ∷ accts) = ground (arith, signers-below accts)

readonly_signed-below :
    (accts : List AccountMeta)
    → num_readonly_signed accts + count_of (in_below 1) accts ≡ num_signers accts
readonly_signed-below [] = omega arith
readonly_signed-below (x ∷ accts) = ground (arith, readonly_signed-below accts)

readonly_unsigned-below :
    (accts : List AccountMeta)
    → num_readonly_unsigned accts + count_of (in_below 3) accts ≡ length accts
readonly_unsigned-below [] = omega arith
readonly_unsigned-below (x ∷ accts) = ground (arith, readonly_unsigned-below accts)

module _ (bytes : ℕ → List ℕ) (program : String) (accounts : List AccountMeta)
    (instr_data blockhash : List ℕ) (sorted : List AccountMeta) (s : IsSorted sorted)
    (small : length sorted ≤ 255) (i : ℕ) (x : AccountMeta) (e : get_elem? sorted i ≡ some x) where
  abbrev m : Message
  m = call_message bytes program accounts instr_data blockhash sorted

  pub signs-call_message : signs m i ≡ x.is_signer
  signs-call_message =
      let at = threshold 2 sorted i x s e in
      let signers = signers-below sorted in
      let le = count_of-le (λ y. y.is_signer) sorted in
      let whole : num_signers sorted % 256 ≡ num_signers sorted = omega (arith, le, small) in
      let here : ltb i (num_signers sorted) ≡ in_below 2 x = ap (ltb i) signers ∙ sym at in
      ap (ltb i) whole ∙ here ∙ ground arith

  -- The two ranges of the writable accounts end where their groups end.
  range_ends :
      (m.required_signatures ≡ count_of (in_below 2) sorted)
      × (m.required_signatures - m.readonly_signed ≡ count_of (in_below 1) sorted)
      × (length m.keys - m.readonly_unsigned ≡ count_of (in_below 3) sorted)
  range_ends =
      let signers = signers-below sorted in
      let signed = readonly_signed-below sorted in
      let unsigned = readonly_unsigned-below sorted in
      let le = count_of-le (λ y. y.is_signer) sorted in
      let keys = length-keys_of bytes sorted in
      (
        omega (arith, signers, le, small),
        omega (arith, signed, le, small),
        omega (arith, unsigned, keys, small),
      )

  pub writes-call_message : writes m i ≡ x.is_writable
  writes-call_message =
      let (two, one, three) = range_ends in
      let first = threshold 1 sorted i x s e in
      let second = threshold 2 sorted i x s e in
      let third = threshold 3 sorted i x s e in
      let ranges : writes m i ≡ (
          ltb i (count_of (in_below 1) sorted)
          || (leb (count_of (in_below 2) sorted) i && ltb i (count_of (in_below 3) sorted))) =
        rw (one, two, three) refl in
      let groups : x.is_writable ≡ (in_below 1 x || (not (in_below 2 x) && in_below 3 x)) =
        ground arith in
      ranges ∙ ground arith
