-- ===== src/Chain/SolProgram/Counting.antt =====
-- How many of the accounts of a Solana program call pass a test, through the merge and the sort of
-- chain/tx_sol.go.
use Prim.Native.String.{String}
use mathlib.Core.List.{reverse, reverse-cons}
use teenet_wallet.Base.{
  ◌+◌, ◌≡◌, refl, ap, sym, ◌∙◌, Bool, false, ◌&&◌, ◌||◌, List, [], ◌∷◌, ◌++◌, ◌==◌, string_eq, ltb,
  arith,
}
use teenet_wallet.Chain.SolProgram.{AccountMeta, has_key, sink, sink_all, sort, count_of}

-- Whether an entry for the key passes the test.
abbrev pub granted : (AccountMeta → Bool) → String → List AccountMeta → Bool
granted p k [] = false
granted p k (x ∷ accts) = ((x.pubkey == k) && p x) || granted p k accts

abbrev pub for_key : (AccountMeta → Bool) → String → AccountMeta → Bool
for_key p k x = (x.pubkey == k) && p x

pub granted-count :
    (p : AccountMeta → Bool) (k : String) (accts : List AccountMeta)
    → granted p k accts ≡ ltb 0 (count_of (for_key p k) accts)
granted-count p k [] = refl
granted-count p k (x ∷ accts) = ground (arith, granted-count p k accts)

pub has_key-count :
    (k : String) (accts : List AccountMeta)
    → has_key k accts ≡ ltb 0 (count_of (λ x. x.pubkey == k) accts)
has_key-count k [] = refl
has_key-count k (x ∷ accts) = ground (arith, has_key-count k accts)

module _ (q : AccountMeta → Bool) where
  pub count_of-append :
      (xs ys : List AccountMeta) → count_of q (xs ++ ys) ≡ count_of q xs + count_of q ys
  count_of-append [] ys = omega arith
  count_of-append (x ∷ xs) ys = ground (arith, count_of-append xs ys)

  count_of-sink :
      (x : AccountMeta) (accts : List AccountMeta)
      → count_of q (sink x accts) ≡ count_of q (x ∷ accts)
  unfolding sink
  count_of-sink x [] = refl
  count_of-sink x (y ∷ accts) = ground (arith, count_of-sink x accts)

  count_of-sink_all :
      (before accts : List AccountMeta)
      → count_of q (sink_all before accts) ≡ count_of q before + count_of q accts
  unfolding sink_all
  count_of-sink_all before [] = omega arith
  count_of-sink_all before (x ∷ accts) =
      let later = count_of-sink_all (sink x before) accts in
      let one = count_of-sink x before in ground arith

  count_of-reverse : (xs : List AccountMeta) → count_of q (reverse xs) ≡ count_of q xs
  count_of-reverse [] = refl
  count_of-reverse (x ∷ xs) =
      let last = count_of-append (reverse xs) (x ∷ []) in
      let rest = count_of-reverse xs in ap (count_of q) (reverse-cons x xs) ∙ ground arith

  pub count_of-sort : (accts : List AccountMeta) → count_of q (sort accts) ≡ count_of q accts
  unfolding sort
  count_of-sort accts =
      let swapped = count_of-reverse (sink_all [] accts) in
      let sunk = count_of-sink_all [] accts in ground arith

-- Sorting keeps what a key is granted.
pub granted-sort :
    (p : AccountMeta → Bool) (k : String) (accts : List AccountMeta)
    → granted p k (sort accts) ≡ granted p k accts
granted-sort p k accts =
    granted-count p k (sort accts)
    ∙ ap (ltb 0) (count_of-sort (for_key p k) accts)
    ∙ sym (granted-count p k accts)

pub has_key-sort :
    (k : String) (accts : List AccountMeta) → has_key k (sort accts) ≡ has_key k accts
has_key-sort k accts =
    has_key-count k (sort accts)
    ∙ ap (ltb 0) (count_of-sort (λ x. x.pubkey == k) accts)
    ∙ sym (has_key-count k accts)
