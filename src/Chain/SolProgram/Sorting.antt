-- ===== src/Chain/SolProgram/Sorting.antt =====
-- The sort of buildSOLProgramCallMessage of chain/tx_sol.go, and the places of the groups in what it
-- returns.
use mathlib.Core.List.{reverse, reverse-cons}
use teenet_wallet.Base.{
  ℕ, zero, suc, ◌≤◌, ◌≡◌, refl, sym, subst, inl, inr, Bool, Option, none, some, List, [], ◌∷◌, ◌++◌,
  ltb, arith, Bool-cases, All, All-append,
}
use teenet_wallet.Chain.SolProgram.{AccountMeta, sink, sink_all, sort, count_of, group}

abbrev pub get_elem? : List AccountMeta → ℕ → Option AccountMeta
get_elem? [] i = none
get_elem? (x ∷ xs) zero = some x
get_elem? (x ∷ xs) (suc i) = get_elem? xs i

abbrev pub AtMost : ℕ → AccountMeta → Type 0
AtMost g x = group x ≤ g

abbrev pub AtLeast : ℕ → AccountMeta → Type 0
AtLeast g x = g ≤ group x

abbrev pub IsDescending : List AccountMeta → Type 0
IsDescending [] = Unit
IsDescending (x ∷ xs) = All (AtMost (group x)) xs × IsDescending xs

abbrev pub IsSorted : List AccountMeta → Type 0
IsSorted [] = Unit
IsSorted (x ∷ xs) = All (AtLeast (group x)) xs × IsSorted xs

AtMost-mono : (g h : ℕ) (xs : List AccountMeta) → g ≤ h → All (AtMost g) xs → All (AtMost h) xs
AtMost-mono g h [] le a = a
AtMost-mono g h (x ∷ xs) le a = (omega (arith, le, a.0), AtMost-mono g h xs le a.1)

All-sink :
    (P : AccountMeta → Type 0) (x : AccountMeta) (xs : List AccountMeta)
    → P x
    → All P xs
    → All P (sink x xs)
unfolding sink
All-sink P x [] h a = (h, a)
All-sink P x (y ∷ xs) h a = elim (Bool-cases (ltb (group x) (group y))) [
  | inl lt ↦ rw (lt) (a.0, All-sink P x xs h a.1)
  | inr ge ↦ rw (ge) (h, a)
]

sink-IsDescending :
    (x : AccountMeta) (xs : List AccountMeta) → IsDescending xs → IsDescending (sink x xs)
unfolding sink
sink-IsDescending x [] d = (tt, d)
sink-IsDescending x (y ∷ xs) d = elim (Bool-cases (ltb (group x) (group y))) [
  | inl lt ↦
      rw (lt)
        (All-sink (AtMost (group y)) x xs (ground (arith, lt)) d.0, sink-IsDescending x xs d.1)
  | inr ge ↦
      let le : group y ≤ group x = ground (arith, ge) in
      rw (ge) ((le, AtMost-mono (group y) (group x) xs le d.0), d)
]

sink_all-IsDescending :
    (before accts : List AccountMeta) → IsDescending before → IsDescending (sink_all before accts)
unfolding sink_all
sink_all-IsDescending before [] d = d
sink_all-IsDescending before (x ∷ accts) d =
    sink_all-IsDescending (sink x before) accts (sink-IsDescending x before d)

append-IsSorted :
    (xs : List AccountMeta) (x : AccountMeta)
    → All (AtMost (group x)) xs
    → IsSorted xs
    → IsSorted (xs ++ x ∷ [])
append-IsSorted [] x a s = (tt, tt)
append-IsSorted (y ∷ xs) x a s =
    (All-append (AtLeast (group y)) xs (x ∷ []) s.0 (a.0, tt), append-IsSorted xs x a.1 s.1)

All-reverse : (P : AccountMeta → Type 0) (xs : List AccountMeta) → All P xs → All P (reverse xs)
All-reverse P [] a = a
All-reverse P (x ∷ xs) a =
    subst (All P) (sym (reverse-cons x xs))
      (All-append P (reverse xs) (x ∷ []) (All-reverse P xs a.1) (a.0, tt))

All-sink_all :
    (P : AccountMeta → Type 0) (before accts : List AccountMeta)
    → All P before
    → All P accts
    → All P (sink_all before accts)
unfolding sink_all
All-sink_all P before [] b a = b
All-sink_all P before (x ∷ accts) b a =
    All-sink_all P (sink x before) accts (All-sink P x before a.0 b) a.1

pub All-sort :
    (P : AccountMeta → Type 0) (accts : List AccountMeta) → All P accts → All P (sort accts)
unfolding sort
All-sort P accts a = All-reverse P (sink_all [] accts) (All-sink_all P [] accts tt a)

reverse-IsSorted : (xs : List AccountMeta) → IsDescending xs → IsSorted (reverse xs)
reverse-IsSorted [] d = d
reverse-IsSorted (x ∷ xs) d = subst IsSorted (sym (reverse-cons x xs)) (
    append-IsSorted (reverse xs) x (All-reverse (AtMost (group x)) xs d.0)
      (reverse-IsSorted xs d.1))

pub sort-IsSorted : (accts : List AccountMeta) → IsSorted (sort accts)
unfolding sort
sort-IsSorted accts = reverse-IsSorted (sink_all [] accts) (sink_all-IsDescending [] accts tt)

abbrev pub in_below : ℕ → AccountMeta → Bool
in_below c x = ltb (group x) c

none-below : (c : ℕ) (xs : List AccountMeta) → All (AtLeast c) xs → count_of (in_below c) xs ≡ 0
none-below c [] a = refl
none-below c (x ∷ xs) a = ground (arith, a.0, none-below c xs a.1)

AtLeast-mono : (g h : ℕ) (xs : List AccountMeta) → h ≤ g → All (AtLeast g) xs → All (AtLeast h) xs
AtLeast-mono g h [] le a = a
AtLeast-mono g h (x ∷ xs) le a = (omega (arith, le, a.0), AtLeast-mono g h xs le a.1)

All-get_elem :
    (P : AccountMeta → Type 0) (xs : List AccountMeta) (i : ℕ) (x : AccountMeta)
    → All P xs
    → get_elem? xs i ≡ some x
    → P x
All-get_elem P [] i x a e = cc
All-get_elem P (y ∷ xs) zero x a e = subst P (cc) a.0
All-get_elem P (y ∷ xs) (suc i) x a e = All-get_elem P xs i x a.1 e

-- In a sorted list the accounts of the lower groups are the first ones.
pub threshold :
    (c : ℕ) (xs : List AccountMeta) (i : ℕ) (x : AccountMeta)
    → IsSorted xs
    → get_elem? xs i ≡ some x
    → in_below c x ≡ ltb i (count_of (in_below c) xs)
threshold c [] i x s e = cc
threshold c (y ∷ xs) zero x s e =
    let same : y ≡ x = cc in
    subst (λ z. in_below c z ≡ ltb 0 (count_of (in_below c) (y ∷ xs))) same
      (elim (Bool-cases (in_below c y)) [
        | inl lt ↦ rw (lt) ground arith
        | inr ge ↦
            let none_later =
              none-below c xs (AtLeast-mono (group y) c xs (ground (arith, ge)) s.0) in
            rw (ge, none_later) refl
      ])
threshold c (y ∷ xs) (suc i) x s e = elim (Bool-cases (in_below c y)) [
  | inl lt ↦ let later = threshold c xs i x s.1 e in ground arith
  | inr ge ↦
      let none_later = none-below c xs (AtLeast-mono (group y) c xs (ground (arith, ge)) s.0) in
      let high = All-get_elem (AtLeast (group y)) xs i x s.0 e in ground arith
]
