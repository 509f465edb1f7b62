-- ===== src/Chain/Abi/Shrinking.antt =====
-- The types that chain/abi.go takes out of a type text are shorter than the text.
use mathlib.Core.List.{reverse, reverse-append}
use teenet_wallet.Base.{
  ℕ, suc, ℤ, pos, ◌+◌, ◌-◌, ◌≤◌, ◌<◌, ◌≡◌, refl, ap, ◌∙◌, ◌&&◌, Option, none, some, List, [], ◌∷◌,
  map, length, length-append, All, if◌then◌else◌, ◌==◌, nat_eq, arith, ltb, Bool-cases,
  Option-cases, inl, inr,
}
use teenet_wallet.Chain.Abi.Outcome.{ok, panicked, Meets, Meets-if}
use teenet_wallet.Chain.Abi.Texts.{
  Text, codes, after_prefix, before_suffix, cut, drop_last, span_digits, positive_int,
}
use teenet_wallet.Chain.Abi.Types.{
  depth_after, is_zero, split_parts, split_top_level, inner_params, after_name, sized,
  parse_param_types, matching, array_size, array_parts, match_array, opens, parse_fixed_array,
  inside,
}

pub length-reverse : (s : Text) → length (reverse s) ≡ length s
length-reverse [] = refl
length-reverse (c ∷ s) =
    ap length (reverse-append (c ∷ []) s)
    ∙ omega (arith, length-append {0} (reverse s) (c ∷ []), length-reverse s)

length-after :
    (p s : Text) {rest : Text} → after_prefix p s ≡ some rest → length rest + length p ≡ length s
length-after [] s e = ground arith
length-after (a ∷ p) [] e = cc
length-after (a ∷ p) (b ∷ s) {rest} e = ground (arith, length-after p s {rest = rest})

pub length-before :
    (suffix s : Text) (front : Text)
    → before_suffix suffix s ≡ some front
    → length front + length suffix ≡ length s
length-before suffix s front e = ground (
  arith,
  length-reverse s,
  length-reverse suffix,
  go (after_prefix (reverse suffix) (reverse s)) refl,
)
  where
    go :
        (o : Option Text)
        → after_prefix (reverse suffix) (reverse s) ≡ o
        → length front + length suffix ≡ length s
    go none eq = cc
    go (some rest) eq = ground (
      arith,
      length-after (reverse suffix) (reverse s) eq,
      length-reverse rest,
      length-reverse s,
      length-reverse suffix,
    )

length-cut : (c : ℕ) (s front back : Text) → cut c s ≡ some (front, back) → length back < length s
length-cut c [] front back e = cc
length-cut c (b ∷ s) front back e = elim (Option-cases (cut c s)) [
  | inl last ↦ ground (arith, last)
  | inr ((f, k), later) ↦ ground (arith, later, length-cut c s f k later)
]

span_digits-le : (s : Text) → length (span_digits s).1 ≤ length s
span_digits-le [] = omega arith
span_digits-le (c ∷ s) = ground (arith, span_digits-le s)

pub length-drop_last : (c : ℕ) (s : Text) → suc (length (drop_last (c ∷ s))) ≡ length (c ∷ s)
length-drop_last c [] = refl
length-drop_last c (d ∷ s) = ap suc (length-drop_last d s)

pub matching_lengths :
    (depth : ℕ) (s front back : Text)
    → matching depth s ≡ some (front, back)
    → length front + length back ≡ length s
unfolding matching
matching_lengths depth [] front back e = cc
matching_lengths depth (c ∷ s) front back e =
    let now : ℕ = if c == b'(' then depth + 1 else if c == b')' then depth - 1 else depth in
    elim (Option-cases (matching now s)) [
      | inl last ↦ ground (arith, last)
      | inr ((f, k), later) ↦ ground (arith, later, matching_lengths now s f k later)
    ]

pub All-mono :
    (P Q : Text → Type 0) → ((s : Text) → P s → Q s) → (xs : List Text) → All P xs → All Q xs
All-mono P Q f [] h = tt
All-mono P Q f (x ∷ xs) h = (f x h.0, All-mono P Q f xs h.1)

split_parts-le :
    (depth : ℤ) (s : Text)
    → (length (split_parts depth s).0 ≤ length s)
      × All (λ p. length p ≤ length s) (split_parts depth s).1
unfolding split_parts
split_parts-le depth [] = (omega arith, tt)
split_parts-le depth (c ∷ s) =
    let (h, t) = split_parts-le (depth_after c depth) s in
    let longer = All-mono _ (λ p. length p ≤ suc (length s)) (λ p le. omega arith) _ t in
    elim (Bool-cases ((c == b',') && is_zero depth)) [
      | inl cut ↦ rw cut (omega arith, (omega arith, longer))
      | inr on ↦ rw on (omega arith, longer)
    ]

-- `strings.TrimSpace` returns a part of its argument.
abbrev pub Trims : (Text → Text) → Type 0
Trims trim = (s : Text) → length (trim s) ≤ length s

module _ (trim : Text → Text) (trims : Trims trim) where
  All-trim :
      (n : ℕ) (xs : List Text) → All (λ p. length p ≤ n) xs → All (λ p. length p ≤ n) (map trim xs)
  All-trim n [] h = tt
  All-trim n (x ∷ xs) h = (omega (arith, trims x, h.0), All-trim n xs h.1)

  pub split_top_level-le : (s : Text) → All (λ p. length p ≤ length s) (split_top_level trim s)
  unfolding split_top_level
  split_top_level-le s =
      let parts = split_parts (pos 0) s in
      All-trim (length s) (parts.0 ∷ parts.1) (split_parts-le (pos 0) s)

  parameters-lt :
      (n : ℕ) (rest : Text) (o : Option Text)
      → before_suffix (codes ")") rest ≡ o
      → length rest < n
      → Meets (All (λ t. length t < n)) (inner_params trim o)
  parameters-lt n rest none e h = tt
  parameters-lt n rest (some []) e h = tt
  parameters-lt n rest (some (c ∷ inner)) e h =
      All-mono _ _ (λ p le. omega (arith, length-before (codes ")") rest (c ∷ inner) e))
        (split_top_level trim (c ∷ inner)) (split_top_level-le (c ∷ inner))

  after_name-lt :
      (s : Text) (o : Option (Text × Text))
      → cut b'(' s ≡ o
      → Meets (All (λ t. length t < length s)) (after_name trim o)
  after_name-lt s none e = tt
  after_name-lt s (some (name, rest)) e =
      parameters-lt (length s) rest (before_suffix (codes ")") rest) refl
        (length-cut b'(' s name rest e)

  pub parse_param_types-lt :
      (s : Text) → Meets (All (λ t. length t < length s)) (parse_param_types trim s)
  unfolding parse_param_types
  parse_param_types-lt s = after_name-lt s (cut b'(' s) refl

pub inside-lt : (typ : Text) → Meets (λ t. suc (length t) < length typ) (inside typ)
inside-lt [] = tt
inside-lt (c ∷ []) = tt
inside-lt (c ∷ (d ∷ s)) =
    Meets-if (λ t. suc (length t) < length (c ∷ (d ∷ s))) (ltb 1 (length (c ∷ (d ∷ s))))
      (ok (drop_last (d ∷ s))) panicked (λ e. omega (arith, length-drop_last d s)) (λ e. tt)

array_parts-lt :
    (p : Text × Text) (elem size : Text)
    → array_parts p ≡ some (elem, size)
    → length elem < length p.1
array_parts-lt ([], back) elem size e = cc
array_parts-lt ((d ∷ digits), []) elem size e = cc
array_parts-lt ((d ∷ digits), (b ∷ [])) elem size e = cc
array_parts-lt ((d ∷ digits), (b ∷ (c ∷ front))) elem size e =
    ground (arith, length-reverse (c ∷ front))

match_array-lt : (s elem size : Text) → match_array s ≡ some (elem, size) → length elem < length s
match_array-lt s elem size e = elim (Option-cases (after_prefix (codes "]") (reverse s))) [
  | inl open_end ↦ ground (arith, open_end)
  | inr (back, found) ↦
      let shorter = array_parts-lt (span_digits back) elem size (rw (found, match_array) at e) in
      ground (
        arith,
        shorter,
        span_digits-le back,
        length-after (codes "]") (reverse s) found,
        length-reverse s,
      )
]

sized-lt :
    (read : Text → Option ℕ) (m : ℕ) (o : Option (Text × Text)) (elem : Text) (n : ℕ)
    → sized read o ≡ some (elem, n)
    → ((size : Text) (k : ℕ) → o ≡ some (elem, size) → read size ≡ some k → length elem < m)
    → length elem < m
sized-lt read m none elem n e h = cc
sized-lt read m (some (front, size)) elem n e h = elim (Option-cases (read size)) [
  | inl unread ↦ absurd (ground (arith, unread))
  | inr (k, known) ↦ h size k (ground (arith, known)) known
]

tuple_array-lt :
    (typ elem suffix : Text) (k : ℕ)
    → matching 0 typ ≡ some (elem, suffix)
    → array_size suffix ≡ some k
    → length elem < length typ
tuple_array-lt typ elem [] k m e = cc
tuple_array-lt typ elem (c ∷ s) k m e = omega (arith, matching_lengths 0 typ elem (c ∷ s) m)

pub parse_fixed_array-lt :
    (typ elem : Text) (n : ℕ) → parse_fixed_array typ ≡ some (elem, n) → length elem < length typ
unfolding parse_fixed_array
parse_fixed_array-lt typ elem n e = elim (Bool-cases (opens typ)) [
  | inl tuple ↦
      sized-lt array_size (length typ) (matching 0 typ) elem n (rw tuple at e)
        (λ suffix k m size. tuple_array-lt typ elem suffix k m size)
  | inr plain ↦
      sized-lt positive_int (length typ) (match_array typ) elem n (rw plain at e)
        (λ size k m known. match_array-lt typ elem size m)
]
