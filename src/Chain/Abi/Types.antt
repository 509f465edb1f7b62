-- ===== src/Chain/Abi/Types.antt =====
-- The type texts of chain/abi.go: splitting a signature, fixed arrays, and which types are dynamic.
use mathlib.Core.List.{reverse}
use teenet_wallet.Base.{
  ℕ, zero, ℤ, pos, negsuc, ◌+ℤ◌, suc, ◌+◌, ◌-◌, Bool, true, false, not, ◌&&◌, ◌||◌, Option, none,
  some, List, [], ◌∷◌, map, length, drop, if◌then◌else◌, ◌==◌, nat_eq, ltb,
}
use teenet_wallet.Chain.Abi.Outcome.{AbiResult, ok, refused, panicked, out_of_fuel, ◌>>=◌, given}
use teenet_wallet.Chain.Abi.Texts.{
  Text, codes, same_text, after_prefix, before_suffix, cut, drop_last, span_digits, positive_int,
}

-- The depth of parentheses after_prefix a byte.
abbrev pub depth_after : ℕ → ℤ → ℤ
depth_after c depth =
    if c == b'(' then depth +ℤ pos 1 else if c == b')' then depth +ℤ negsuc 0 else depth

abbrev pub is_zero : ℤ → Bool
is_zero (pos n) = n == 0
is_zero (negsuc n) = false

-- The first part and the others, cut at the commas where the depth is 0.
unfoldable pub split_parts : ℤ → Text → Text × List Text
split_parts depth [] = ([], [])
split_parts depth (c ∷ s) =
    let rest = split_parts (depth_after c depth) s in
    if (c == b',') && is_zero depth then ([], rest.0 ∷ rest.1) else (c ∷ rest.0, rest.1)

-- `strings.TrimSpace` is an argument.
unfoldable pub split_top_level : (Text → Text) → Text → List Text
unfolding split_parts
split_top_level trim s = let parts = split_parts (pos 0) s in map trim (parts.0 ∷ parts.1)

-- The parameter list stands between the first opening and the last closing parenthesis, which is the
-- last byte.
abbrev pub inner_params : (Text → Text) → Option Text → AbiResult (List Text)
inner_params trim none = refused
inner_params trim (some []) = ok []
inner_params trim (some (c ∷ inner)) = ok (split_top_level trim (c ∷ inner))

abbrev pub after_name : (Text → Text) → Option (Text × Text) → AbiResult (List Text)
after_name trim none = refused
after_name trim (some (name, rest)) = inner_params trim (before_suffix (codes ")") rest)

unfoldable pub parse_param_types : (Text → Text) → Text → AbiResult (List Text)
unfolding split_top_level
parse_param_types trim s = after_name trim (cut b'(' s)

-- From an opening parenthesis to the one that closes it, and what follows.
unfoldable pub matching : ℕ → Text → Option (Text × Text)
matching depth [] = none
matching depth (c ∷ s) =
    let now : ℕ = if c == b'(' then depth + 1 else if c == b')' then depth - 1 else depth in
    let rest = matching now s in
    if (c == b')') && (now == 0)
    then some (c ∷ [], s)
    else elim rest [ none ↦ none | some (front, back) ↦ some (c ∷ front, back) ]

-- `[N]` with N positive.
abbrev pub array_size : Text → Option ℕ
array_size s = elim (after_prefix (codes "[") s) [
  | none ↦ none
  | some rest ↦ elim (before_suffix (codes "]") rest) [
    | none ↦ none
    | some size ↦ positive_int size
  ]
]

abbrev pub has_newline : Text → Bool
has_newline [] = false
has_newline (c ∷ s) = (c == 10) || has_newline s

-- The regular expression `^(.+)\[(\d+)\]$`, read from the end, where `back` is what it has not read.
abbrev pub array_parts : Text × Text → Option (Text × Text)
array_parts ([], back) = none
array_parts ((d ∷ digits), []) = none
array_parts ((d ∷ digits), (b ∷ [])) = none
array_parts ((d ∷ digits), (b ∷ (c ∷ elem))) =
    if (b == b'[') && not (has_newline (c ∷ elem))
    then some (reverse (c ∷ elem), reverse (d ∷ digits))
    else none

abbrev pub match_array : Text → Option (Text × Text)
match_array s = elim (after_prefix (codes "]") (reverse s)) [
  | none ↦ none
  | some back ↦ array_parts (span_digits back)
]

abbrev pub opens : Text → Bool
opens [] = false
opens (c ∷ s) = c == b'('

-- The element with its size.
abbrev pub sized : (Text → Option ℕ) → Option (Text × Text) → Option (Text × ℕ)
sized read none = none
sized read (some (elem, size)) = elim (read size) [ none ↦ none | some n ↦ some (elem, n) ]

-- The element type and the size of `T[N]`.
unfoldable pub parse_fixed_array : Text → Option (Text × ℕ)
unfolding matching
parse_fixed_array typ =
    if opens typ
    then sized (λ suffix. array_size suffix) (matching 0 typ)
    else sized (λ size. positive_int size) (match_array typ)

-- `typ[1 : len(typ)-1]`, which panics on one byte.
abbrev pub inside : Text → AbiResult Text
inside typ = if ltb 1 (length typ) then ok (drop_last (drop 1 typ)) else panicked

abbrev pub holds_text : Option Text → Bool
holds_text none = false
holds_text (some s) = true

abbrev pub any_of : (Text → AbiResult Bool) → List Text → AbiResult Bool
any_of test [] = ok false
any_of test (t ∷ types) = test t >>= (λ dynamic. if dynamic then ok true else any_of test types)

abbrev pub is_plain_dynamic : Text → Bool
is_plain_dynamic typ =
    same_text typ (codes "bytes")
    || (same_text typ (codes "string") || holds_text (before_suffix (codes "[]") typ))

module _ (trim : Text → Text) where
  unfoldable pub is_dynamic_at : ℕ → Text → AbiResult Bool
  unfolding split_top_level parse_fixed_array
  is_dynamic_at zero typ = out_of_fuel
  is_dynamic_at (suc fuel) typ =
      if is_plain_dynamic typ
      then ok true
      else given (parse_fixed_array typ) (λ array. is_dynamic_at fuel array.0)
          (if opens typ
            then inside typ >>= (λ inner. any_of (is_dynamic_at fuel) (split_top_level trim inner))
            else ok false)

  -- A call is made on a shorter text, so that the length is enough fuel.
  unfoldable pub is_dynamic : Text → AbiResult Bool
  unfolding is_dynamic_at
  is_dynamic typ = is_dynamic_at (suc (length typ)) typ
