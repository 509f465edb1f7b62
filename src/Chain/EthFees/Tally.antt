-- ===== src/Chain/EthFees/Tally.antt =====
-- Integers written in strokes, after a dash if they are below zero, in the place of math/big's Int in
-- the examples.
use Prim.Native.Char.{code}
use Prim.Native.String.{String}
use teenet_wallet.Base.{
  nat_eq, ap, zero, suc, ◌≡◌, refl, ℤ, pos, negsuc, Option, some, if◌then◌else◌, ◌==◌, string_eq,
}
use teenet_wallet.Handler.DailyLimit.Stroke.{strokes, tally, strokes-tally}
use teenet_wallet.Chain.EthFees.{BigInts}

abbrev pub print_tally : ℤ → String
print_tally (pos n) = tally n
print_tally (negsuc n) = String.◌∷◌ "-" (tally n)

abbrev pub parse_tally : String → Option ℤ
parse_tally String.[] = some (pos 0)
parse_tally (String.◌∷◌ c s) =
    if code c == b'-' then some (negsuc (strokes s)) else some (pos (strokes (String.◌∷◌ c s)))

pub parse-print_tally : (z : ℤ) → parse_tally (print_tally z) ≡ some z
parse-print_tally (pos zero) = refl
parse-print_tally (pos (suc n)) = ap (λ k. some (pos (suc k))) (strokes-tally n)
parse-print_tally (negsuc n) = ap (λ k. some (negsuc k)) (strokes-tally n)

-- Texts are compared whole.
abbrev pub tally_ints : BigInts
tally_ints = record {
  parse_int = parse_tally;
  print_int = print_tally;
  to_lower = λ s. s;
  contains = λ s t. s == t;
}
