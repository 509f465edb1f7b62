-- ===== src/Handler/DailyLimit/Stroke.antt =====
-- Numbers written in strokes, with "0" for zero, in the place of math/big's Float in the examples.
use Prim.Native.Char.{code}
use Prim.Native.String.{String}
use teenet_wallet.Base.{
  nat_eq, ap, ℕ, zero, suc, ◌+◌, ◌-◌, ◌≡◌, refl, false, some, ltb, if◌then◌else◌, ◌==◌,
}
use teenet_wallet.Handler.DailyLimit.{BigFloat}

abbrev pub strokes : String → ℕ
strokes String.[] = 0
strokes (String.◌∷◌ c s) = if code c == b'0' then strokes s else suc (strokes s)

abbrev pub tally : ℕ → String
tally zero = String.[]
tally (suc n) = String.◌∷◌ "I" (tally n)

pub strokes-tally : (n : ℕ) → strokes (tally n) ≡ n
strokes-tally zero = refl
strokes-tally (suc n) = ap suc (strokes-tally n)

-- Amounts in strokes: subtraction stops at zero, so no number is negative.
abbrev pub stroke_float : BigFloat
stroke_float = record {
  Num = ℕ;
  zero_value = 0;
  parse = λ s. some (strokes s);
  is_positive = λ n. ltb 0 n;
  is_negative = λ n. false;
  add = ◌+◌;
  sub = ◌-◌;
  gtb = λ a b. ltb b a;
  text = tally;
}
