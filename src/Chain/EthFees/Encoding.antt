-- ===== src/Chain/EthFees/Encoding.antt =====
-- Transaction parameters as a text, field by field, in the place of encoding/json in the examples.
use Prim.Native.Char.{code}
use Prim.Native.String.{String}
use teenet_wallet.Base.{
  nat_eq, ap, ◌∙◌, ℕ, zero, suc, length, none, ◌≡◌, refl, Option, some, if◌then◌else◌, ◌==◌, List,
  [], ◌∷◌,
}
use teenet_wallet.Handler.DailyLimit.Stroke.{strokes, tally, strokes-tally}
use teenet_wallet.Chain.EthFees.{EthTxParams}

-- A field, a sign before every character and a full stop at its end, before a rest.
abbrev pub quote : String → String → String
quote String.[] rest = String.◌∷◌ "." rest
quote (String.◌∷◌ c s) rest = String.◌∷◌ "c" (String.◌∷◌ c (quote s rest))

abbrev pub unquote : String → String × String
unquote String.[] = (String.[], String.[])
unquote (String.◌∷◌ t String.[]) = (String.[], String.[])
unquote (String.◌∷◌ t (String.◌∷◌ c s)) =
    let rest = unquote s in
    if code t == b'.' then (String.[], String.◌∷◌ c s) else (String.◌∷◌ c rest.0, rest.1)

pub unquote-quote : (s rest : String) → unquote (quote s rest) ≡ (s, rest)
unquote-quote String.[] String.[] = refl
unquote-quote String.[] (String.◌∷◌ c rest) = refl
unquote-quote (String.◌∷◌ c s) rest = rw (unquote-quote s rest) refl

abbrev pub quote_all : List String → String
quote_all [] = ""
quote_all (s ∷ rest) = quote s (quote_all rest)

abbrev pub unquote_all : ℕ → String → List String
unquote_all zero s = []
unquote_all (suc n) s = let field = unquote s in field.0 ∷ unquote_all n field.1

unquote_all-quote_all : (xs : List String) → unquote_all (length xs) (quote_all xs) ≡ xs
unquote_all-quote_all [] = refl
unquote_all-quote_all (s ∷ xs) =
    rw (unquote-quote s (quote_all xs)) (ap (λ rest. s ∷ rest) (unquote_all-quote_all xs))

abbrev pub to_fields : EthTxParams → List String
to_fields p =
    tally p.nonce
    ∷ p.max_fee_per_gas
    ∷ p.max_priority_fee_per_gas
    ∷ tally p.gas_limit
    ∷ p.chain_id
    ∷ p.from
    ∷ p.to
    ∷ p.value
    ∷ p.call_data
    ∷ p.gas_price
    ∷ []

abbrev pub from_fields : List String → Option EthTxParams
from_fields (nonce ∷ max_fee ∷ tip ∷ gas ∷ chain ∷ a ∷ b ∷ v ∷ d ∷ price ∷ []) = some (record {
  nonce = strokes nonce;
  max_fee_per_gas = max_fee;
  max_priority_fee_per_gas = tip;
  gas_limit = strokes gas;
  chain_id = chain;
  from = a;
  to = b;
  value = v;
  call_data = d;
  gas_price = price;
})
from_fields _ = none

abbrev pub encode : EthTxParams → String
encode p = quote_all (to_fields p)

abbrev pub decode : String → Option EthTxParams
decode s = from_fields (unquote_all 10 s)

pub decode-encode : (p : EthTxParams) → decode (encode p) ≡ some p
decode-encode p =
    ap from_fields (unquote_all-quote_all (to_fields p))
    ∙ rw (strokes-tally p.nonce, strokes-tally p.gas_limit) refl
