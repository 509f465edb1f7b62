-- ===== src/Chain/Abi/Outcome.antt =====
-- The outcomes of a call in chain/abi.go, and what is known of the value of one that succeeds.
use teenet_wallet.Base.{Bool, true, false, Option, none, some, ◌≡◌, refl, if◌then◌else◌}

-- A call returns a value or an error, or panics. `out_of_fuel` has no counterpart in the code.
pub data AbiResult {ℓ} (A : Type ℓ) : Type ℓ where
  ok : A → AbiResult A
  refused panicked out_of_fuel : AbiResult A

infixl 5 ◌>>=◌ ◌>>◌
abbrev pub ◌>>=◌ {ℓ κ} : {A : Type ℓ} {B : Type κ} → AbiResult A → (A → AbiResult B) → AbiResult B
ok a >>= f = f a
refused >>= f = refused
panicked >>= f = panicked
out_of_fuel >>= f = out_of_fuel

abbrev pub ◌>>◌ {ℓ} : {B : Type ℓ} → AbiResult (Unit {0}) → AbiResult B → AbiResult B
m >> k = m >>= λ _. k

abbrev pub demand : Bool → AbiResult (Unit {0})
demand true = ok tt
demand false = refused

abbrev pub required_value {ℓ} : {A : Type ℓ} → Option A → AbiResult A
required_value (some a) = ok a
required_value none = refused

-- A branch on whether a value is found.
abbrev pub given {ℓ κ} :
    {A : Type ℓ} {B : Type κ} → Option A → (A → AbiResult B) → AbiResult B → AbiResult B
given (some a) f rest = f a
given none f rest = rest

-- The call ends, and its value has the property if it has one.
abbrev pub Meets {ℓ} : {A : Type ℓ} → (A → Type 0) → AbiResult A → Type 0
Meets P (ok a) = P a
Meets P refused = Unit
Meets P panicked = Unit
Meets P out_of_fuel = ⊥

module _ {ℓ} {A : Type ℓ} (P : A → Type 0) where
  pub Meets-if :
      (b : Bool) (x y : AbiResult A)
      → (b ≡ true → Meets P x)
      → (b ≡ false → Meets P y)
      → Meets P (if b then x else y)
  Meets-if true x y h k = h refl
  Meets-if false x y h k = k refl

  pub Meets-bind {ℓ'} :
      {B : Type ℓ'} (Q : B → Type 0) (r : AbiResult A) (f : A → AbiResult B)
      → Meets P r
      → ((a : A) → P a → Meets Q (f a))
      → Meets Q (r >>= f)
  Meets-bind Q (ok a) f h k = k a h
  Meets-bind Q refused f h k = tt
  Meets-bind Q panicked f h k = tt
  Meets-bind Q out_of_fuel f h k = absurd h

pub Meets-demand {ℓ} :
    {A : Type ℓ} (P : A → Type 0) (b : Bool) (r : AbiResult A)
    → (b ≡ true → Meets P r)
    → Meets P (demand b >> r)
Meets-demand P true r h = h refl
Meets-demand P false r h = tt

pub Meets-required {ℓ ℓ'} :
    {A : Type ℓ} {B : Type ℓ'} (P : A → Type 0) (o : Option B) (f : B → AbiResult A)
    → ((b : B) → o ≡ some b → Meets P (f b))
    → Meets P (required_value o >>= f)
Meets-required P none f h = tt
Meets-required P (some b) f h = h b refl

pub Meets-given {ℓ ℓ'} :
    {A : Type ℓ} {B : Type ℓ'} (P : A → Type 0) (o : Option B) (f : B → AbiResult A)
    (r : AbiResult A)
    → ((b : B) → o ≡ some b → Meets P (f b))
    → Meets P r
    → Meets P (given o f r)
Meets-given P none f r h k = k
Meets-given P (some b) f r h k = h b refl
