-- ===== src/Base/Checked.antt =====
-- Chains of checks of which each may refuse with an HTTP status.
use Prim.Native.Nat.{ℕ}
use mathlib.Core.Bool.{Bool, true, false}
use mathlib.Core.Logic.{◌⊎◌, inl, inr}
use mathlib.Core.Option.{Option, none, some}
use mathlib.Core.Path.{◌≡◌, refl}

infixl 5 ◌>>=◌ ◌>>◌
abbrev pub ◌>>=◌ {ℓ κ} : {A : Type ℓ} {B : Type κ} → A ⊎ ℕ → (A → B ⊎ ℕ) → B ⊎ ℕ
inl a >>= f = f a
inr status >>= f = inr status

abbrev pub ◌>>◌ {ℓ} : {B : Type ℓ} → Unit {0} ⊎ ℕ → B ⊎ ℕ → B ⊎ ℕ
m >> k = m >>= λ _. k

abbrev pub demand : Bool → ℕ → Unit {0} ⊎ ℕ
demand true status = inl tt
demand false status = inr status

abbrev pub require {ℓ} : {A : Type ℓ} → Option A → ℕ → A ⊎ ℕ
require none status = inr status
require (some a) status = inl a

-- What a chain that goes through has passed.
pub bind-inl {ℓ κ} :
    {A : Type ℓ} {B : Type κ} (m : A ⊎ ℕ) (f : A → B ⊎ ℕ) (b : B)
    → (m >>= f) ≡ inl b
    → (a : A) × (m ≡ inl a) × (f a ≡ inl b)
bind-inl (inl a) f b h = (a, refl, h)
bind-inl (inr status) f b h = cc

pub demand-inl {ℓ} :
    {B : Type ℓ} (c : Bool) (status : ℕ) (k : B ⊎ ℕ) (b : B)
    → (demand c status >> k) ≡ inl b
    → (c ≡ true) × (k ≡ inl b)
demand-inl true status k b h = (refl, h)
demand-inl false status k b h = cc

pub require-inl {ℓ κ} :
    {A : Type ℓ} {B : Type κ} (o : Option A) (status : ℕ) (f : A → B ⊎ ℕ) (b : B)
    → (require o status >>= f) ≡ inl b
    → (a : A) × (o ≡ some a) × (f a ≡ inl b)
require-inl none status f b h = cc
require-inl (some a) status f b h = (a, refl, h)

pub inl_pair {ℓ κ} :
    {A : Type ℓ} {B : Type κ} (a p : A) (b o : B)
    → ◌≡◌ {A = (A × B) ⊎ ℕ} (inl (a, b)) (inl (p, o))
    → (p ≡ a) × (o ≡ b)
inl_pair a p b o e = (cc, cc)

pub inl_inj {ℓ} : {A : Type ℓ} (a b : A) → ◌≡◌ {A = A ⊎ ℕ} (inl a) (inl b) → a ≡ b
inl_inj a b e = cc

-- The same by what follows, so that a long chain is taken apart step by step.
pub bind_ind {ℓ κ} :
    {A : Type ℓ} {B : Type κ} {P : Type 0} (m : A ⊎ ℕ) {f : A → B ⊎ ℕ} {b : B}
    → (m >>= f) ≡ inl b
    → ((a : A) → m ≡ inl a → f a ≡ inl b → P)
    → P
bind_ind (inl a) h k = k a refl h
bind_ind (inr status) h k = cc

pub demand_ind {ℓ} :
    {B : Type ℓ} {P : Type 0} (c : Bool) (status : ℕ) {r : B ⊎ ℕ} {b : B}
    → (demand c status >> r) ≡ inl b
    → (c ≡ true → r ≡ inl b → P)
    → P
demand_ind true status h k = k refl h
demand_ind false status h k = cc

pub require_ind {ℓ κ} :
    {A : Type ℓ} {B : Type κ} {P : Type 0} (o : Option A) (status : ℕ) {f : A → B ⊎ ℕ} {b : B}
    → (require o status >>= f) ≡ inl b
    → ((a : A) → o ≡ some a → f a ≡ inl b → P)
    → P
require_ind none status h k = cc
require_ind (some a) status h k = k a refl h
