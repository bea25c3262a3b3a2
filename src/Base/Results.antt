-- ===== src/Base/Results.antt =====
-- What a Python call leaves behind: a value or a raised exception, and for a method the object too.
-- Exceptions are exceptions.py's, with the built-in ones that the code raises; the message and the
-- `character` that an exception carries are left out.
use mathlib.Core.Path.{◌≡◌, refl, ap}
use mathlib.Core.Logic.{◌⊎◌, inl, inr}

-- The `reason` of a `CreditError`.
pub data CreditReason : Type 0 where
  nchar_with_zero_rx_credit fct_overflow : CreditReason

pub data Exception : Type 0 where
  value_error type_error key_error index_error runtime_error timeout_error attribute_error :
      Exception
  protocol_error parity_error escape_error : Exception
  credit_error : CreditReason → Exception
  disconnect_error : Exception

pub data Outcome {ℓ} (A : Type ℓ) : Type ℓ where
  ok : A → Outcome A
  raise : Exception → Outcome A

abbrev pub map_ok {ℓ κ} : {A : Type ℓ} {B : Type κ} → (A → B) → Outcome A → Outcome B
map_ok f (ok a) = ok (f a)
map_ok f (raise e) = raise e

abbrev pub and_then {ℓ κ} : {A : Type ℓ} {B : Type κ} → Outcome A → (A → Outcome B) → Outcome B
and_then (ok a) f = f a
and_then (raise e) f = raise e

-- A method call: the object is changed also when the call raises.
abbrev pub Method : Type 0 → Type 0 → Type 0
Method S A = S → Outcome A × S

abbrev pub resume : {S A B : Type 0} → Outcome A → S → (A → Method S B) → Outcome B × S
resume (ok a) s f = f a s
resume (raise e) s f = (raise e, s)

infixl 5 ◌>>=◌ ◌>>◌
abbrev pub ◌>>=◌ : {S A B : Type 0} → Method S A → (A → Method S B) → Method S B
◌>>=◌ m f s = let (r, s') = m s in resume r s' f

abbrev pub ◌>>◌ : {S B : Type 0} → Method S (Unit {0}) → Method S B → Method S B
m >> k = m >>= λ _. k

abbrev pub return : {S A : Type 0} → A → Method S A
return a s = (ok a, s)

abbrev pub throw : {S A : Type 0} → Exception → Method S A
throw e s = (raise e, s)

-- A call that raises or returns, and changes nothing.
abbrev pub lift : {S A : Type 0} → Outcome A → Method S A
lift r s = (r, s)

abbrev pub modify : {S : Type 0} → (S → S) → Method S (Unit {0})
modify f s = (ok tt, f s)

pub Outcome-cases {ℓ} :
    {A : Type ℓ} (r : Outcome A) → ((a : A) × (r ≡ ok a)) ⊎ ((e : Exception) × (r ≡ raise e))
Outcome-cases (ok a) = inl (a, refl)
Outcome-cases (raise e) = inr (e, refl)

-- A chain whose first call returns.
pub run->>= :
    {S A B : Type 0} (m : Method S A) (f : A → Method S B) (s : S) {a : A} {s₁ : S}
    → m s ≡ (ok a, s₁)
    → (m >>= f) s ≡ f a s₁
run->>= m f s h = rw h

-- Inversion of a chain that returns.
pub return->>= :
    {S A B : Type 0} (m : Method S A) (f : A → Method S B) (s : S) {b : B} {s₂ : S}
    → (m >>= f) s ≡ (ok b, s₂)
    → (a : A) × (s₁ : S) × (m s ≡ (ok a, s₁)) × (f a s₁ ≡ (ok b, s₂))
return->>= {S} {A} {B} m f s {b} {s₂} h = go (m s) refl h
  where
    go :
        (r : Outcome A × S)
        → m s ≡ r
        → resume r.0 r.1 f ≡ (ok b, s₂)
        → (a : A) × (s₁ : S) × (m s ≡ (ok a, s₁)) × (f a s₁ ≡ (ok b, s₂))
    go (ok a, s₁) e k = (a, s₁, e, k)
    go (raise x, s₁) e k = let e' : raise x ≡ ok b = ap (λ p. p.0) k in cc

pub ok-injective {ℓ} : {A : Type ℓ} {a b : A} → ok a ≡ ok b → a ≡ b
ok-injective e = cc

-- Inversion of a chain that returns.
pub and_then-ok {ℓ κ} :
    {A : Type ℓ} {B : Type κ} (r : Outcome A) (f : A → Outcome B) {b : B}
    → and_then r f ≡ ok b
    → (a : A) × (r ≡ ok a) × (f a ≡ ok b)
and_then-ok (ok a) f h = (a, refl, h)
and_then-ok (raise e) f h = cc
