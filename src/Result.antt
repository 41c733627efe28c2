-- ===== src/Result.antt =====
-- A call that may raise: its value, or the exception. `E` has a constructor for each `raise`.
use ai_reverse_agent.Prelude.{◌≡◌, ◌⊎◌, inl, inr, refl}

pub data Result {ℓ κ} (E : Type ℓ) (A : Type κ) : Type (ℓ ⊔ κ) where
  ok : A → Result E A
  err : E → Result E A

infixl 5 ◌>>=◌
abbrev pub ◌>>=◌ {ℓ κ μ} :
    {E : Type ℓ} {A : Type κ} {B : Type μ} → Result E A → (A → Result E B) → Result E B
ok a >>= f = f a
err e >>= f = err e

-- A successful chain: its first part succeeded, and so did the rest from there.
pub bind_inversion {ℓ κ μ} :
    {E : Type ℓ} {A : Type κ} {B : Type μ} (m : Result E A) (f : A → Result E B) {b : B}
    → (m >>= f) ≡ ok b
    → (a : A) × (m ≡ ok a) × (f a ≡ ok b)
bind_inversion (ok a) f h = (a, refl, h)
bind_inversion (err e) f h = cc

-- The call returns a value, whatever it is.
abbrev pub Returns {ℓ κ} : {E : Type ℓ} {A : Type κ} → Result E A → Type (ℓ ⊔ κ)
Returns {A = A} r = (a : A) × (r ≡ ok a)

-- The other way round: what a chain returns, from what its parts return.
pub bind_ok {ℓ κ μ} :
    {E : Type ℓ} {A : Type κ} {B : Type μ} (m : Result E A) (f : A → Result E B) {a : A}
    {r : Result E B}
    → m ≡ ok a
    → f a ≡ r
    → (m >>= f) ≡ r
bind_ok m f p q = rw p q

-- How a chain ends: its first part raised, or the rest follows what the first part returned.
pub bind_cases {ℓ κ μ} :
    {E : Type ℓ} {A : Type κ} {B : Type μ} (m : Result E A) (f : A → Result E B)
    → ((e : E) × (m ≡ err e) × ((m >>= f) ≡ err e)) ⊎ ((a : A) × (m ≡ ok a) × ((m >>= f) ≡ f a))
bind_cases (ok a) f = inr (a, refl, refl)
bind_cases (err e) f = inl (e, refl, refl)

-- A call returns one value.
pub ok_unique {ℓ κ} :
    {E : Type ℓ} {A : Type κ} (r : Result E A) {x y : A} → r ≡ ok x → r ≡ ok y → x ≡ y
ok_unique r p q = cc
