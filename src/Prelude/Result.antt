-- ===== src/Prelude/Result.antt =====
-- Go's pair of a value and an `error`: one or the other. Each component has its own errors.
use mathlib.Core.Path.{◌≡◌, refl}
use mathlib.Core.Logic.{◌⊎◌, inl, inr}

pub data Result {ℓ} (E : Type 0) (A : Type ℓ) : Type ℓ where
  ok : A → Result E A
  err : E → Result E A

infixl 5 ◌>>=◌
abbrev pub ◌>>=◌ {ℓ κ} :
    {E : Type 0} {A : Type ℓ} {B : Type κ} → Result E A → (A → Result E B) → Result E B
ok a >>= f = f a
err e >>= f = err e

-- What a computation returns satisfies `P`, and its errors satisfy `Q`.
abbrev pub Yields {ℓ κ} :
    {E : Type 0} {A : Type ℓ} → (E → Type κ) → (A → Type κ) → Result E A → Type κ
Yields Q P (ok a) = P a
Yields Q P (err e) = Q e

pub Yields_bind {ℓ ι κ} :
    {E : Type 0} {A : Type ℓ} {B : Type ι} (Q : E → Type κ) (P : A → Type κ) (R : B → Type κ)
    (m : Result E A) (f : A → Result E B)
    → Yields Q P m
    → ((a : A) → P a → Yields Q R (f a))
    → Yields Q R (m >>= f)
Yields_bind Q P R (ok a) f h k = k a h
Yields_bind Q P R (err e) f h k = h

pub Yields_mono {ℓ κ} :
    {E : Type 0} {A : Type ℓ} (Q : E → Type κ) (P R : A → Type κ) (m : Result E A)
    → Yields Q P m
    → ((a : A) → P a → R a)
    → Yields Q R m
Yields_mono Q P R (ok a) h k = k a h
Yields_mono Q P R (err e) h k = h

-- With no error left, there is a value.
pub Yields-ok {ℓ κ} :
    {E : Type 0} {A : Type ℓ} (Q : E → Type κ) (P : A → Type κ) (m : Result E A)
    → ((e : E) → ¬ Q e)
    → Yields Q P m
    → (a : A) × (m ≡ ok a) × P a
Yields-ok Q P (ok a) n h = (a, refl, h)
Yields-ok Q P (err e) n h = absurd (n e h)

pub Yields-cases {ℓ κ} :
    {E : Type 0} {A : Type ℓ} (Q : E → Type κ) (P : A → Type κ) (m : Result E A)
    → Yields Q P m
    → ((a : A) × (m ≡ ok a) × P a) ⊎ ((e : E) × (m ≡ err e) × Q e)
Yields-cases Q P (ok a) h = inl (a, refl, h)
Yields-cases Q P (err e) h = inr (e, refl, h)

pub Yields-value {ℓ κ} :
    {E : Type 0} {A : Type ℓ} (Q : E → Type κ) (P : A → Type κ) (m : Result E A) (a : A)
    → m ≡ ok a
    → Yields Q P m
    → P a
Yields-value Q P m a e h = rw e at h

-- The first step of a chain that succeeds, and the rest of it.
pub bind-ok {ℓ ι} :
    {E : Type 0} {B : Type ι} {A : Type ℓ} {y : B} (first : Result E A) (rest : A → Result E B)
    → (first >>= rest) ≡ ok y
    → (x : A) × (first ≡ ok x) × (rest x ≡ ok y)
bind-ok (err _) rest q = absurd (cc q)
bind-ok (ok x) rest q = (x, refl, q)

pub ok-injective {ℓ} :
    {E : Type 0} {A : Type ℓ} (a b : A) → ◌≡◌ {A = Result E A} (ok a) (ok b) → a ≡ b
ok-injective a b e = cc
