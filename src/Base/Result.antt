-- ===== src/Base/Result.antt =====
-- Exceptions as values. The constructors of `Error` are the exceptions that the code raises.
use mathlib.Core.Path.{◌≡◌, refl}
use mathlib.Core.Logic.{◌⊎◌, inl, inr}
use mathlib.Core.Option.{Option, none, some}
use mathlib.Core.List.{List, [], ◌∷◌}

pub data Error : Type 0 where
  value_error key_error permission_error runtime_error attribute_error type_error : Error
  crypto_error json_error integrity_error zero_division_error : Error
  network_error key_destroyed zstd_error : Error

pub data Result {ℓ} (A : Type ℓ) : Type ℓ where
  ok : A → Result A
  err : Error → Result A

infixl 5 ◌>>=◌ ◌>>◌
abbrev pub ◌>>=◌ {ℓ κ} : {A : Type ℓ} {B : Type κ} → Result A → (A → Result B) → Result B
ok a >>= f = f a
err e >>= f = err e

abbrev pub ◌>>◌ {ℓ κ} : {A : Type ℓ} {B : Type κ} → Result A → Result B → Result B
m >> k = m >>= λ _. k

abbrev pub or_raise {ℓ} : {A : Type ℓ} → Option A → Error → Result A
or_raise none e = err e
or_raise (some a) e = ok a

-- A step after another, over a state; what was done before a raise stays done.
abbrev pub after {ℓ κ μ} :
    {A : Type ℓ} {B : Type κ} {S : Type μ} → Result A × S → (A → S → Result B × S) → Result B × S
after (ok a, s) f = f a s
after (err e, s) f = (err e, s)

-- `try: x = m; except: x = d`
abbrev pub or_else {ℓ} : {A : Type ℓ} → Result A → A → A
or_else (ok a) d = a
or_else (err e) d = d

pub Result-cases {ℓ} :
    {A : Type ℓ} (r : Result A) → ((a : A) × (r ≡ ok a)) ⊎ ((e : Error) × (r ≡ err e))
Result-cases (ok a) = inl (a, refl)
Result-cases (err e) = inr (e, refl)

-- `[f(x) for x in xs]` where `f` may raise
unfoldable pub all_ok {ℓ κ} : {A : Type ℓ} {B : Type κ} → (A → Result B) → List A → Result (List B)
all_ok f [] = ok []
all_ok f (x ∷ xs) = f x >>= λ y. all_ok f xs >>= λ ys. ok (y ∷ ys)
