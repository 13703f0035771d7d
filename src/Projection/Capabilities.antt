-- ===== src/Projection/Capabilities.antt =====
-- The list of capabilities that the projection keeps: membership, granting and revoking.
use walrus_os.Base.{◌+◌, ◌≡◌, refl, true, false, ◌||◌, List, [], ◌∷◌, ◌++◌, arith, length}
use walrus_os.Model.Value.{Value, value_eq, value_eq_iff}
use walrus_os.Projection.Agent.{holds, remove}

-- No capability is listed twice.
abbrev pub Distinct : List Value → Type 0
Distinct [] = Unit
Distinct (x ∷ xs) = (holds x xs ≡ false) × Distinct xs

value_eq_symm : (a b : Value) → value_eq a b ≡ value_eq b a
value_eq_symm a b = ground (arith, value_eq_iff a b, value_eq_iff b a)

pub holds-append :
    (c y : Value) (xs : List Value) → holds c (xs ++ y ∷ []) ≡ (holds c xs || value_eq y c)
unfolding holds
holds-append c y [] = ground arith
holds-append c y (x ∷ xs) = ground (arith, holds-append c y xs)

holds-remove_mono :
    (x cap : Value) (xs : List Value) → holds x xs ≡ false → holds x (remove cap xs) ≡ false
unfolding holds remove
holds-remove_mono x cap [] h = refl
holds-remove_mono x cap (y ∷ xs) h = ground (arith, holds-remove_mono x cap xs)

pub Distinct-append :
    (y : Value) (xs : List Value) → Distinct xs → holds y xs ≡ false → Distinct (xs ++ y ∷ [])
unfolding holds
Distinct-append y [] d h = (refl, tt)
Distinct-append y (x ∷ xs) d h = (
  ground (arith, holds-append x y xs, value_eq_symm x y, d.0),
  Distinct-append y xs d.1 (ground arith),
)

pub Distinct-remove : (cap : Value) (xs : List Value) → Distinct xs → Distinct (remove cap xs)
unfolding remove
Distinct-remove cap [] d = tt
Distinct-remove cap (x ∷ xs) d =
    ground (arith, Distinct-remove cap xs d.1, holds-remove_mono x cap xs d.0, d)

pub length-remove :
    (cap : Value) (xs : List Value) → holds cap xs ≡ true → length (remove cap xs) + 1 ≡ length xs
unfolding holds remove
length-remove cap [] h = ground arith
length-remove cap (x ∷ xs) h = ground (arith, length-remove cap xs)

-- After `remove` a list without repetitions no longer has the capability.
pub holds-remove_self :
    (cap : Value) (xs : List Value) → Distinct xs → holds cap (remove cap xs) ≡ false
unfolding holds remove
holds-remove_self cap [] d = refl
holds-remove_self cap (x ∷ xs) d =
    ground (arith, holds-remove_self cap xs d.1, d.0, value_eq_iff x cap)
