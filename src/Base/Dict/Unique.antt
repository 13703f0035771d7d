-- ===== src/Base/Dict/Unique.antt =====
-- Dicts with no key twice, and sums over their values.
use Prim.Native.Nat.{ℕ, ◌+◌, ◌≤◌}
use Prim.Native.String.{String}
use mathlib.Core.Path.{◌≡◌, refl}
use mathlib.Core.Option.{Option, none, some}
use mathlib.Core.List.{[], ◌∷◌}
use native.Mathlib.Omega.{arith}
use text.Mathlib.TextEquality.{eq_iff}
use walrus_os.Base.Dict.{Dict, lookup, insert, pop, lookup-insert, lookup-pop}

module _ {ℓ} {V : Type ℓ} where
  abbrev pub Unique : Dict V → Type ℓ
  Unique [] = Unit
  Unique ((k, v) ∷ d) = (lookup k d ≡ none) × Unique d

  pub insert-Unique : (k : String) (v : V) (d : Dict V) → Unique d → Unique (insert k v d)
  unfolding insert lookup
  insert-Unique k v [] h = (refl, tt)
  insert-Unique k v ((j, w) ∷ d) h =
      ground (arith, insert-Unique k v d h.1, lookup-insert k j v d, eq_iff j k, eq_iff k j, h)

  pub pop-Unique : (k : String) (d : Dict V) → Unique d → Unique (pop k d)
  unfolding pop
  pop-Unique k [] h = tt
  pop-Unique k ((j, w) ∷ d) h = ground (arith, pop-Unique k d h.1, lookup-pop k j d, h)

  module _ (f : V → ℕ) where
    -- The sum of `f` over the values.
    abbrev pub sum : Dict V → ℕ
    sum [] = 0
    sum ((k, v) ∷ d) = f v + sum d

    abbrev pub part : Option V → ℕ
    part none = 0
    part (some v) = f v

    pub sum-insert :
        (k : String) (v : V) (d : Dict V) → sum (insert k v d) + part (lookup k d) ≡ sum d + f v
    unfolding insert lookup
    sum-insert k v [] = omega arith
    sum-insert k v ((j, w) ∷ d) = ground (arith, sum-insert k v d)

    pub sum-pop : (k : String) (d : Dict V) → Unique d → sum (pop k d) + part (lookup k d) ≡ sum d
    unfolding pop lookup
    sum-pop k [] h = omega arith
    sum-pop k ((j, w) ∷ d) h = ground (arith, sum-pop k d h.1, eq_iff j k, h.0)

    pub part-le-sum : (k : String) (d : Dict V) → part (lookup k d) ≤ sum d
    unfolding lookup
    part-le-sum k [] = omega arith
    part-le-sum k ((j, w) ∷ d) = ground (arith, part-le-sum k d)
