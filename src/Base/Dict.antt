-- ===== src/Base/Dict.antt =====
-- A Python dict with text keys, as an association list in insertion order.
pub mod Unique
use Prim.Native.String.{String}
use mathlib.Core.Path.{◌≡◌, refl}
use mathlib.Core.Bool.{Bool}
use mathlib.Core.Option.{Option, none, some}
use mathlib.Core.List.{List, [], ◌∷◌, map}
use native.Mathlib.Omega.{arith}
use text.Mathlib.Text.{◌==◌}
use text.Mathlib.TextEquality.{eq_iff}
use walrus_os.Base.Tests.{if◌then◌else◌, is_some, Bool-cases}
use walrus_os.Base.Lists.{keep_if}

abbrev pub Dict {ℓ} : Type ℓ → Type ℓ
Dict V = List (String × V)

module _ {ℓ} {V : Type ℓ} where
  -- `d.get(k)`
  unfoldable pub lookup : String → Dict V → Option V
  lookup k [] = none
  lookup k ((j, v) ∷ d) = if j == k then some v else lookup k d

  -- `k in d`
  abbrev pub has_key : String → Dict V → Bool
  has_key k d = is_some (lookup k d)

  -- `d[k] = v`: a new key goes to the end
  unfoldable pub insert : String → V → Dict V → Dict V
  insert k v [] = (k, v) ∷ []
  insert k v ((j, w) ∷ d) = if j == k then (j, v) ∷ d else (j, w) ∷ insert k v d

  -- `d.pop(k, None)`
  unfoldable pub pop : String → Dict V → Dict V
  pop k [] = []
  pop k ((j, v) ∷ d) = let rest = pop k d in if j == k then rest else (j, v) ∷ rest

  -- `d.values()`
  abbrev pub values : Dict V → List V
  values d = map (λ e. e.1) d

  pub lookup-insert :
      (k j : String) (v : V) (d : Dict V)
      → lookup j (insert k v d) ≡ (if k == j then some v else lookup j d)
  unfolding lookup insert
  lookup-insert k j v [] = refl
  lookup-insert k j v ((i, w) ∷ d) =
      ground (arith, eq_iff k j, eq_iff i k, eq_iff i j, lookup-insert k j v d)

  pub lookup-pop :
      (k j : String) (d : Dict V) → lookup j (pop k d) ≡ (if k == j then none else lookup j d)
  unfolding lookup pop
  lookup-pop k j [] = ground arith
  lookup-pop k j ((i, w) ∷ d) = ground (arith, eq_iff k j, eq_iff i k, eq_iff i j, lookup-pop k j d)

  -- A filter on the keys
  pub lookup-keep_if :
      (test : String → Bool) (k : String) (d : Dict V)
      → lookup k (keep_if (λ e. test e.0) d) ≡ (if test k then lookup k d else none)
  unfolding lookup
  lookup-keep_if test k [] = ground (arith, Bool-cases (test k))
  lookup-keep_if test k ((j, v) ∷ d) = ground (arith, lookup-keep_if test k d, eq_iff j k)

  pub lookup_nil : (k : String) → ◌≡◌ {A = Option V} (lookup k []) none
  unfolding lookup
  lookup_nil k = refl

pub ruleset dict_laws = (lookup-insert, lookup-pop, lookup_nil)
