-- ===== src/Model/Value.antt =====
-- The payload of an event: a Python dict from text to JSON values. The values that the code takes
-- apart have a constructor each; any other JSON value is `raw`, by its JSON text.
use walrus_os.Base.{
  ℕ, String, ◌≡◌, ◌↔◌, Bool, true, false, not, ◌&&◌, Option, none, some, List, [], ◌∷◌, arith, ◌==◌,
  eqb, eq_iff, refl,
}
use walrus_os.Base.Dict.{Dict, lookup}
use native.Mathlib.Decide.{ℕ_discrete}

-- The `_meta` block that `MemoryEngine.append` writes. A float is its decimal text.
pub record Meta : Type 0 where
  pub tags : List String
  pub importance : String
  pub summary : Option String
  pub project : Option String
  pub memory_type : String

pub data Value : Type 0 where
  null : Value
  str : String → Value
  num : ℕ → Value
  strs : List String → Value
  obj : Dict String → Value
  meta : Meta → Value
  raw : String → Value

text_dec : (a b : String) (t : Bool) → (a == b) ≡ t → Dec (a ≡ b)
text_dec a b true e = yes ((eq_iff a b).0 e)
text_dec a b false e = no (λ p. ground (arith, eq_iff a b))

String-discrete : Discrete String
unfolding text_dec
String-discrete a b = text_dec a b (a == b) refl

unfoldable pub Value-discrete : Discrete Value
unfolding String-discrete
Value-discrete = hlevel (String-discrete, ℕ_discrete)

-- Python's `==` on two payload values (a number and a truth value are never compared by the code).
unfoldable pub value_eq : Value → Value → Bool
unfolding Value-discrete
value_eq a b = elim (Value-discrete a b) [ yes _ ↦ true | no _ ↦ false ]

pub value_eq_iff : (a b : Value) → (value_eq a b ≡ true) ↔ (a ≡ b)
unfolding value_eq
value_eq_iff a b = elim (Value-discrete a b) [ yes p ↦ ground arith | no p ↦ ground arith ]

-- Whether a value counts as true in `if value`.
unfoldable pub truthy : Value → Bool
truthy null = false
truthy (str s) = not (s == "")
truthy (num n) = not (eqb n 0)
truthy (strs []) = false
truthy (strs (x ∷ xs)) = true
truthy (obj []) = false
truthy (obj (x ∷ xs)) = true
truthy (meta m) = true
truthy (raw t) =
    not (t == "false")
    && not (t == "0.0")
    && not (t == "-0.0")
    && not (t == "[]")
    && not (t == "{}")

abbrev pub Payload : Type 0
Payload = Dict Value

abbrev pub or_null : Option Value → Value
or_null none = null
or_null (some v) = v

-- `payload.get(k)`: `None` for a missing key
unfoldable pub get : String → Payload → Value
get k p = or_null (lookup k p)

-- `payload.get(k, d)`
unfoldable pub get_or : String → Value → Payload → Value
get_or k d p = elim (lookup k p) [ none ↦ d | some v ↦ v ]

-- `isinstance(v, str)`
abbrev pub as_text : Value → Option String
as_text (str s) = some s
as_text _ = none

-- The text values of a payload, joined by blanks: `" ".join(v for v in payload.values() if ...)`
unfoldable pub text_values : Payload → List String
text_values [] = []
text_values ((k, v) ∷ p) =
    let rest = text_values p in elim (as_text v) [ none ↦ rest | some s ↦ s ∷ rest ]
