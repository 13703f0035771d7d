-- ===== src/Tests/Json.antt =====
-- A JSON of lists of texts that reads back what it writes, and numbers that are read back as texts.
use walrus_os.Base.{
  ℕ, eqb, String, ◌≡◌, ◌≢◌, refl, ap, ◌∙◌, Bool, true, false, Option, none, some, List, [], ◌∷◌,
}
use Prim.Native.Nat.{Ordering, compare}
use Prim.Native.Char.{Char, char, code, IsScalar, IsLt}
use text.Mathlib.TextLemmas.{cons-ne-nil}
use walrus_os.Model.Value.{str, obj}
use walrus_os.Replay.BlobId.{codes}
use walrus_os.Sqlite.Tables.{Json}
use walrus_os.Sqlite.Rows.{Faithful}

-- A text is marked twice at its start, and each of its characters once; the list ends with a mark.
unfoldable pub write_text : String → String → String
write_text String.[] rest = rest
write_text (String.◌∷◌ c s) rest = String.◌∷◌ "a" (String.◌∷◌ c (write_text s rest))

unfoldable pub write_list : List String → String
unfolding write_text
write_list [] = "e"
write_list (s ∷ ss) = String.◌∷◌ "b" (String.◌∷◌ "b" (write_text s (write_list ss)))

abbrev step : Bool → Char → Option (String × List String) → Option (String × List String)
step part d none = none
step true d (some r) = some (String.◌∷◌ d r.0, r.1)
step false d (some r) = some ("", (r.0 ∷ r.1))

-- The text that is read, and the texts after it.
unfoldable pub read_on : String → Option (String × List String)
read_on String.[] = none
read_on (String.◌∷◌ c String.[]) = some ("", [])
read_on (String.◌∷◌ c (String.◌∷◌ d s)) = step (eqb (code c) b'a') d (read_on s)

unfoldable pub read_list : String → Option (List String)
unfolding read_on
read_list t = elim (read_on t) [ none ↦ none | some r ↦ some r.1 ]

read_on-write_text :
    (s t : String) (ss : List String)
    → read_on t ≡ some ("", ss)
    → read_on (write_text s t) ≡ some (s, ss)
unfolding read_on write_text
read_on-write_text String.[] t ss h = h
read_on-write_text (String.◌∷◌ c s) t ss h = rw (read_on-write_text s t ss h) refl

read_on-write_list : (ss : List String) → read_on (write_list ss) ≡ some ("", ss)
unfolding read_on write_list
read_on-write_list [] = refl
read_on-write_list (s ∷ ss) =
    rw (read_on-write_text s (write_list ss) ss (read_on-write_list ss)) refl

abbrev pub json : Json
json = record {
  dumps_list = write_list;
  loads_list = read_list;
  dumps_floats = write_list;
  loads_floats = read_list;
  dumps_values = λ vs. "values";
  loads_values = λ t. some (str "read" ∷ []);
  dumps_value = λ v. "value";
  loads_value = λ t. some (obj []);
  dumps_payload = λ p. "payload";
  loads_payload = λ t. some [];
}

pub back : (xs : List String) → read_list (write_list xs) ≡ some xs
unfolding read_list
back xs = rw (read_list, read_on-write_list xs) refl

nonempty : (xs : List String) → write_list xs ≢ ""
unfolding write_list
nonempty [] h = cons-ne-nil "e" "" h
nonempty (s ∷ ss) h = cons-ne-nil "b" _ h

pub json-Faithful : Faithful json
json-Faithful = record {
  list_back = back;
  list_text = nonempty;
  floats_back = back;
  floats_text = nonempty;
}

-- The test that a number is that of a character, with the clauses of the built-in one.
abbrev BothLt : Ordering → Ordering → Type 0
BothLt Ordering.lt o = IsLt o
BothLt Ordering.eq _ = ⊥
BothLt Ordering.gt _ = ⊥

abbrev Scalar : Ordering → Ordering → Ordering → Type 0
Scalar Ordering.lt _ _ = Unit
Scalar Ordering.eq o p = BothLt o p
Scalar Ordering.gt o p = BothLt o p

abbrev both : (o p : Ordering) → Option (BothLt o p)
both Ordering.lt Ordering.lt = some tt
both Ordering.lt _ = none
both _ _ = none

abbrev scalar : (o p q : Ordering) → Option (Scalar o p q)
scalar Ordering.lt p q = some tt
scalar Ordering.eq p q = both p q
scalar Ordering.gt p q = both p q

both-some : (o p : Ordering) (h : BothLt o p) → both o p ≡ some h
both-some Ordering.lt Ordering.lt h = refl
both-some Ordering.lt Ordering.eq h = absurd h
both-some Ordering.lt Ordering.gt h = absurd h
both-some Ordering.eq p h = absurd h
both-some Ordering.gt p h = absurd h

scalar-some : (o p q : Ordering) (h : Scalar o p q) → scalar o p q ≡ some h
scalar-some Ordering.lt p q h = refl
scalar-some Ordering.eq p q h = both-some p q h
scalar-some Ordering.gt p q h = both-some p q h

abbrev is_scalar : (n : ℕ) → Option (IsScalar n)
is_scalar n = scalar (compare n 55296) (compare 57343 n) (compare n 1114112)

abbrev put_char : (n : ℕ) → Option (IsScalar n) → Option String → Option String
put_char n none rest = none
put_char n (some h) none = none
put_char n (some h) (some s) = some (String.◌∷◌ (char n h) s)

unfoldable pub read_codes : List ℕ → Option String
read_codes [] = some ""
read_codes (n ∷ ns) = put_char n (is_scalar n) (read_codes ns)

pub read_codes-codes : (s : String) → read_codes (codes s) ≡ some s
unfolding read_codes
read_codes-codes String.[] = refl
read_codes-codes (String.◌∷◌ (char n h) s) =
    ap (λ v. put_char n v (read_codes (codes s)))
      (scalar-some (compare n 55296) (compare 57343 n) (compare n 1114112) h)
    ∙ ap (λ v. put_char n (some h) v) (read_codes-codes s)
