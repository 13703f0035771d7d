-- ===== src/Replay/BlobId.antt =====
-- `_validate_blob_id`: the regular expression `^(?:manifest:)?[A-Za-z0-9_-]{1,64}$` over the code
-- points of the text. Python's `$` also matches before a newline at the end.
use walrus_os.Base.{
  Option-cases, length-append, ap, ◌++◌, ℕ, zero, suc, ◌+◌, ◌≤◌, String, ◌≡◌, ◌≢◌, refl, Bool, true,
  false, ◌&&◌, ◌||◌, Option, none, some, List, [], ◌∷◌, leb, eqb, arith, length, All, if◌then◌else◌,
  Bool-cases, inl, inr,
}
use Prim.Native.Char.{code}

abbrev pub codes : String → List ℕ
codes String.[] = []
codes (String.◌∷◌ c s) = code c ∷ codes s

-- `[A-Za-z0-9_-]`
abbrev pub is_blob_char : ℕ → Bool
is_blob_char c =
    leb b'A' c && leb c b'Z'
    || leb b'a' c && leb c b'z'
    || leb b'0' c && leb c b'9'
    || eqb c b'_'
    || eqb c b'-'

-- The end of the text, or one newline before it
unfoldable pub at_end : List ℕ → Bool
at_end [] = true
at_end (c ∷ []) = eqb c 10
at_end (c ∷ d ∷ cs) = false

-- Up to `room` more characters of the class, then the end.
unfoldable pub run_ok : ℕ → List ℕ → Bool
unfolding at_end
run_ok room [] = true
run_ok zero (c ∷ cs) = at_end (c ∷ cs)
run_ok (suc room) (c ∷ cs) =
    let rest = run_ok room cs in if is_blob_char c then rest else at_end (c ∷ cs)

unfoldable pub body_ok : List ℕ → Bool
unfolding run_ok
body_ok [] = false
body_ok (c ∷ cs) = is_blob_char c && run_ok 63 cs

abbrev pub manifest_prefix : List ℕ
manifest_prefix = codes "manifest:"

-- The text without a prefix, if it has it.
unfoldable pub after_prefix : List ℕ → List ℕ → Option (List ℕ)
after_prefix [] cs = some cs
after_prefix (p ∷ ps) [] = none
after_prefix (p ∷ ps) (c ∷ cs) = let rest = after_prefix ps cs in if eqb p c then rest else none

-- The prefix holds a colon, which is outside the class, so no match leaves it to the body.
unfoldable pub matches_blob_id : List ℕ → Bool
unfolding after_prefix body_ok
matches_blob_id cs = elim (after_prefix manifest_prefix cs) [
  | none ↦ body_ok cs
  | some rest ↦ body_ok rest
]

-- `_validate_blob_id` raises exactly on `false`.
unfoldable pub valid_blob_id : Option String → Bool
unfolding matches_blob_id
valid_blob_id none = true
valid_blob_id (some blob_id) = matches_blob_id (codes blob_id)

-- No part of a path, no separator and no other control character than a newline.
abbrev pub IsHarmless : ℕ → Type 0
IsHarmless c = (c ≢ b'/') × (c ≢ b'.') × (c ≢ b'%') × (c ≢ 92) × (c ≢ b' ') × (c ≢ 0)

at_end-IsHarmless : (cs : List ℕ) → at_end cs ≡ true → All IsHarmless cs
unfolding at_end
at_end-IsHarmless [] h = tt
at_end-IsHarmless (c ∷ []) h = ground arith
at_end-IsHarmless (c ∷ d ∷ cs) h = cc

outside_class : (k c : ℕ) → is_blob_char k ≡ false → is_blob_char c ≡ true → c ≢ k
outside_class k c out inside e = cc (ap is_blob_char e)

blob_char-IsHarmless : (c : ℕ) → is_blob_char c ≡ true → IsHarmless c
blob_char-IsHarmless c h = (
  outside_class b'/' c refl h,
  outside_class b'.' c refl h,
  outside_class b'%' c refl h,
  outside_class 92 c refl h,
  outside_class b' ' c refl h,
  outside_class 0 c refl h,
)

run_ok-IsHarmless : (room : ℕ) (cs : List ℕ) → run_ok room cs ≡ true → All IsHarmless cs
unfolding run_ok
run_ok-IsHarmless room [] h = tt
run_ok-IsHarmless zero (c ∷ cs) h = at_end-IsHarmless (c ∷ cs) h
run_ok-IsHarmless (suc room) (c ∷ cs) h = elim (Bool-cases (is_blob_char c)) [
  | inl p ↦ (blob_char-IsHarmless c p, run_ok-IsHarmless room cs (rw p at h))
  | inr p ↦ at_end-IsHarmless (c ∷ cs) (rw p at h)
]

length-run_ok : (room : ℕ) (cs : List ℕ) → run_ok room cs ≡ true → length cs ≤ room + 1
unfolding run_ok at_end
length-run_ok room [] h = omega arith
length-run_ok zero (c ∷ []) h = omega arith
length-run_ok zero (c ∷ d ∷ cs) h = cc
length-run_ok (suc room) (c ∷ []) h = omega arith
length-run_ok (suc room) (c ∷ d ∷ cs) h = elim (Bool-cases (is_blob_char c)) [
  | inl p ↦ omega (arith, length-run_ok room (d ∷ cs) (rw p at h))
  | inr p ↦ cc (rw p at h)
]

body_ok-IsHarmless : (cs : List ℕ) → body_ok cs ≡ true → All IsHarmless cs × (length cs ≤ 65)
unfolding body_ok
body_ok-IsHarmless [] h = cc
body_ok-IsHarmless (c ∷ cs) h = elim (Bool-cases (is_blob_char c)) [
  | inl p ↦
      let rest = rw p at h in
      (
        (blob_char-IsHarmless c p, run_ok-IsHarmless 63 cs rest),
        omega (arith, length-run_ok 63 cs rest),
      )
  | inr p ↦ cc (rw p at h)
]

after_prefix-eq-append : (ps cs rest : List ℕ) → after_prefix ps cs ≡ some rest → cs ≡ ps ++ rest
unfolding after_prefix
after_prefix-eq-append [] cs rest h = cc
after_prefix-eq-append (p ∷ ps) [] rest h = cc
after_prefix-eq-append (p ∷ ps) (c ∷ cs) rest h = ground (arith, after_prefix-eq-append ps cs rest)

All-append : (xs ys : List ℕ) → All IsHarmless xs → All IsHarmless ys → All IsHarmless (xs ++ ys)
All-append [] ys h k = k
All-append (x ∷ xs) ys h k = (h.0, All-append xs ys h.1 k)

prefix-IsHarmless : All IsHarmless manifest_prefix
prefix-IsHarmless = omega arith

-- An accepted blob id has no slash, dot, percent sign, backslash, blank or zero, and at most 74
-- characters: the prefix of nine, 64 of the class and one newline at the end.
pub valid_blob_id-IsHarmless :
    (blob_id : String)
    → valid_blob_id (some blob_id) ≡ true
    → All IsHarmless (codes blob_id) × (length (codes blob_id) ≤ 74)
unfolding valid_blob_id matches_blob_id
valid_blob_id-IsHarmless blob_id h =
    elim (Option-cases (after_prefix manifest_prefix (codes blob_id))) [
      | inl plain ↦
          let (safe, short) =
            body_ok-IsHarmless (codes blob_id) (rw (plain, valid_blob_id, matches_blob_id) at h) in
          (safe, omega arith)
      | inr (rest, e) ↦
          let (safe, short) =
            body_ok-IsHarmless rest (rw (e, valid_blob_id, matches_blob_id) at h) in
          rw (after_prefix-eq-append manifest_prefix (codes blob_id) rest e) (
            All-append manifest_prefix rest prefix-IsHarmless safe,
            omega (arith, length-append manifest_prefix rest),
          )
    ]

-- A text that ends in a newline passes, since `$` matches before it.
pub newline_passes : valid_blob_id (some "blob\n") ≡ true
unfolding valid_blob_id
newline_passes = refl

pub slash_fails : valid_blob_id (some "../etc") ≡ false
unfolding valid_blob_id
slash_fails = refl
