-- ===== src/Runtime/Pattern.antt =====
-- `EventMesh._matches`: topic patterns with a wildcard at the end, over code points.
use walrus_os.Base.{
  ℕ, String, ◌≡◌, refl, Bool, true, false, ◌&&◌, Option, none, some, List, [], ◌∷◌, ◌++◌, ◌==◌, ◌↔◌,
  inl, inr, eqb, arith, eq_iff, if◌then◌else◌, Bool-cases, Option-cases,
}
use walrus_os.Replay.BlobId.{codes}

-- `topic.startswith(prefix)`
unfoldable pub starts_with : List ℕ → List ℕ → Bool
starts_with [] cs = true
starts_with (p ∷ ps) [] = false
starts_with (p ∷ ps) (c ∷ cs) = let rest = starts_with ps cs in eqb p c && rest

-- `pattern[:-2]` if the pattern ends in `.*`
unfoldable pub before_wildcard : List ℕ → Option (List ℕ)
before_wildcard [] = none
before_wildcard (c ∷ []) = none
before_wildcard (c ∷ d ∷ []) = if eqb c b'.' && eqb d b'*' then some [] else none
before_wildcard (c ∷ d ∷ e ∷ cs) = elim (before_wildcard (d ∷ e ∷ cs)) [
  | none ↦ none
  | some p ↦ some (c ∷ p)
]

abbrev pub matches_wildcard : Option (List ℕ) → List ℕ → Bool
matches_wildcard none topic = false
matches_wildcard (some p) topic = starts_with (p ++ b'.' ∷ []) topic

unfoldable pub matches : String → String → Bool
unfolding starts_with before_wildcard
matches pattern topic =
    if pattern == "*"
    then true
    else if pattern == topic
    then true
    else matches_wildcard (before_wildcard (codes pattern)) (codes topic)

starts_with-append : (ps cs : List ℕ) → starts_with ps cs ≡ true → (t : List ℕ) × (cs ≡ ps ++ t)
unfolding starts_with
starts_with-append [] cs h = (cs, refl)
starts_with-append (p ∷ ps) [] h = cc
starts_with-append (p ∷ ps) (c ∷ cs) h =
    let (t, e) = starts_with-append ps cs (ground arith) in (t, ground arith)

append-starts_with : (ps t : List ℕ) → starts_with ps (ps ++ t) ≡ true
unfolding starts_with
append-starts_with [] t = refl
append-starts_with (p ∷ ps) t = ground (arith, append-starts_with ps t)

before_wildcard-append : (cs p : List ℕ) → before_wildcard cs ≡ some p → cs ≡ p ++ b'.' ∷ b'*' ∷ []
unfolding before_wildcard
before_wildcard-append [] p h = cc
before_wildcard-append (c ∷ []) p h = cc
before_wildcard-append (c ∷ d ∷ []) p h = ground arith
before_wildcard-append (c ∷ d ∷ e ∷ cs) p h = elim (Option-cases (before_wildcard (d ∷ e ∷ cs))) [
  | inl n ↦ cc
  | inr (q, s) ↦ ground (arith, before_wildcard-append (d ∷ e ∷ cs) q s)
]

append-before_wildcard : (p : List ℕ) → before_wildcard (p ++ b'.' ∷ b'*' ∷ []) ≡ some p
unfolding before_wildcard
append-before_wildcard [] = refl
append-before_wildcard (c ∷ []) = refl
append-before_wildcard (c ∷ d ∷ []) = refl
append-before_wildcard (c ∷ d ∷ e ∷ p) = ground (arith, append-before_wildcard (d ∷ e ∷ p))

-- What the docstring of `subscribe_topic` promises.
pub data Matches (pattern topic : String) : Type 0 where
  everything : pattern ≡ "*" → Matches pattern topic
  exact : pattern ≡ topic → Matches pattern topic
  below :
      (p t : List ℕ)
      → codes pattern ≡ p ++ b'.' ∷ b'*' ∷ []
      → codes topic ≡ (p ++ b'.' ∷ []) ++ t
      → Matches pattern topic

matches-Matches : (pattern topic : String) → matches pattern topic ≡ true → Matches pattern topic
unfolding matches
matches-Matches pattern topic h = elim (Bool-cases (pattern == "*")) [
  | inl a ↦ everything ((eq_iff pattern "*").0 a)
  | inr a ↦ elim (Bool-cases (pattern == topic)) [
    | inl b ↦ exact ((eq_iff pattern topic).0 b)
    | inr b ↦ elim (Option-cases (before_wildcard (codes pattern))) [
      | inl n ↦ absurd (ground arith)
      | inr (p, s) ↦
          let (t, e) = starts_with-append (p ++ b'.' ∷ []) (codes topic) (ground arith) in
          below p t (before_wildcard-append (codes pattern) p s) e
    ]
  ]
]

Matches-matches : (pattern topic : String) → Matches pattern topic → matches pattern topic ≡ true
unfolding matches
Matches-matches pattern topic (everything a) = ground (arith, eq_iff pattern "*")
Matches-matches pattern topic (exact a) = ground (arith, eq_iff pattern topic)
Matches-matches pattern topic (below p t a b) =
    ground (arith, append-before_wildcard p, append-starts_with (p ++ b'.' ∷ []) t)

-- A pattern matches a topic exactly if it is a star, or the topic itself, or ends in a dot and a
-- star and the topic starts with what is before the star.
matches_iff : (pattern topic : String) → (matches pattern topic ≡ true) ↔ Matches pattern topic
matches_iff pattern topic = (matches-Matches pattern topic, Matches-matches pattern topic)
