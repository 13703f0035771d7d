-- ===== src/TimeTravel/Ancestor.antt =====
-- `TimeTravelEngine.find_lca` on lineages that share their first event.
use walrus_os.Base.{
  ℕ, suc, ◌+◌, String, ◌≡◌, refl, Bool, true, not, some, List, [], ◌∷◌, ◌==◌, arith, eq_iff, map,
  take, drop, Bool-cases, inl, inr, ap, ◌∙◌,
}
use walrus_os.Adapters.Ledger.{StoredEvent, stored_id}
use walrus_os.Base.Result.{ok}
use walrus_os.TimeTravel.{walk, diverge}

abbrev pub ids : List StoredEvent → List String
ids xs = map (λ e. stored_id e) xs

-- One is empty, or they start with events of different ids.
abbrev pub parts : List StoredEvent → List StoredEvent → Bool
parts [] ys = true
parts (x ∷ xs) [] = true
parts (x ∷ xs) (y ∷ ys) = not (stored_id x == stored_id y)

abbrev pub last_event : StoredEvent → List StoredEvent → StoredEvent
last_event x [] = x
last_event x (y ∷ ys) = last_event y ys

-- The lineages after a shared event `x` share `k` more, and then part.
pub record Split (x : StoredEvent) (n k : ℕ) (xs ys : List StoredEvent) : Type 0 where
  pub found : walk (some x) n xs ys ≡ (some (last_event x (take k xs)), n + k)
  pub shared : ids (take k xs) ≡ ids (take k ys)
  pub parted : parts (drop k xs) (drop k ys) ≡ true

walk-Split : (x : StoredEvent) (n : ℕ) (xs ys : List StoredEvent) → (k : ℕ) × Split x n k xs ys
unfolding walk
walk-Split x n [] ys =
    let same : n ≡ n + 0 = omega arith in
    (0, record { found = ap (λ m. (some x, m)) same; shared = no_ids ys; parted = refl })
  where
    no_ids : (ys : List StoredEvent) → ids [] ≡ ids (take 0 ys)
    no_ids ys = refl
walk-Split x n (a ∷ xs) [] =
    let same : n ≡ n + 0 = omega arith in
    (0, record { found = ap (λ m. (some x, m)) same; shared = refl; parted = refl })
walk-Split x n (a ∷ xs) (b ∷ ys) = elim (Bool-cases (stored_id a == stored_id b)) [
  | inr differ ↦
      let same : n ≡ n + 0 = omega arith in
      (
        0,
        record {
          found = rw (walk, differ) (ap (λ m. (some x, m)) same);
          shared = refl;
          parted = rw differ refl;
        },
      )
  | inl equal ↦
      let (k, rest) = walk-Split a (n + 1) xs ys in
      let same : n + 1 + k ≡ n + suc k = omega arith in
      (
        suc k,
        record {
          found =
              rw (walk, equal) (rest.found ∙ ap (λ m. (some (last_event a (take k xs)), m)) same);
          shared = ground (arith, eq_iff (stored_id a) (stored_id b), rest.shared);
          parted = rest.parted;
        },
      )
]

-- Two lineages that start with the same event share it and `k` events more, id by id, and then part:
-- the ancestor is the last of them, and the branches are what follows it.
diverge-Split :
    (x y : StoredEvent) (xs ys : List StoredEvent)
    → stored_id x ≡ stored_id y
    → (k : ℕ) × (diverge (x ∷ xs) (y ∷ ys)
        ≡ ok (some (last_event x (take k xs)), drop k xs, drop k ys))
      × (ids (take k xs) ≡ ids (take k ys))
      × (parts (drop k xs) (drop k ys) ≡ true)
unfolding diverge walk
diverge-Split x y xs ys same =
    let (k, s) = walk-Split x 1 xs ys in
    let one_more : 1 + k ≡ suc k = omega arith in
    (
      k,
      rw (diverge, walk, (eq_iff (stored_id x) (stored_id y)).1 same, s.found, one_more) refl,
      s.shared,
      s.parted,
    )
