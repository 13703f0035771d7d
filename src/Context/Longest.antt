-- ===== src/Context/Longest.antt =====
-- What the loops of `build_context` keep: the longest part at the front that fits.
use walrus_os.Base.{
  ℕ, ◌+◌, ◌≤◌, ◌<◌, String, ◌≡◌, refl, ap, List, [], ◌∷◌, ◌++◌, arith, map, leb, Bool-cases, inl,
  inr,
}
use mathlib.Core.Path.{subst}
use mathlib.Core.List.{reverse, reverse-reverse}
use walrus_os.Model.Value.{Payload, Value}
use walrus_os.Context.Entry.{Entry}
use walrus_os.Context.Search.{last_n}
use walrus_os.Context.Build.{
  estimate, fill, format_event, latest_blocks, smart_blocks, since_checkpoint, checkpoint_block,
  match_blocks, match_text, headed,
}

abbrev pub total : List String → ℕ
total [] = 0
total (t ∷ ts) = estimate t + total ts

-- The first text that is left, if any, does not fit.
abbrev pub Stops : ℕ → ℕ → List String → Type 0
Stops max_tokens used [] = Unit
Stops max_tokens used (t ∷ ts) = max_tokens < used + estimate t

-- `kept` is the longest part at the front of `texts` that fits after `current` tokens.
pub record Longest (max_tokens current : ℕ) (texts kept : List String) : Type 0 where
  pub rest : List String
  pub whole : texts ≡ kept ++ rest
  pub fits : current + total kept ≤ max_tokens
  pub stops : Stops max_tokens (current + total kept) rest

module _ (show : Value → String) (show_nat : ℕ → String) where
  fill-used :
      (m current : ℕ) (ts : List String)
      → (fill show show_nat m current ts).1 ≡ current + total (fill show show_nat m current ts).0
  unfolding fill
  fill-used m current [] = omega arith
  fill-used m current (t ∷ ts) = ground (arith, fill-used m (current + estimate t) ts)

  fill-Longest :
      (m current : ℕ) (ts : List String)
      → current ≤ m
      → Longest m current ts (fill show show_nat m current ts).0
  unfolding fill
  fill-Longest m current [] h = record { rest = []; whole = refl; fits = omega arith; stops = tt }
  fill-Longest m current (t ∷ ts) h = elim (Bool-cases (leb (current + estimate t) m)) [
    | inl p ↦
        let l = fill-Longest m (current + estimate t) ts (ground arith) in
        rw p (record {
          rest = l.rest;
          whole = ap (λ r. t ∷ r) l.whole;
          fits = omega (arith, l.fits);
          stops = subst (λ u. Stops m u l.rest) (omega arith) l.stops;
        })
    | inr p ↦
        rw p (record { rest = t ∷ ts; whole = refl; fits = omega arith; stops = ground arith })
  ]

  -- The context of the strategy "latest" is made of the oldest of the events that it is given, as
  -- many at the front as fit, and has the newest of these first.
  pub latest_blocks-Longest :
      (m : ℕ) (events : List Entry)
      → Longest m 0
          (map (format_event show show_nat) events)
          (reverse (latest_blocks show show_nat m events))
  unfolding latest_blocks
  latest_blocks-Longest m events =
      rw (reverse-reverse (fill show show_nat m 0 (map (format_event show show_nat) events)).0)
        (fill-Longest m 0 (map (format_event show show_nat) events) (omega arith))

  total-append : (xs ys : List String) → total (xs ++ ys) ≡ total xs + total ys
  total-append [] ys = omega arith
  total-append (x ∷ xs) ys = omega (arith, total-append xs ys)

  checkpoint_block-fits :
      (m : ℕ) (v : Value)
      → let r = checkpoint_block show show_nat m v in (total r.0 ≡ r.1) × (r.1 ≤ m)
  unfolding checkpoint_block
  checkpoint_block-fits m v = ground arith

  total-headed : (ts : List String) → total (headed show show_nat ts) ≤ total ts + 7
  unfolding estimate
  total-headed [] = omega arith
  total-headed (t ∷ ts) = omega arith

  match_blocks-fits :
      (m current : ℕ) (found : List Payload)
      → current ≤ m
      → current + total (match_blocks show show_nat m current found) ≤ m + 7
  unfolding match_blocks
  match_blocks-fits m current found h =
      let texts = map (match_text show show_nat "[Search Match] ") found in
      ground (
        arith,
        (fill-Longest m current texts h).fits,
        total-headed (fill show show_nat m current texts).0,
      )

  -- The blocks of the strategy "smart" have together at most the tokens of the budget and seven
  -- more, those of a heading.
  pub smart_blocks-fits :
      (m : ℕ) (timeline : List Entry) (found : List Payload)
      → total (smart_blocks show show_nat m timeline found) ≤ m + 7
  unfolding smart_blocks
  smart_blocks-fits m timeline found =
      let since = since_checkpoint show show_nat (reverse timeline) [] in
      let head = checkpoint_block show show_nat m since.0 in
      let start = checkpoint_block-fits m since.0 in
      let texts = map (format_event show show_nat) (last_n 10 (reverse since.1)) in
      let events = fill show show_nat m head.1 texts in
      let kept = fill-Longest m head.1 texts start.1 in
      let used = fill-used m head.1 texts in
      let shape : smart_blocks show show_nat m timeline found
          ≡ (head.0 ++ events.0) ++ match_blocks show show_nat m events.1 found =
        refl in
      let last = match_blocks-fits m events.1 found (omega (arith, used, kept.fits)) in
      omega (
        arith,
        ap total shape,
        total-append (head.0 ++ events.0) (match_blocks show show_nat m events.1 found),
        total-append head.0 events.0,
        start.0,
        used,
        last,
      )
