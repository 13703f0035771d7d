-- ===== src/Memory/Read/Range.antt =====
-- `replay` of the memory engine: which events of the timeline it returns.
use walrus_os.Base.{
  ℕ, ◌+◌, ◌<◌, String, ◌≡◌, refl, ◌&&◌, Option, none, some, List, [], ◌∷◌, arith, length, keep_if,
  map, leb, ap, ◌∙◌, length-map,
}
use walrus_os.Model.Value.{Payload}
use walrus_os.Adapters.Ledger.{StoredEvent, memory, protocol}
use walrus_os.Memory.State.{Engine, Env}
use walrus_os.Memory.Read.{timeline, epoch_or, at_most, in_range, replay}

-- Each event with the epoch that `replay` gives it, counting from `i`.
abbrev pub numbered : ℕ → List (StoredEvent × Payload) → List (ℕ × Payload)
numbered i [] = []
numbered i ((e, p) ∷ tl) = (epoch_or e i, p) ∷ numbered (i + 1) tl

in_range-keep_if :
    (up_to : Option ℕ) (first i : ℕ) (tl : List (StoredEvent × Payload))
    → in_range up_to first i tl
      ≡ map (λ r. r.1) (keep_if (λ r. leb first r.0 && at_most r.0 up_to) (numbered i tl))
unfolding in_range
in_range-keep_if up_to first i [] = refl
in_range-keep_if up_to first i ((e, p) ∷ tl) =
    ground (arith, in_range-keep_if up_to first (i + 1) tl)

-- An event whose epoch counts from one, as those of `append` do.
epoch_or_pos : (e : StoredEvent) (i : ℕ) → 0 < i → 0 < epoch_or e i
epoch_or_pos (memory e) i h = ground arith
epoch_or_pos (protocol e) i h = h

in_range-all :
    (i : ℕ) (tl : List (StoredEvent × Payload)) → 0 < i → in_range none 1 i tl ≡ map (λ r. r.1) tl
unfolding in_range
in_range-all i [] h = refl
in_range-all i ((e, p) ∷ tl) h = ground (arith, epoch_or_pos e i h, in_range-all (i + 1) tl)

in_range-split :
    (n i : ℕ) (tl : List (StoredEvent × Payload))
    → length (in_range (some n) 1 i tl) + length (in_range none (n + 1) i tl)
      ≡ length (in_range none 1 i tl)
unfolding in_range
in_range-split n i [] = omega arith
in_range-split n i ((e, p) ∷ tl) = ground (arith, in_range-split n (i + 1) tl)

-- A replay returns the payloads of the timeline, in order, whose epoch is in the range, where an
-- event without an epoch, or of epoch zero, has its position for one. With the defaults it returns
-- every payload; the ranges up to `n` and from `n + 1` on have together as many as the timeline.
replay_ranges :
    (env : Env) (stream_id : String) (up_to : Option ℕ) (first n : ℕ) (s : Engine)
    → (replay env stream_id up_to first s
        ≡ map
            (λ r. r.1)
            (keep_if
              (λ r. leb first r.0 && at_most r.0 up_to)
              (numbered 1 (timeline env stream_id s))))
      × (replay env stream_id none 1 s ≡ map (λ r. r.1) (timeline env stream_id s))
      × (length (replay env stream_id (some n) 1 s) + length (replay env stream_id none (n + 1) s)
          ≡ length (timeline env stream_id s))
unfolding replay
replay_ranges env stream_id up_to first n s = (
  in_range-keep_if up_to first 1 (timeline env stream_id s),
  in_range-all 1 (timeline env stream_id s) (omega arith),
  in_range-split n 1 (timeline env stream_id s)
      ∙ ap length (in_range-all 1 (timeline env stream_id s) (omega arith))
      ∙ length-map (timeline env stream_id s) (λ r. r.1),
)
