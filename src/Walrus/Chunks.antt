-- ===== src/Walrus/Chunks.antt =====
-- The chunks of a payload, joined again, are the payload.
use walrus_os.Base.{
  ℕ, zero, suc, ◌+◌, ◌-◌, ◌*◌, ◌<◌, ◌≤◌, ◌≡◌, refl, ap, ◌∙◌, List, [], ◌∷◌, ◌++◌, arith, length,
  take, drop, take-append-drop, length-drop,
}
use native.Mathlib.Nat.{lt-div-mul-add}
use walrus_os.Walrus.Adapter.{chunks, chunk_count}

module _ {A : Type 0} where
  abbrev pub joined : List (List A) → List A
  joined [] = []
  joined (x ∷ xs) = x ++ joined xs

  joined-chunks_count :
      (size n : ℕ) (xs : List A) → length xs ≤ n * size → joined (chunks size n xs) ≡ xs
  unfolding chunks
  joined-chunks_count size zero [] h = refl
  joined-chunks_count size zero (x ∷ xs) h = absurd (omega (arith, h))
  joined-chunks_count size (suc n) xs h =
      ap (λ r. take size xs ++ r)
        (joined-chunks_count size n (drop size xs) (omega (arith, length-drop size xs, h)))
      ∙ take-append-drop size xs

  pub joined-chunks :
      (size : ℕ) (xs : List A) → 0 < size → joined (chunks size (chunk_count size xs) xs) ≡ xs
  joined-chunks size xs pos =
      joined-chunks_count size (chunk_count size xs) xs
        (omega (arith, lt-div-mul-add {a = length xs + size - 1} {b = size} pos, pos))
