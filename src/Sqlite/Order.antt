-- ===== src/Sqlite/Order.antt =====
-- The stable sort that stands for ORDER BY: what it keeps, and on what it does nothing.
use walrus_os.Base.{ℕ, ◌≡◌, refl, Bool, true, ◌&&◌, List, [], ◌∷◌, arith, ltb}
use walrus_os.Base.Result.{Result, ok, all_ok}
use walrus_os.Sqlite.Tables.{place, order_by}

module _ {A : Type 0} (key : A → ℕ) where
  -- Each key is greater than `n` and than those before it.
  abbrev pub rising : ℕ → List A → Bool
  rising n [] = true
  rising n (x ∷ xs) = ltb n (key x) && rising (key x) xs

  place-rising : (n : ℕ) (x : A) (xs : List A) → rising (key x) xs ≡ true → place key x xs ≡ x ∷ xs
  unfolding place
  place-rising n x [] h = refl
  place-rising n x (y ∷ xs) h = ground arith

  pub order_by-rising : (n : ℕ) (xs : List A) → rising n xs ≡ true → order_by key xs ≡ xs
  unfolding order_by
  order_by-rising n [] h = refl
  order_by-rising n (x ∷ xs) h = ground (arith, order_by-rising (key x) xs, place-rising n x xs)

-- Two lists whose entries correspond: the second is what reading the first gives.
module _ {A B : Type 0} (key : A → ℕ) (key' : B → ℕ) (read : A → Result B) where
  abbrev pub Reads : List A → List B → Type 0
  Reads [] [] = Unit
  Reads (x ∷ xs) (y ∷ ys) = (key x ≡ key' y) × (read x ≡ ok y) × Reads xs ys
  Reads _ _ = ⊥

  place-Reads :
      (x : A) (y : B) (xs : List A) (ys : List B)
      → key x ≡ key' y
      → read x ≡ ok y
      → Reads xs ys
      → Reads (place key x xs) (place key' y ys)
  unfolding place
  place-Reads x y [] [] k r h = (k, r, tt)
  place-Reads x y [] (b ∷ ys) k r h = absurd h
  place-Reads x y (a ∷ xs) [] k r h = absurd h
  place-Reads x y (a ∷ xs) (b ∷ ys) k r h = ground (arith, place-Reads x y xs ys k r h.2, h)

  order_by-Reads :
      (xs : List A) (ys : List B) → Reads xs ys → Reads (order_by key xs) (order_by key' ys)
  unfolding order_by
  order_by-Reads [] [] h = tt
  order_by-Reads [] (y ∷ ys) h = absurd h
  order_by-Reads (x ∷ xs) [] h = absurd h
  order_by-Reads (x ∷ xs) (y ∷ ys) h =
      place-Reads x y (order_by key xs) (order_by key' ys) h.0 h.1 (order_by-Reads xs ys h.2)

  all_ok-Reads : (xs : List A) (ys : List B) → Reads xs ys → all_ok read xs ≡ ok ys
  unfolding all_ok
  all_ok-Reads [] [] h = refl
  all_ok-Reads [] (y ∷ ys) h = absurd h
  all_ok-Reads (x ∷ xs) [] h = absurd h
  all_ok-Reads (x ∷ xs) (y ∷ ys) h = ground (arith, all_ok-Reads xs ys h.2, h)

  -- Reading the sorted rows gives what they read as, sorted.
  pub all_ok-order_by :
      (xs : List A) (ys : List B)
      → Reads xs ys
      → all_ok read (order_by key xs) ≡ ok (order_by key' ys)
  all_ok-order_by xs ys h =
      all_ok-Reads (order_by key xs) (order_by key' ys) (order_by-Reads xs ys h)
