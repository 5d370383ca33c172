-- ===== src/Cache/Sort/Order.antt =====
-- The exchange sort of GetPendingCommands orders its entries and keeps them all.
use castle_ops_client.Prelude.{
  ℕ, zero, suc, ◌+◌, ◌-◌, ◌≤◌, ◌≡◌, refl, inl, inr, List, [], ◌∷◌, Perm, arith, ltb, length,
  Bool-cases, All,
}
use castle_ops_client.Cache.Sort.{exchange, inner_loop, outer_loop, sort_pending, IsSorted}
use mathlib.Core.List.Perm

module _ {ℓ} {A : Type ℓ} (key : A → ℕ) where
  exchange-perm :
      (x y : A) (ys : List A) → Perm ((exchange key x y).1 ∷ (exchange key x y).0 ∷ ys) (x ∷ y ∷ ys)
  exchange-perm x y ys = elim (Bool-cases (ltb (key y) (key x))) [
    | inl swapped ↦ rw swapped (Perm.refl (x ∷ y ∷ ys))
    | inr kept ↦ rw kept (Perm.swap x y ys)
  ]

  inner_loop-perm :
      (x : A) (xs : List A) → Perm ((inner_loop key x xs).0 ∷ (inner_loop key x xs).1) (x ∷ xs)
  unfolding inner_loop
  inner_loop-perm x [] = Perm.refl (x ∷ [])
  inner_loop-perm x (y ∷ ys) =
      let (lo, hi) = exchange key x y in
      Perm.trans (Perm.swap hi (inner_loop key lo ys).0 (inner_loop key lo ys).1)
        (Perm.trans (Perm.cons hi (inner_loop-perm lo ys)) (exchange-perm x y ys))

  outer_loop-perm : (n : ℕ) (xs : List A) → Perm (outer_loop key n xs) xs
  unfolding outer_loop
  outer_loop-perm zero xs = Perm.refl xs
  outer_loop-perm (suc n) [] = Perm.refl []
  outer_loop-perm (suc n) (x ∷ xs) =
      Perm.trans (Perm.cons (inner_loop key x xs).0 (outer_loop-perm n (inner_loop key x xs).1))
        (inner_loop-perm x xs)

  -- The inner loop leaves the least key at `i`.
  inner_loop_least :
      (x : A) (xs : List A)
      → (key (inner_loop key x xs).0 ≤ key x)
        × All (λ y. key (inner_loop key x xs).0 ≤ key y) (inner_loop key x xs).1
  unfolding inner_loop
  inner_loop_least x [] = (omega arith, tt)
  inner_loop_least x (y ∷ ys) =
      let (lo, hi) = exchange key x y in
      let (small, rest) = inner_loop_least lo ys in
      (ground (arith, small), (ground (arith, small), rest))

  length-inner_loop : (x : A) (xs : List A) → length (inner_loop key x xs).1 ≡ length xs
  unfolding inner_loop
  length-inner_loop x [] = refl
  length-inner_loop x (y ∷ ys) = omega (arith, length-inner_loop (exchange key x y).0 ys)

  module _ {κ} (P : A → Type κ) where
    inner_loop-All :
        (x : A) (xs : List A)
        → P x
        → All P xs
        → P (inner_loop key x xs).0 × All P (inner_loop key x xs).1
    unfolding inner_loop
    inner_loop-All x [] h hs = (h, tt)
    inner_loop-All x (y ∷ ys) h hs = elim (Bool-cases (ltb (key y) (key x))) [
      | inl swapped ↦ let (low, rest) = inner_loop-All y ys hs.0 hs.1 in rw swapped (low, (h, rest))
      | inr kept ↦ let (low, rest) = inner_loop-All x ys h hs.1 in rw kept (low, (hs.0, rest))
    ]

    outer_loop-All : (n : ℕ) (xs : List A) → All P xs → All P (outer_loop key n xs)
    unfolding outer_loop
    outer_loop-All zero xs hs = hs
    outer_loop-All (suc n) [] hs = tt
    outer_loop-All (suc n) (x ∷ xs) hs =
        let (low, rest) = inner_loop-All x xs hs.0 hs.1 in
        (low, outer_loop-All n (inner_loop key x xs).1 rest)

  outer_loop-IsSorted :
      (n : ℕ) (xs : List A) → length xs ≤ n + 1 → IsSorted key (outer_loop key n xs)
  unfolding outer_loop
  outer_loop-IsSorted zero [] h = tt
  outer_loop-IsSorted zero (x ∷ []) h = (tt, tt)
  outer_loop-IsSorted zero (x ∷ y ∷ ys) h = absurd (omega arith)
  outer_loop-IsSorted (suc n) [] h = tt
  outer_loop-IsSorted (suc n) (x ∷ xs) h =
      let (least, rest) = inner_loop key x xs in
      (
        outer_loop-All (λ y. key least ≤ key y) n rest (inner_loop_least x xs).1,
        outer_loop-IsSorted n rest (omega (arith, length-inner_loop x xs)),
      )

  -- The loops end with the same entries in ascending order of the key, and with as many.
  pub sort_pending-perm : (xs : List A) → Perm (sort_pending key xs) xs
  unfolding sort_pending
  sort_pending-perm xs = outer_loop-perm (length xs - 1) xs

  pub sort_pending-IsSorted : (xs : List A) → IsSorted key (sort_pending key xs)
  unfolding sort_pending
  sort_pending-IsSorted xs = outer_loop-IsSorted (length xs - 1) xs (omega arith)
