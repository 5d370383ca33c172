-- ===== src/Api/Batches.antt =====
-- The batches of internal/api/queue.go and internal/agent/agent.go: `for i := 0; i < len(xs); i +=
-- size` over `xs[i:end]`, with the rounds as fuel.
use castle_ops_client.Prelude.{
  ℕ, zero, suc, ◌≤◌, ◌<◌, ◌≡◌, refl, ap, ◌∙◌, List, [], ◌∷◌, ◌++◌, arith, length, take, drop, All,
  take-append-drop, length-take, length-drop,
}

module _ {ℓ} {A : Type ℓ} where
  unfoldable pub batches_from : ℕ → ℕ → List A → List (List A)
  batches_from zero size xs = []
  batches_from (suc fuel) size [] = []
  batches_from (suc fuel) size (x ∷ xs) =
      take size (x ∷ xs) ∷ batches_from fuel size (drop size (x ∷ xs))

  -- Each round takes at least one entry where the size is positive, so the length is fuel enough.
  unfoldable pub batches : ℕ → List A → List (List A)
  unfolding batches_from
  batches size xs = batches_from (length xs) size xs

  abbrev pub concat : List (List A) → List A
  concat [] = []
  concat (b ∷ bs) = b ++ concat bs

  abbrev pub Fits : ℕ → List A → Type 0
  Fits size b = (0 < length b) × (length b ≤ size)

  concat-batches_from :
      (fuel size : ℕ) (xs : List A)
      → 0 < size
      → length xs ≤ fuel
      → concat (batches_from fuel size xs) ≡ xs
  unfolding batches_from
  concat-batches_from zero size [] h k = refl
  concat-batches_from zero size (x ∷ xs) h k = absurd (omega arith)
  concat-batches_from (suc fuel) size [] h k = refl
  concat-batches_from (suc fuel) size (x ∷ xs) h k =
      ap (λ l. take size (x ∷ xs) ++ l)
        (concat-batches_from fuel size (drop size (x ∷ xs)) h
          (omega (arith, length-drop size (x ∷ xs))))
      ∙ take-append-drop size (x ∷ xs)

  batches_from-Fits :
      (fuel size : ℕ) (xs : List A) → 0 < size → All (Fits size) (batches_from fuel size xs)
  unfolding batches_from
  batches_from-Fits zero size xs h = tt
  batches_from-Fits (suc fuel) size [] h = tt
  batches_from-Fits (suc fuel) size (x ∷ xs) h =
      (omega (arith, length-take size (x ∷ xs)), batches_from-Fits fuel size (drop size (x ∷ xs)) h)

  -- For a positive size the loop passes over all entries, in order and each once, in batches that
  -- are not empty and hold `size` entries at most.
  pub batches_lem :
      (size : ℕ) (xs : List A)
      → 0 < size
      → (concat (batches size xs) ≡ xs) × All (Fits size) (batches size xs)
  unfolding batches
  batches_lem size xs h = (
    concat-batches_from (length xs) size xs h (omega arith),
    batches_from-Fits (length xs) size xs h,
  )
