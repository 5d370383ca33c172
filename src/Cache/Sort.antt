-- ===== src/Cache/Sort.antt =====
-- The exchange sort by creation time of internal/cache/memory.go, GetPendingCommands.
pub mod Order
use castle_ops_client.Prelude.{
  ℕ, zero, suc, ◌-◌, ◌≤◌, List, [], ◌∷◌, ltb, length, if◌then◌else◌, All,
}

module _ {ℓ} {A : Type ℓ} (key : A → ℕ) where
  -- One step of the inner loop at `i` and `j`: the entries, swapped if out of order.
  abbrev pub exchange : A → A → A × A
  exchange x y = if ltb (key y) (key x) then (y, x) else (x, y)

  -- for j := i + 1; j < len; j++ { if before(xs[j], xs[i]) { swap } }: the entry that ends at `i`,
  -- and those behind it.
  unfoldable pub inner_loop : A → List A → A × List A
  inner_loop x [] = (x, [])
  inner_loop x (y ∷ ys) =
      let (lo, hi) = exchange x y in let (least, rest) = inner_loop lo ys in (least, hi ∷ rest)

  -- for i := 0; i < len - 1; i++, with the rounds left.
  unfoldable pub outer_loop : ℕ → List A → List A
  outer_loop zero xs = xs
  outer_loop (suc n) [] = []
  outer_loop (suc n) (x ∷ xs) = let (least, rest) = inner_loop x xs in least ∷ outer_loop n rest

  unfoldable pub sort_pending : List A → List A
  unfolding outer_loop inner_loop
  sort_pending xs = outer_loop (length xs - 1) xs

  -- Each entry is at most all those behind it.
  abbrev pub IsSorted : List A → Type 0
  IsSorted [] = Unit
  IsSorted (x ∷ xs) = All (λ y. key x ≤ key y) xs × IsSorted xs
