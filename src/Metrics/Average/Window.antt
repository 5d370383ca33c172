-- ===== src/Metrics/Average/Window.antt =====
-- The ring buffer of internal/metrics/collector.go: its samples from the oldest on, and the next step.
use castle_ops_client.Prelude.{
  ℕ, zero, suc, ◌+◌, ◌%◌, ◌≤◌, ◌<◌, ◌≡◌, refl, ap, sym, ◌∙◌, List, [], ◌∷◌, ◌++◌, arith, set, take,
  drop, length, if◌then◌else◌, ◌==◌, Bool, true, false, ltb, ◌⊎◌, inl, inr,
}
use mathlib.Core.List.{append_assoc, append-nil}
use native.Mathlib.Nat.{mod-eq_of_lt, mod_self}
use castle_ops_client.Metrics.Average.{MovingAverage, replicate, nth}

module _ {S : Type 0} where
  pub drop-nth : (d : S) (s : List S) (i : ℕ) → i < length s → drop i s ≡ nth d s i ∷ drop (suc i) s
  drop-nth d [] i h = absurd (omega arith)
  drop-nth d (x ∷ xs) zero h = refl
  drop-nth d (x ∷ xs) (suc i) h = drop-nth d xs i (omega arith)

  take-set :
      (s : List S) (i : ℕ) (v : S) → i < length s → take (suc i) (set s i v) ≡ take i s ++ (v ∷ [])
  take-set [] i v h = absurd (omega arith)
  take-set (x ∷ xs) zero v h = refl
  take-set (x ∷ xs) (suc i) v h = ap (λ l. x ∷ l) (take-set xs i v (omega arith))

  drop-set : (s : List S) (i : ℕ) (v : S) → drop (suc i) (set s i v) ≡ drop (suc i) s
  drop-set [] i v = refl
  drop-set (x ∷ xs) zero v = refl
  drop-set (x ∷ xs) (suc i) v = drop-set xs i v

  take_whole : (s : List S) → take (length s) s ≡ s
  take_whole [] = refl
  take_whole (x ∷ xs) = ap (λ l. x ∷ l) (take_whole xs)

  drop_whole : (s : List S) → drop (length s) s ≡ []
  drop_whole [] = refl
  drop_whole (x ∷ xs) = drop_whole xs

  pub length-set : (s : List S) (i : ℕ) (v : S) → length (set s i v) ≡ length s
  length-set [] i v = refl
  length-set (x ∷ xs) zero v = refl
  length-set (x ∷ xs) (suc i) v = ap suc (length-set xs i v)

  pub length-replicate : (n : ℕ) (v : S) → length (replicate n v) ≡ n
  length-replicate zero v = refl
  length-replicate (suc n) v = ap suc (length-replicate n v)

  set_last :
      (s : List S) (i : ℕ) (v : S) → suc i ≡ length s → set s i v ++ [] ≡ take i s ++ (v ∷ [])
  set_last s i v h =
      append-nil (set s i v)
      ∙ sym (take_whole (set s i v))
      ∙ ap (λ n. take n (set s i v)) (length-set s i v ∙ sym h)
      ∙ take-set s i v (omega arith)

  pub oldest_gone :
      (d : S) (s : List S) (i : ℕ)
      → i < length s
      → drop 1 (drop i s ++ take i s) ≡ drop (suc i) s ++ take i s
  oldest_gone d s i h = ap (λ l. drop 1 (l ++ take i s)) (drop-nth d s i h)

  full_inside :
      (d : S) (s : List S) (i : ℕ) (v : S)
      → suc i < length s
      → drop (suc i) (set s i v) ++ take (suc i) (set s i v)
        ≡ drop 1 (drop i s ++ take i s) ++ (v ∷ [])
  full_inside d s i v h =
      rw (oldest_gone d s i (omega arith), drop-set s i v, take-set s i v (omega arith))
        (sym (append_assoc (drop (suc i) s) (take i s) (v ∷ [])))

  full_last :
      (d : S) (s : List S) (i : ℕ) (v : S)
      → suc i ≡ length s
      → set s i v ++ [] ≡ drop 1 (drop i s ++ take i s) ++ (v ∷ [])
  full_last d s i v h =
      rw (oldest_gone d s i (omega arith), set_last s i v h)
        (ap (λ l. (l ++ take i s) ++ (v ∷ [])) (sym (ap (λ n. drop n s) h ∙ drop_whole s)))

  -- The samples that a buffer holds, from the oldest on.
  abbrev pub held : List S → ℕ → Bool → ℕ → List S
  held s i true c = drop i s ++ take i s
  held s i false c = take c s

  abbrev pub window : MovingAverage S → List S
  window m = held m.samples m.index (m.count == m.size) m.count

  -- What is left of a window when a sample comes: all of it, or all but the oldest.
  abbrev pub without_oldest : Bool → List S → List S
  without_oldest true l = drop 1 l
  without_oldest false l = l

  pub record IsRing (m : MovingAverage S) : Type 0 where
    pub whole : length m.samples ≡ m.size
    pub inside : m.index < m.size
    pub filled : m.count ≤ m.size
    pub next : m.count < m.size → m.index ≡ m.count

pub compare_lem : (a b : ℕ) → a ≤ b → (a < b) ⊎ (a ≡ b)
compare_lem a b h = ground arith

pub wrap_same : (i n : ℕ) → suc i < n → (i + 1) % n ≡ suc i
wrap_same i n h = let plus : i + 1 ≡ suc i = omega arith in rw plus (mod-eq_of_lt h)

pub wrap_round : (i n : ℕ) → suc i ≡ n → (i + 1) % n ≡ 0
wrap_round i n h = let plus : i + 1 ≡ n = omega arith in rw plus (mod_self n)

module _ {S : Type 0} where
  pub held_next :
      (d : S) (s : List S) (i c n : ℕ) (v : S)
      → length s ≡ n
      → i < n
      → c ≤ n
      → (c < n → i ≡ c)
      → held
          (set s i v)
          ((i + 1) % n)
          ((if ltb c n then c + 1 else c) == n)
          (if ltb c n then c + 1 else c)
        ≡ without_oldest (c == n) (held s i (c == n) c) ++ (v ∷ [])
  held_next d s i c n v whole inside filled next = elim (compare_lem (suc i) n (omega arith)) [
    | inl before ↦ elim (compare_lem c n filled) [
      | inl part ↦
          let more : ltb c n ≡ true = ground arith in
          let partial : (c == n) ≡ false = ground arith in
          let still : (c + 1 == n) ≡ false = ground (arith, next part) in
          let at : c + 1 ≡ suc i = omega (arith, next part) in
          let here : i ≡ c = next part in
          rw (wrap_same i n before, more, still, partial, at, sym here)
            (take-set s i v (omega arith))
      | inr full ↦
          let no_more : ltb c n ≡ false = ground arith in
          let complete : (c == n) ≡ true = ground arith in
          rw (wrap_same i n before, no_more, complete) (full_inside d s i v (omega arith))
    ]
    | inr last ↦ elim (compare_lem c n filled) [
      | inl part ↦
          let more : ltb c n ≡ true = ground arith in
          let partial : (c == n) ≡ false = ground arith in
          let now : (c + 1 == n) ≡ true = ground (arith, next part) in
          let here : i ≡ c = next part in
          rw (wrap_round i n last, more, now, partial, sym here) (set_last s i v (omega arith))
      | inr full ↦
          let no_more : ltb c n ≡ false = ground arith in
          let complete : (c == n) ≡ true = ground arith in
          rw (wrap_round i n last, no_more, complete) (full_last d s i v (omega arith))
    ]
  ]
