-- ===== src/Metrics/Average/Samples.antt =====
-- Which samples the ring buffer of internal/metrics/collector.go holds after another one.
use castle_ops_client.Prelude.{
  ℕ, zero, suc, ◌+◌, ◌-◌, ◌%◌, ◌≤◌, ◌<◌, ◌≡◌, refl, ap, sym, ◌∙◌, List, [], ◌∷◌, ◌++◌, arith, take,
  drop, length, if◌then◌else◌, ◌==◌, true, false, ltb, inl, inr, length-append, length-take,
  length-drop,
}
use native.Mathlib.Nat.{mod-lt}
use castle_ops_client.Metrics.Average.{Arithmetic, MovingAverage, add_sample}
use castle_ops_client.Metrics.Average.Window.{
  IsRing, window, without_oldest, held, held_next, length-set, compare_lem, wrap_same,
}

-- The last n entries.
abbrev pub last_of : {S : Type 0} → ℕ → List S → List S
last_of n xs = drop (length xs - n) xs

module _ {S : Type 0} where
  drop-append : (j : ℕ) (xs ys : List S) → j ≤ length xs → drop j xs ++ ys ≡ drop j (xs ++ ys)
  drop-append zero xs ys h = refl
  drop-append (suc j) [] ys h = absurd (omega arith)
  drop-append (suc j) (x ∷ xs) ys h = drop-append j xs ys (omega arith)

  drop_empty : (n : ℕ) → drop {A = S} n [] ≡ []
  drop_empty zero = refl
  drop_empty (suc n) = refl

  drop-drop : (j k : ℕ) (xs : List S) → drop k (drop j xs) ≡ drop (j + k) xs
  drop-drop zero k xs = let same : k ≡ 0 + k = omega arith in ap (λ n. drop n xs) same
  drop-drop (suc j) k [] = drop_empty k ∙ sym (drop_empty (suc j + k))
  drop-drop (suc j) k (x ∷ xs) =
      let more : suc (j + k) ≡ suc j + k = omega arith in
      drop-drop j k xs ∙ ap (λ n. drop n (x ∷ xs)) more

  pub last_of-append :
      (n : ℕ) (xs ys : List S) → last_of n (last_of n xs ++ ys) ≡ last_of n (xs ++ ys)
  last_of-append n xs ys =
      let j = length xs - n in
      let joined = drop-append j xs ys (omega arith) in
      let size = length-append xs ys in
      let rest = length-drop j (xs ++ ys) in
      let far : j + (length (drop j (xs ++ ys)) - n) ≡ length (xs ++ ys) - n =
        omega (arith, size, rest) in
      rw joined
        (drop-drop j (length (drop j (xs ++ ys)) - n) (xs ++ ys) ∙ ap (λ k. drop k (xs ++ ys)) far)

  length-held :
      (s : List S) (i c n : ℕ) → length s ≡ n → i < n → c ≤ n → length (held s i (c == n) c) ≡ c
  length-held s i c n whole inside filled = elim (compare_lem c n filled) [
    | inl part ↦
        let partial : (c == n) ≡ false = ground arith in rw partial (omega (arith, length-take c s))
    | inr full ↦
        let complete : (c == n) ≡ true = ground arith in
        rw complete
          (omega (arith, length-append (drop i s) (take i s), length-drop i s, length-take i s))
  ]

  pub length-window : (m : MovingAverage S) → IsRing m → length (window m) ≡ m.count
  length-window m r = length-held m.samples m.index m.count m.size r.whole r.inside r.filled

  -- What `without_oldest` leaves and the new sample are the last ones.
  without_oldest-append :
      (w : List S) (c n : ℕ) (v : S)
      → length w ≡ c
      → 0 < n
      → c ≤ n
      → without_oldest (c == n) w ++ (v ∷ []) ≡ last_of n (w ++ (v ∷ []))
  without_oldest-append w c n v size some filled =
      let longer = length-append w (v ∷ []) in
      elim (compare_lem c n filled) [
        | inl part ↦
            let partial : (c == n) ≡ false = ground arith in
            let none_gone : 0 ≡ length (w ++ (v ∷ [])) - n = omega (arith, longer) in
            rw partial (ap (λ k. drop k (w ++ (v ∷ []))) none_gone)
        | inr full ↦
            let complete : (c == n) ≡ true = ground arith in
            let one_gone : 1 ≡ length (w ++ (v ∷ [])) - n = omega (arith, longer) in
            rw complete
              (drop-append 1 w (v ∷ []) (omega arith) ∙ ap (λ k. drop k (w ++ (v ∷ []))) one_gone)
      ]

next_index :
    (i c n : ℕ)
    → i < n
    → c ≤ n
    → (c < n → i ≡ c)
    → (if ltb c n then c + 1 else c) < n
    → (i + 1) % n ≡ (if ltb c n then c + 1 else c)
next_index i c n inside filled next h = elim (compare_lem c n filled) [
  | inl part ↦
      let more : ltb c n ≡ true = ground arith in
      let before : suc i < n = ground (arith, next part) in
      rw (wrap_same i n before, more) (omega (arith, next part))
  | inr full ↦ absurd (ground arith)
]

module _ {S : Type 0} (a : Arithmetic S) where
  pub add_sample-IsRing : (v : S) (m : MovingAverage S) → IsRing m → IsRing (add_sample a v m).1
  unfolding add_sample
  add_sample-IsRing v m r = record {
    whole = length-set m.samples m.index v ∙ r.whole;
    inside = mod-lt (m.index + 1) (omega (arith, r.inside));
    filled = ground (arith, r.filled);
    next = next_index m.index m.count m.size r.inside r.filled r.next;
  }

  -- The samples after the oldest is gone and the new one is there.
  pub window-add_sample :
      (v : S) (m : MovingAverage S)
      → IsRing m
      → window (add_sample a v m).1 ≡ last_of m.size (window m ++ (v ∷ []))
  unfolding add_sample
  window-add_sample v m r =
      held_next v m.samples m.index m.count m.size v r.whole r.inside r.filled r.next
      ∙ without_oldest-append (window m) m.count m.size v (length-window m r)
          (omega (arith, r.inside)) r.filled
