-- ===== src/Metrics/Average/Queue.antt =====
-- The ring buffer of internal/metrics/collector.go against a plain queue of samples with a running
-- sum, in any arithmetic: the samples are subtracted and added in the same order, so that the results
-- agree to the last bit, however the arithmetic rounds.
use castle_ops_client.Prelude.{
  ℕ, zero, suc, ◌-◌, ◌≤◌, ◌<◌, ◌≡◌, refl, ap, sym, ◌∙◌, List, [], ◌∷◌, ◌++◌, arith, drop, length,
  if◌then◌else◌, ◌==◌, Bool, true, false,
}
use mathlib.Core.Path.{ap₂}
use castle_ops_client.Prelude.Int.{ℤ, pos, negsuc}
use mathlib.Core.List.{append_assoc, append-nil}
use castle_ops_client.Metrics.Average.{
  Arithmetic, MovingAverage, replicate, nth, add_sample, new_moving_average, get_average,
  window_size,
}
use castle_ops_client.Metrics.Average.Window.{
  IsRing, window, without_oldest, held, held_next, drop-nth, length-replicate,
}
use castle_ops_client.Metrics.Average.Samples.{
  last_of, last_of-append, length-window, add_sample-IsRing, window-add_sample,
}

module _ {S : Type 0} (a : Arithmetic S) where
  -- The samples from the oldest on, and the running sum.
  abbrev pub Queue : Type 0
  Queue = List S × S

  abbrev drop_front : Bool → Queue → Queue
  drop_front false q = q
  drop_front true ([], sum) = ([], sum)
  drop_front true (x ∷ xs, sum) = (xs, a.sub sum x)

  abbrev put : S → Queue → Queue
  put v (xs, sum) = (xs ++ v ∷ [], a.add sum v)

  -- A queue of `n` places gives up its front for a new sample once it is full.
  abbrev pub push : ℕ → S → Queue → Queue
  push n v q = put v (drop_front (length q.0 == n) q)

  -- The average of what is there, and nothing where nothing is.
  abbrev pub average : Queue → S
  average q = if length q.0 == 0 then a.nothing else a.over q.1 (length q.0)

  -- Add for each sample: the averages that it returns, and the buffer.
  abbrev pub add_each : List S → MovingAverage S → List S × MovingAverage S
  add_each [] m = ([], m)
  add_each (v ∷ vs) m =
      let (x, m1) = add_sample a v m in let (xs, m2) = add_each vs m1 in (x ∷ xs, m2)

  abbrev pub push_each : ℕ → List S → Queue → List S × Queue
  push_each n [] q = ([], q)
  push_each n (v ∷ vs) q =
      let q1 = push n v q in
      let (xs, q2) = push_each n vs q1 in (a.over q1.1 (length q1.0) ∷ xs, q2)

  abbrev queue_of : MovingAverage S → Queue
  queue_of m = (window m, m.sum)

  drop_front-held :
      (full : Bool) (s : List S) (i c : ℕ) (sum : S)
      → i < length s
      → drop_front full (held s i full c, sum) ≡ (
        without_oldest full (held s i full c),
        if full then a.sub sum (nth a.nothing s i) else sum,
      )
  drop_front-held false s i c sum h = refl
  drop_front-held true s i c sum h = rw (drop-nth a.nothing s i h) refl

  push-window :
      (v : S) (m : MovingAverage S)
      → IsRing m
      → push m.size v (queue_of m) ≡ queue_of (add_sample a v m).1
  unfolding add_sample
  push-window v m r =
      let full = m.count == m.size in
      let inside : m.index < length m.samples = omega (arith, r.inside, r.whole) in
      ap (λ c. put v (drop_front (c == m.size) (queue_of m))) (length-window m r)
      ∙ ap (put v) (drop_front-held full m.samples m.index m.count m.sum inside)
      ∙ ap
          (λ (l : List S).
            (l, a.add (if full then a.sub m.sum (nth a.nothing m.samples m.index) else m.sum) v))
          (sym (held_next v m.samples m.index m.count m.size v r.whole r.inside r.filled r.next))

  -- Add returns the average of the queue.
  add_sample-average :
      (v : S) (m : MovingAverage S)
      → IsRing m
      → (add_sample a v m).0
        ≡ a.over (push m.size v (queue_of m)).1 (length (push m.size v (queue_of m)).0)
  unfolding add_sample
  add_sample-average v m r =
      let m1 = (add_sample a v m).1 in
      ap (a.over m1.sum) (sym (length-window m1 (add_sample-IsRing a v m r)))
      ∙ ap (λ q. a.over q.1 (length q.0)) (sym (push-window v m r))

  get_average-average : (m : MovingAverage S) → IsRing m → get_average a m ≡ average (queue_of m)
  unfolding get_average
  get_average-average m r = rw (length-window m r) refl

  add_each-push_each :
      (vs : List S) (m : MovingAverage S)
      → IsRing m
      → IsRing (add_each vs m).1
        × ((add_each vs m).0 ≡ (push_each m.size vs (queue_of m)).0)
        × (queue_of (add_each vs m).1 ≡ (push_each m.size vs (queue_of m)).1)
  add_each-push_each [] m r = (r, refl, refl)
  add_each-push_each (v ∷ vs) m r =
      let m1 = (add_sample a v m).1 in
      let (r1, x1, q1) = add_each-push_each vs m1 (add_sample-IsRing a v m r) in
      let same = push-window v m r in
      let kept : m1.size ≡ m.size = unfold add_sample in refl in
      (
        r1,
        ap₂ (λ x xs. x ∷ xs) (add_sample-average v m r)
            (x1 ∙ ap₂ (λ n q. (push_each n vs q).0) kept (sym same)),
        q1 ∙ ap₂ (λ n q. (push_each n vs q).1) kept (sym same),
      )

  short : (n : ℕ) (w : List S) → length w ≤ n → w ≡ last_of n (w ++ [])
  short n w h =
      let none_gone : 0 ≡ length w - n = omega arith in
      ap (λ k. drop k w) none_gone ∙ ap (last_of n) (sym (append-nil w))

  add_each-window :
      (vs : List S) (m : MovingAverage S)
      → IsRing m
      → window (add_each vs m).1 ≡ last_of m.size (window m ++ vs)
  add_each-window [] m r = short m.size (window m) (omega (arith, length-window m r, r.filled))
  add_each-window (v ∷ vs) m r =
      add_each-window vs (add_sample a v m).1 (add_sample-IsRing a v m r)
      ∙ unfold add_sample in
        ap (λ l. last_of m.size (l ++ vs)) (window-add_sample a v m r)
        ∙ last_of-append m.size (window m ++ (v ∷ [])) vs
        ∙ ap (last_of m.size) (append_assoc (window m) (v ∷ []) vs)

  window_size_positive : (n : ℤ) → 0 < window_size n
  window_size_positive (pos zero) = omega arith
  window_size_positive (pos (suc n)) = omega arith
  window_size_positive (negsuc n) = omega arith

  nothing_held : (s : List S) (n : ℕ) → 0 < n → held s 0 (0 == n) 0 ≡ []
  nothing_held s n h = let not_full : (0 == n) ≡ false = ground arith in rw not_full refl

  -- The ring buffer, and the queue of its places, after the same samples.
  pub record Agree (n : ℤ) (vs : List S) : Type 0 where
    ring : MovingAverage S
    queue : Queue
    returned : List S
    adds : add_each vs (new_moving_average a n) ≡ (returned, ring)
    pushes : push_each (window_size n) vs ([], a.nothing) ≡ (returned, queue)
    gets : get_average a ring ≡ average queue
    holds : queue.0 ≡ last_of (window_size n) vs

  -- Whatever the samples and however the arithmetic rounds, the ring buffer returns from each Add, and
  -- then from Get, the averages that a queue with a running sum returns: it has as many places as the
  -- size says (one for a size that is not positive), subtracts its front from the sum when it is full,
  -- and holds the last samples in their order.
  pub new_moving_average-Agree : (vs : List S) (n : ℤ) → Agree n vs
  unfolding new_moving_average
  new_moving_average-Agree vs n =
      let m = new_moving_average a n in
      let size = window_size n in
      let some_places = window_size_positive n in
      let empty = nothing_held (replicate size a.nothing) size some_places in
      let ring : IsRing m = record {
        whole = length-replicate size a.nothing;
        inside = some_places;
        filled = omega arith;
        next = λ h. refl;
      } in
      let (r, x, q) = add_each-push_each vs m ring in
      let start : queue_of m ≡ ([], a.nothing) = ap (λ l. (l, a.nothing)) empty in
      record {
        ring = (add_each vs m).1;
        queue = queue_of (add_each vs m).1;
        returned = (add_each vs m).0;
        adds = refl;
        pushes = sym (ap (push_each size vs) start) ∙ sym (ap₂ (λ xs q. (xs, q)) x q);
        gets = get_average-average (add_each vs m).1 r;
        holds = add_each-window vs m ring ∙ ap (λ l. last_of size (l ++ vs)) empty;
      }
