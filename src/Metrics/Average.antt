-- ===== src/Metrics/Average.antt =====
-- internal/metrics/collector.go: the moving average over a ring buffer. The type of the samples and its
-- arithmetic are parameters; the code has float64.
pub mod Window
pub mod Samples
pub mod Queue
use castle_ops_client.Prelude.{
  ℕ, zero, suc, ◌+◌, ◌%◌, List, [], ◌∷◌, Bool, ltb, ◌==◌, if◌then◌else◌, set,
}
use castle_ops_client.Prelude.Int.{ℤ, positive, pos_part}

-- `over` divides by the number of samples.
pub record Arithmetic (S : Type 0) : Type 0 where
  pub nothing : S
  pub add : S → S → S
  pub sub : S → S → S
  pub over : S → ℕ → S

pub record MovingAverage (S : Type 0) : Type 0 where
  pub samples : List S
  pub index : ℕ
  pub count : ℕ
  pub size : ℕ
  pub sum : S

abbrev pub replicate : {S : Type 0} → ℕ → S → List S
replicate zero v = []
replicate (suc n) v = v ∷ replicate n v

-- samples[i], which is in range
abbrev pub nth : {S : Type 0} → S → List S → ℕ → S
nth d [] i = d
nth d (x ∷ xs) zero = x
nth d (x ∷ xs) (suc i) = nth d xs i

abbrev pub window_size : ℤ → ℕ
window_size n = if positive n then pos_part n else 1

module _ {S : Type 0} (a : Arithmetic S) where
  unfoldable pub new_moving_average : ℤ → MovingAverage S
  new_moving_average n = record {
    samples = replicate (window_size n) a.nothing;
    index = 0;
    count = 0;
    size = window_size n;
    sum = a.nothing;
  }

  unfoldable pub add_sample : S → MovingAverage S → S × MovingAverage S
  add_sample value m =
      let kept =
        if m.count == m.size then a.sub m.sum (nth a.nothing m.samples m.index) else m.sum in
      let sum = a.add kept value in
      let count = if ltb m.count m.size then m.count + 1 else m.count in
      (
        a.over sum count,
        record {
          samples = set m.samples m.index value;
          index = (m.index + 1) % m.size;
          count = count;
          size = m.size;
          sum = sum;
        },
      )

  unfoldable pub get_average : MovingAverage S → S
  get_average m = if m.count == 0 then a.nothing else a.over m.sum m.count

  unfoldable pub reset : MovingAverage S → MovingAverage S
  reset m = record {
    samples = replicate m.size a.nothing;
    index = 0;
    count = 0;
    size = m.size;
    sum = a.nothing;
  }
