-- ===== src/Examples/Averages.antt =====
-- internal/metrics/collector.go
use castle_ops_client.Prelude.{ℕ, ◌+◌, ◌-◌, ◌*◌, ◌/◌, ◌≡◌, refl, List, [], ◌∷◌}
use castle_ops_client.Prelude.Int.{pos}
use castle_ops_client.Metrics.Average.{Arithmetic, new_moving_average, add_sample, get_average}
use castle_ops_client.Metrics.Average.Queue.{add_each, Agree, new_moving_average-Agree}

-- Sums are rounded down to an even number.
abbrev even_sums : Arithmetic ℕ
even_sums = record {
  nothing = 0;
  add = λ x y. (x + y) / 2 * 2;
  sub = λ x y. x - y;
  over = λ x n. x / n;
}

abbrev readings : List ℕ
readings = 11 ∷ 20 ∷ 30 ∷ 40 ∷ 50 ∷ []

new_moving_average-Agree_example : Agree even_sums (pos 3) readings
new_moving_average-Agree_example = new_moving_average-Agree even_sums readings (pos 3)

-- The error of the first sum stays when its sample is gone: 119 / 3 and not 120 / 3.
of_three :
    get_average even_sums (add_each even_sums readings (new_moving_average even_sums (pos 3))).1
    ≡ 39
unfolding get_average add_sample new_moving_average
of_three = refl
